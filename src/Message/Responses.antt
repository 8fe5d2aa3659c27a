-- ===== src/Message/Responses.antt =====
-- What a client makes of a response message, as a specification: readers for what the response
-- classes of include/kafka/message write.
use kafka_cpp_server.Prelude.{Bool, true, false, ◌==◌, if◌then◌else◌}
use kafka_cpp_server.Protocol.Types.{Bytes}
use kafka_cpp_server.Protocol.Constants
use kafka_cpp_server.Protocol.Constants.{ApiKey}
use kafka_cpp_server.Protocol.Outcome.{Io, ◌>>=◌, ◌>>◌, pure, undefined_behaviour}
use kafka_cpp_server.Protocol.Stream.{bytes_readable}
use kafka_cpp_server.Protocol.Reading.{
  read_byte, read_int16, read_int32, read_int64, read_uuid, read_api_key, read_compact_string,
  read_compact_array, read_tagged_fields, read_bytes,
}
use kafka_cpp_server.Metadata.Records.{read_record_batch}
use kafka_cpp_server.Message.Headers.{ResponseHeader}
use kafka_cpp_server.Message.ApiVersions.{ApiVersion, ApiVersionsResponse}
use kafka_cpp_server.Message.DescribeTopicPartitions.{
  ResponsePartition, ResponseTopic, DescribeTopicPartitionsResponse,
}
use kafka_cpp_server.Message.Fetch.{
  AbortedTransaction, PartitionData, FetchableTopicResponse, FetchResponse,
}
use kafka_cpp_server.Message.Messages.{
  AbstractResponse, fetch_response, api_versions_response, describe_topic_partitions_response,
  ResponseMessage, run_on,
}

abbrev pub Reader : Type 0 → Type 0
Reader A = Io Bytes A

abbrev pub read_boolean : Reader Bool
read_boolean = do c ← read_byte; pure (if c == 0 then false else true)

abbrev pub read_api_version : Reader ApiVersion
read_api_version = do
  api_key ← read_api_key
  min_version ← read_int16
  max_version ← read_int16
  read_tagged_fields
  pure (record { api_key = api_key; min_version = min_version; max_version = max_version })

abbrev pub read_api_versions_response : Reader ApiVersionsResponse
read_api_versions_response = do
  error_code ← read_int16
  api_keys ← read_compact_array read_api_version
  throttle_time_ms ← read_int32
  read_tagged_fields
  pure
      (record { error_code = error_code; api_keys = api_keys; throttle_time_ms = throttle_time_ms })

abbrev pub read_response_partition : Reader ResponsePartition
read_response_partition = do
  error_code ← read_int16
  partition_index ← read_int32
  leader_id ← read_int32
  leader_epoch ← read_int32
  replica_nodes ← read_compact_array read_int32
  isr_nodes ← read_compact_array read_int32
  eligible_leader_replicas ← read_compact_array read_int32
  last_known_elr ← read_compact_array read_int32
  offline_replicas ← read_compact_array read_int32
  read_tagged_fields
  pure (record {
    error_code = error_code;
    partition_index = partition_index;
    leader_id = leader_id;
    leader_epoch = leader_epoch;
    replica_nodes = replica_nodes;
    isr_nodes = isr_nodes;
    eligible_leader_replicas = eligible_leader_replicas;
    last_known_elr = last_known_elr;
    offline_replicas = offline_replicas;
  })

abbrev pub read_response_topic : Reader ResponseTopic
read_response_topic = do
  error_code ← read_int16
  name ← read_compact_string
  topic_id ← read_uuid
  is_internal ← read_boolean
  partitions ← read_compact_array read_response_partition
  topic_authorized_operations ← read_int32
  read_tagged_fields
  pure (record {
    error_code = error_code;
    name = name;
    topic_id = topic_id;
    is_internal = is_internal;
    partitions = partitions;
    topic_authorized_operations = topic_authorized_operations;
  })

-- The byte is the cursor, which is not there.
abbrev pub read_describe_topic_partitions_response : Reader DescribeTopicPartitionsResponse
read_describe_topic_partitions_response = do
  throttle_time_ms ← read_int32
  topics ← read_compact_array read_response_topic
  cursor ← read_byte
  read_tagged_fields
  pure (record { throttle_time_ms = throttle_time_ms; topics = topics })

abbrev pub read_aborted_transaction : Reader AbortedTransaction
read_aborted_transaction = do
  producer_id ← read_int64
  first_offset ← read_int64
  read_tagged_fields
  pure (record { producer_id = producer_id; first_offset = first_offset })

abbrev pub read_partition_data : Reader PartitionData
read_partition_data = do
  partition_index ← read_int32
  error_code ← read_int16
  high_watermark ← read_int64
  last_stable_offset ← read_int64
  log_start_offset ← read_int64
  aborted_transactions ← read_compact_array read_aborted_transaction
  preferred_read_replica ← read_int32
  records ← read_compact_array read_record_batch
  read_tagged_fields
  pure (record {
    partition_index = partition_index;
    error_code = error_code;
    high_watermark = high_watermark;
    last_stable_offset = last_stable_offset;
    log_start_offset = log_start_offset;
    aborted_transactions = aborted_transactions;
    preferred_read_replica = preferred_read_replica;
    records = records;
  })

abbrev pub read_fetchable_topic_response : Reader FetchableTopicResponse
read_fetchable_topic_response = do
  topic_id ← read_uuid
  partitions ← read_compact_array read_partition_data
  read_tagged_fields
  pure (record { topic_id = topic_id; partitions = partitions })

abbrev pub read_fetch_response : Reader FetchResponse
read_fetch_response = do
  throttle_time_ms ← read_int32
  error_code ← read_int16
  session_id ← read_int32
  responses ← read_compact_array read_fetchable_topic_response
  read_tagged_fields
  pure (record {
    throttle_time_ms = throttle_time_ms;
    error_code = error_code;
    session_id = session_id;
    responses = responses;
  })

-- A client knows which request an answer is to.
abbrev pub read_response : ApiKey → Reader AbstractResponse
read_response api_key =
    if api_key == Constants.fetch
    then read_fetch_response >>= (λ r. pure (fetch_response r))
    else if api_key == Constants.api_versions
    then read_api_versions_response >>= (λ r. pure (api_versions_response r))
    else if api_key == Constants.describe_topic_partitions
    then read_describe_topic_partitions_response
      >>= (λ r. pure (describe_topic_partitions_response r))
    else undefined_behaviour

-- Version 0 of the header, which ApiVersions has, has no tagged fields.
abbrev pub read_response_header : Bool → Reader ResponseHeader
read_response_header is_version_0 = do
  correlation_id ← read_int32
  if is_version_0 then pure tt else read_tagged_fields
  pure (record { correlation_id = correlation_id })

abbrev pub read_response_body : ApiKey → Reader ResponseMessage
read_response_body api_key = do
  header ← read_response_header (api_key == Constants.api_versions)
  response ← read_response api_key
  pure (record { header = header; response = response })

-- A size, that many bytes, and in them the header and the response.
abbrev pub read_response_message : ApiKey → Reader ResponseMessage
read_response_message api_key = do bytes ← read_bytes; run_on (read_response_body api_key) bytes
