-- ===== src/Message/ResponsesRoundTrip.antt =====
-- What the response classes of include/kafka/message write is read back by the readers of Responses.
use kafka_cpp_server.Prelude.{ℕ, ◌^◌, ◌<◌, List, Bool, true, false, ◌==◌, if◌then◌else◌, ◌$◌, arith}
use kafka_cpp_server.Protocol.Stream.{bytes_readable, bytes_writable}
use kafka_cpp_server.Protocol.Reading.{read_int16, read_int32, read_compact_array}
use kafka_cpp_server.Protocol.Writing.{
  write_boolean, write_int32, write_error_code, write_compact_array,
}
use kafka_cpp_server.Protocol.RoundTrip.{RoundTrip, RoundTrip-bind, RoundTrip-last}
use kafka_cpp_server.Protocol.Integers.{
  RoundTrip-byte, RoundTrip-int16, RoundTrip-int32, RoundTrip-int64, RoundTrip-api_key,
}
use kafka_cpp_server.Protocol.Sequences.{
  RoundTrip-uuid, RoundTrip-tagged_fields, RoundTrip-compact_string, RoundTrip-compact_array,
}
use kafka_cpp_server.Metadata.RecordsRoundTrip.{IsRecordBatch, RoundTrip-record_batch}
use kafka_cpp_server.Message.ApiVersions.{
  ApiVersion, ApiVersionsResponse, write_api_version, write_api_versions_response,
}
use kafka_cpp_server.Message.DescribeTopicPartitions.{
  ResponsePartition, ResponseTopic, DescribeTopicPartitionsResponse, write_response_partition,
  write_response_topic, write_describe_topic_partitions_response,
}
use kafka_cpp_server.Message.Fetch.{
  AbortedTransaction, PartitionData, FetchableTopicResponse, FetchResponse,
  write_aborted_transaction, write_partition_data, write_fetchable_topic_response,
  write_fetch_response,
}
use kafka_cpp_server.Message.ResponseValues.{
  IsApiVersion, IsApiVersionsResponse, IsInt32, IsInt32Array, IsResponsePartition, IsResponseTopic,
  IsDescribeTopicPartitionsResponse, IsAbortedTransaction, IsPartitionData,
  IsFetchableTopicResponse, IsFetchResponse,
}
use kafka_cpp_server.Message.Responses.{
  read_boolean, read_api_version, read_api_versions_response, read_response_partition,
  read_response_topic, read_describe_topic_partitions_response, read_aborted_transaction,
  read_partition_data, read_fetchable_topic_response, read_fetch_response,
}

RoundTrip-error_code : (n : ℕ) → n < 2 ^ 16 → RoundTrip read_int16 (write_error_code n) n
unfolding write_error_code
RoundTrip-error_code n h = RoundTrip-int16 n h

RoundTrip-boolean : (b : Bool) → RoundTrip read_boolean (write_boolean b) b
unfolding write_boolean
RoundTrip-boolean true =
    RoundTrip-last (λ c. if c == 0 then false else true) (RoundTrip-byte 0x01 (omega arith))
RoundTrip-boolean false =
    RoundTrip-last (λ c. if c == 0 then false else true) (RoundTrip-byte 0x00 (omega arith))

RoundTrip-int32_array :
    (ns : List ℕ)
    → IsInt32Array ns
    → RoundTrip (read_compact_array read_int32) (write_compact_array write_int32 ns) ns
RoundTrip-int32_array ns (h, k) = RoundTrip-compact_array IsInt32 RoundTrip-int32 ns h k

RoundTrip-api_version :
    (v : ApiVersion) → IsApiVersion v → RoundTrip read_api_version (write_api_version v) v
unfolding write_api_version
RoundTrip-api_version v h =
    RoundTrip-bind _ (RoundTrip-api_key v.api_key h.api_key_fits)
    $ RoundTrip-bind _ (RoundTrip-int16 v.min_version h.min_version_fits)
    $ RoundTrip-bind _ (RoundTrip-int16 v.max_version h.max_version_fits)
    $ RoundTrip-last _ RoundTrip-tagged_fields

pub RoundTrip-api_versions_response :
    (r : ApiVersionsResponse)
    → IsApiVersionsResponse r
    → RoundTrip read_api_versions_response (write_api_versions_response r) r
unfolding write_api_versions_response
RoundTrip-api_versions_response r h =
    RoundTrip-bind _ (RoundTrip-error_code r.error_code h.error_code_fits)
    $ RoundTrip-bind _ (
        RoundTrip-compact_array IsApiVersion RoundTrip-api_version r.api_keys h.api_keys_fit
          h.api_keys_valid)
    $ RoundTrip-bind _ (RoundTrip-int32 r.throttle_time_ms h.throttle_time_ms_fits)
    $ RoundTrip-last _ RoundTrip-tagged_fields

RoundTrip-response_partition :
    (p : ResponsePartition)
    → IsResponsePartition p
    → RoundTrip read_response_partition (write_response_partition p) p
unfolding write_response_partition
RoundTrip-response_partition p h =
    RoundTrip-bind _ (RoundTrip-error_code p.error_code h.error_code_fits)
    $ RoundTrip-bind _ (RoundTrip-int32 p.partition_index h.partition_index_fits)
    $ RoundTrip-bind _ (RoundTrip-int32 p.leader_id h.leader_id_fits)
    $ RoundTrip-bind _ (RoundTrip-int32 p.leader_epoch h.leader_epoch_fits)
    $ RoundTrip-bind _ (RoundTrip-int32_array p.replica_nodes h.replica_nodes_fit)
    $ RoundTrip-bind _ (RoundTrip-int32_array p.isr_nodes h.isr_nodes_fit)
    $ RoundTrip-bind _
        (RoundTrip-int32_array p.eligible_leader_replicas h.eligible_leader_replicas_fit)
    $ RoundTrip-bind _ (RoundTrip-int32_array p.last_known_elr h.last_known_elr_fit)
    $ RoundTrip-bind _ (RoundTrip-int32_array p.offline_replicas h.offline_replicas_fit)
    $ RoundTrip-last _ RoundTrip-tagged_fields

RoundTrip-response_topic :
    (t : ResponseTopic)
    → IsResponseTopic t
    → RoundTrip read_response_topic (write_response_topic t) t
unfolding write_response_topic
RoundTrip-response_topic t h =
    RoundTrip-bind _ (RoundTrip-error_code t.error_code h.error_code_fits)
    $ RoundTrip-bind _ (RoundTrip-compact_string t.name h.name_fits)
    $ RoundTrip-bind _ (RoundTrip-uuid t.topic_id h.topic_id_fits)
    $ RoundTrip-bind _ (RoundTrip-boolean t.is_internal)
    $ RoundTrip-bind _ (
        RoundTrip-compact_array IsResponsePartition RoundTrip-response_partition t.partitions
          h.partitions_fit h.partitions_valid)
    $ RoundTrip-bind _
        (RoundTrip-int32 t.topic_authorized_operations h.topic_authorized_operations_fit)
    $ RoundTrip-last _ RoundTrip-tagged_fields

pub RoundTrip-describe_topic_partitions_response :
    (r : DescribeTopicPartitionsResponse)
    → IsDescribeTopicPartitionsResponse r
    → RoundTrip read_describe_topic_partitions_response
        (write_describe_topic_partitions_response r)
        r
unfolding write_describe_topic_partitions_response
RoundTrip-describe_topic_partitions_response r h =
    RoundTrip-bind _ (RoundTrip-int32 r.throttle_time_ms h.throttle_time_ms_fits)
    $ RoundTrip-bind _ (
        RoundTrip-compact_array IsResponseTopic RoundTrip-response_topic r.topics h.topics_fit
          h.topics_valid)
    $ RoundTrip-bind _ (RoundTrip-byte 0xFF (omega arith))
    $ RoundTrip-last _ RoundTrip-tagged_fields

RoundTrip-aborted_transaction :
    (t : AbortedTransaction)
    → IsAbortedTransaction t
    → RoundTrip read_aborted_transaction (write_aborted_transaction t) t
unfolding write_aborted_transaction
RoundTrip-aborted_transaction t (h, k) =
    RoundTrip-bind _ (RoundTrip-int64 t.producer_id h)
    $ RoundTrip-bind _ (RoundTrip-int64 t.first_offset k)
    $ RoundTrip-last _ RoundTrip-tagged_fields

RoundTrip-partition_data :
    (p : PartitionData)
    → IsPartitionData p
    → RoundTrip read_partition_data (write_partition_data p) p
unfolding write_partition_data
RoundTrip-partition_data p h =
    RoundTrip-bind _ (RoundTrip-int32 p.partition_index h.partition_index_fits)
    $ RoundTrip-bind _ (RoundTrip-error_code p.error_code h.error_code_fits)
    $ RoundTrip-bind _ (RoundTrip-int64 p.high_watermark h.high_watermark_fits)
    $ RoundTrip-bind _ (RoundTrip-int64 p.last_stable_offset h.last_stable_offset_fits)
    $ RoundTrip-bind _ (RoundTrip-int64 p.log_start_offset h.log_start_offset_fits)
    $ RoundTrip-bind _ (
        RoundTrip-compact_array IsAbortedTransaction RoundTrip-aborted_transaction
          p.aborted_transactions h.aborted_fit h.aborted_valid)
    $ RoundTrip-bind _ (RoundTrip-int32 p.preferred_read_replica h.preferred_read_replica_fits)
    $ RoundTrip-bind _ (
        RoundTrip-compact_array IsRecordBatch RoundTrip-record_batch p.records h.records_fit
          h.records_valid)
    $ RoundTrip-last _ RoundTrip-tagged_fields

RoundTrip-fetchable_topic_response :
    (t : FetchableTopicResponse)
    → IsFetchableTopicResponse t
    → RoundTrip read_fetchable_topic_response (write_fetchable_topic_response t) t
unfolding write_fetchable_topic_response
RoundTrip-fetchable_topic_response t h =
    RoundTrip-bind _ (RoundTrip-uuid t.topic_id h.topic_id_fits)
    $ RoundTrip-bind _ (
        RoundTrip-compact_array IsPartitionData RoundTrip-partition_data t.partitions
          h.partitions_fit h.partitions_valid)
    $ RoundTrip-last _ RoundTrip-tagged_fields

pub RoundTrip-fetch_response :
    (r : FetchResponse)
    → IsFetchResponse r
    → RoundTrip read_fetch_response (write_fetch_response r) r
unfolding write_fetch_response
RoundTrip-fetch_response r h =
    RoundTrip-bind _ (RoundTrip-int32 r.throttle_time_ms h.throttle_time_ms_fits)
    $ RoundTrip-bind _ (RoundTrip-error_code r.error_code h.error_code_fits)
    $ RoundTrip-bind _ (RoundTrip-int32 r.session_id h.session_id_fits)
    $ RoundTrip-bind _ (
        RoundTrip-compact_array IsFetchableTopicResponse RoundTrip-fetchable_topic_response
          r.responses h.responses_fit h.responses_valid)
    $ RoundTrip-last _ RoundTrip-tagged_fields
