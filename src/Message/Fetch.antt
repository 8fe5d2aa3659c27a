-- ===== src/Message/Fetch.antt =====
-- include/kafka/message/fetch.hpp.
use kafka_cpp_server.Protocol.Types.{Int8, Int32, Int64, Uuid, CompactString, CompactArray}
use kafka_cpp_server.Protocol.Constants.{ErrorCode}
use kafka_cpp_server.Protocol.Outcome.{Io, ◌>>=◌, ◌>>◌, pure}
use kafka_cpp_server.Protocol.Stream.{Readable, Writable}
use kafka_cpp_server.Protocol.Reading.{
  read_int8, read_int32, read_int64, read_uuid, read_compact_string, read_tagged_fields,
  read_compact_array,
}
use kafka_cpp_server.Protocol.Writing.{
  write_int32, write_int64, write_uuid, write_tagged_fields, write_error_code, write_compact_array,
}
use kafka_cpp_server.Metadata.Records.{RecordBatch, write_record_batch}

pub record FetchPartition : Type 0 where
  pub partition : Int32
  pub current_leader_epoch : Int32
  pub fetch_offset : Int64
  pub last_fetched_epoch : Int32
  pub log_start_offset : Int64
  pub partition_max_bytes : Int32

pub record FetchTopic : Type 0 where
  pub topic_id : Uuid
  pub partitions : CompactArray FetchPartition

pub record ForgottonTopic : Type 0 where
  pub topic_id : Uuid
  pub partitions : CompactArray Int32

pub record FetchRequest : Type 0 where
  pub max_wait_ms : Int32
  pub min_bytes : Int32
  pub max_bytes : Int32
  pub isolation_level : Int8
  pub session_id : Int32
  pub session_epoch : Int32
  pub topics : CompactArray FetchTopic
  pub forgotten_topics_data : CompactArray ForgottonTopic
  pub rack_id : CompactString

pub record AbortedTransaction : Type 0 where
  pub producer_id : Int64
  pub first_offset : Int64

pub record PartitionData : Type 0 where
  pub partition_index : Int32
  pub error_code : ErrorCode
  pub high_watermark : Int64
  pub last_stable_offset : Int64
  pub log_start_offset : Int64
  pub aborted_transactions : CompactArray AbortedTransaction
  pub preferred_read_replica : Int32
  pub records : CompactArray RecordBatch

pub record FetchableTopicResponse : Type 0 where
  pub topic_id : Uuid
  pub partitions : CompactArray PartitionData

pub record FetchResponse : Type 0 where
  pub throttle_time_ms : Int32
  pub error_code : ErrorCode
  pub session_id : Int32
  pub responses : CompactArray FetchableTopicResponse

module _ {S : Type 0} ⦃r : Readable S⦄ where
  unfoldable pub read_fetch_partition : Io S FetchPartition
  read_fetch_partition = do
    partition ← read_int32
    current_leader_epoch ← read_int32
    fetch_offset ← read_int64
    last_fetched_epoch ← read_int32
    log_start_offset ← read_int64
    partition_max_bytes ← read_int32
    read_tagged_fields
    pure (record {
      partition = partition;
      current_leader_epoch = current_leader_epoch;
      fetch_offset = fetch_offset;
      last_fetched_epoch = last_fetched_epoch;
      log_start_offset = log_start_offset;
      partition_max_bytes = partition_max_bytes;
    })

  unfoldable pub read_fetch_topic : Io S FetchTopic
  read_fetch_topic = do
    topic_id ← read_uuid
    partitions ← read_compact_array read_fetch_partition
    read_tagged_fields
    pure (record { topic_id = topic_id; partitions = partitions })

  unfoldable pub read_forgotton_topic : Io S ForgottonTopic
  read_forgotton_topic = do
    topic_id ← read_uuid
    partitions ← read_compact_array read_int32
    read_tagged_fields
    pure (record { topic_id = topic_id; partitions = partitions })

  unfoldable pub read_fetch_request : Io S FetchRequest
  read_fetch_request = do
    max_wait_ms ← read_int32
    min_bytes ← read_int32
    max_bytes ← read_int32
    isolation_level ← read_int8
    session_id ← read_int32
    session_epoch ← read_int32
    topics ← read_compact_array read_fetch_topic
    forgotten_topics_data ← read_compact_array read_forgotton_topic
    rack_id ← read_compact_string
    read_tagged_fields
    pure (record {
      max_wait_ms = max_wait_ms;
      min_bytes = min_bytes;
      max_bytes = max_bytes;
      isolation_level = isolation_level;
      session_id = session_id;
      session_epoch = session_epoch;
      topics = topics;
      forgotten_topics_data = forgotten_topics_data;
      rack_id = rack_id;
    })

module _ {S : Type 0} ⦃w : Writable S⦄ where
  unfoldable pub write_aborted_transaction : AbortedTransaction → Io S (Unit {0})
  write_aborted_transaction object = do
    write_int64 object.producer_id
    write_int64 object.first_offset
    write_tagged_fields

  unfoldable pub write_partition_data : PartitionData → Io S (Unit {0})
  write_partition_data object = do
    write_int32 object.partition_index
    write_error_code object.error_code
    write_int64 object.high_watermark
    write_int64 object.last_stable_offset
    write_int64 object.log_start_offset
    write_compact_array write_aborted_transaction object.aborted_transactions
    write_int32 object.preferred_read_replica
    write_compact_array write_record_batch object.records
    write_tagged_fields

  unfoldable pub write_fetchable_topic_response : FetchableTopicResponse → Io S (Unit {0})
  write_fetchable_topic_response object = do
    write_uuid object.topic_id
    write_compact_array write_partition_data object.partitions
    write_tagged_fields

  unfoldable pub write_fetch_response : FetchResponse → Io S (Unit {0})
  write_fetch_response response = do
    write_int32 response.throttle_time_ms
    write_error_code response.error_code
    write_int32 response.session_id
    write_compact_array write_fetchable_topic_response response.responses
    write_tagged_fields
