-- ===== src/Message/DescribeTopicPartitions.antt =====
-- include/kafka/message/describe_topic_partitions.hpp.
use kafka_cpp_server.Prelude.{◌==◌, if◌then◌else◌}
use kafka_cpp_server.Protocol.Types.{
  Boolean, Int32, Uuid, CompactString, CompactNullableString, CompactArray,
}
use kafka_cpp_server.Protocol.Constants.{ErrorCode}
use kafka_cpp_server.Protocol.Outcome.{Io, ◌>>=◌, ◌>>◌, pure, raise, runtime_error}
use kafka_cpp_server.Protocol.Stream.{Readable, Writable}
use kafka_cpp_server.Protocol.Reading.{
  read_byte, read_int32, read_compact_string, read_tagged_fields, read_compact_array,
}
use kafka_cpp_server.Protocol.Writing.{
  write_byte, write_boolean, write_int32, write_uuid, write_compact_nullable_string,
  write_tagged_fields, write_error_code, write_compact_array,
}

pub record TopicRequest : Type 0 where
  pub name : CompactString

pub record DescribeTopicPartitionsRequest : Type 0 where
  pub topics : CompactArray TopicRequest
  pub response_partition_limit : Int32

pub record ResponsePartition : Type 0 where
  pub error_code : ErrorCode
  pub partition_index : Int32
  pub leader_id : Int32
  pub leader_epoch : Int32
  pub replica_nodes : CompactArray Int32
  pub isr_nodes : CompactArray Int32
  pub eligible_leader_replicas : CompactArray Int32
  pub last_known_elr : CompactArray Int32
  pub offline_replicas : CompactArray Int32

pub record ResponseTopic : Type 0 where
  pub error_code : ErrorCode
  pub name : CompactNullableString
  pub topic_id : Uuid
  pub is_internal : Boolean
  pub partitions : CompactArray ResponsePartition
  pub topic_authorized_operations : Int32

pub record DescribeTopicPartitionsResponse : Type 0 where
  pub throttle_time_ms : Int32
  pub topics : CompactArray ResponseTopic

module _ {S : Type 0} ⦃r : Readable S⦄ where
  unfoldable pub read_topic_request : Io S TopicRequest
  read_topic_request = do
    name ← read_compact_string
    read_tagged_fields
    pure (record { name = name })

  unfoldable pub read_describe_topic_partitions_request : Io S DescribeTopicPartitionsRequest
  read_describe_topic_partitions_request = do
    topics ← read_compact_array read_topic_request
    response_partition_limit ← read_int32
    c ← read_byte
    if c == 0xFF then pure tt else raise (runtime_error "unexpected cursor")
    read_tagged_fields
    pure (record { topics = topics; response_partition_limit = response_partition_limit })

module _ {S : Type 0} ⦃w : Writable S⦄ where
  unfoldable pub write_response_partition : ResponsePartition → Io S (Unit {0})
  write_response_partition object = do
    write_error_code object.error_code
    write_int32 object.partition_index
    write_int32 object.leader_id
    write_int32 object.leader_epoch
    write_compact_array write_int32 object.replica_nodes
    write_compact_array write_int32 object.isr_nodes
    write_compact_array write_int32 object.eligible_leader_replicas
    write_compact_array write_int32 object.last_known_elr
    write_compact_array write_int32 object.offline_replicas
    write_tagged_fields

  unfoldable pub write_response_topic : ResponseTopic → Io S (Unit {0})
  write_response_topic object = do
    write_error_code object.error_code
    write_compact_nullable_string object.name
    write_uuid object.topic_id
    write_boolean object.is_internal
    write_compact_array write_response_partition object.partitions
    write_int32 object.topic_authorized_operations
    write_tagged_fields

  unfoldable pub write_describe_topic_partitions_response :
      DescribeTopicPartitionsResponse → Io S (Unit {0})
  write_describe_topic_partitions_response response = do
    write_int32 response.throttle_time_ms
    write_compact_array write_response_topic response.topics
    write_byte 0xFF
    write_tagged_fields
