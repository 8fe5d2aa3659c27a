-- ===== src/Message/Requests.antt =====
-- What a client sends, as a specification: the values of requests and the encodings that the readers of include/kafka/message
-- take.
use kafka_cpp_server.Prelude.{◌-◌, ◌^◌, ◌<◌, ◌≡◌, length, All}
use kafka_cpp_server.Protocol.Types.{Bytes, NullableString}
use kafka_cpp_server.Protocol.Outcome.{Io, ◌>>◌}
use kafka_cpp_server.Protocol.Stream.{bytes_readable, bytes_writable, write}
use kafka_cpp_server.Protocol.Writing.{
  write_byte, write_int8, write_int16, write_int32, write_int64, write_uuid, write_api_key,
  write_compact_nullable_string, write_compact_array, write_tagged_fields,
}
use kafka_cpp_server.Message.Headers.{RequestHeader}
use kafka_cpp_server.Message.ApiVersions.{ApiVersionsRequest}
use kafka_cpp_server.Message.DescribeTopicPartitions.{TopicRequest, DescribeTopicPartitionsRequest}
use kafka_cpp_server.Message.Fetch.{FetchPartition, FetchTopic, ForgottonTopic, FetchRequest}

abbrev pub Writer : Type 0
Writer = Io Bytes (Unit {0})

abbrev pub write_nullable_string : NullableString → Writer
write_nullable_string str = do write_int16 (length str); write str

-- The values that a client can mean: each field is in its range.
pub record IsRequestHeader (h : RequestHeader) : Type 0 where
  pub request_api_key_fits : h.request_api_key < 2 ^ 16
  pub request_api_version_fits : h.request_api_version < 2 ^ 16
  pub correlation_id_fits : h.correlation_id < 2 ^ 32
  pub client_id_fits : length h.client_id < 2 ^ 15

abbrev pub IsName : Bytes → Type 0
IsName str = length str < 2 ^ 32 - 1

abbrev pub IsApiVersionsRequest : ApiVersionsRequest → Type 0
IsApiVersionsRequest r = IsName r.client_software_name × IsName r.client_software_version

abbrev pub IsTopicRequest : TopicRequest → Type 0
IsTopicRequest t = IsName t.name

abbrev pub IsDescribeTopicPartitionsRequest : DescribeTopicPartitionsRequest → Type 0
IsDescribeTopicPartitionsRequest r =
    (length r.topics < 2 ^ 32 - 1)
    × All IsTopicRequest r.topics
    × (r.response_partition_limit < 2 ^ 32)

pub record IsFetchPartition (p : FetchPartition) : Type 0 where
  pub partition_fits : p.partition < 2 ^ 32
  pub current_leader_epoch_fits : p.current_leader_epoch < 2 ^ 32
  pub fetch_offset_fits : p.fetch_offset < 2 ^ 64
  pub last_fetched_epoch_fits : p.last_fetched_epoch < 2 ^ 32
  pub log_start_offset_fits : p.log_start_offset < 2 ^ 64
  pub partition_max_bytes_fits : p.partition_max_bytes < 2 ^ 32

abbrev pub IsFetchTopic : FetchTopic → Type 0
IsFetchTopic t =
    (length t.topic_id ≡ 16)
    × (length t.partitions < 2 ^ 32 - 1)
    × All IsFetchPartition t.partitions

abbrev pub IsForgottonTopic : ForgottonTopic → Type 0
IsForgottonTopic t =
    (length t.topic_id ≡ 16)
    × (length t.partitions < 2 ^ 32 - 1)
    × All (λ n. n < 2 ^ 32) t.partitions

pub record IsFetchRequest (r : FetchRequest) : Type 0 where
  pub max_wait_ms_fits : r.max_wait_ms < 2 ^ 32
  pub min_bytes_fits : r.min_bytes < 2 ^ 32
  pub max_bytes_fits : r.max_bytes < 2 ^ 32
  pub isolation_level_fits : r.isolation_level < 2 ^ 8
  pub session_id_fits : r.session_id < 2 ^ 32
  pub session_epoch_fits : r.session_epoch < 2 ^ 32
  pub topics_fit : length r.topics < 2 ^ 32 - 1
  pub topics_valid : All IsFetchTopic r.topics
  pub forgotten_fit : length r.forgotten_topics_data < 2 ^ 32 - 1
  pub forgotten_valid : All IsForgottonTopic r.forgotten_topics_data
  pub rack_id_fits : IsName r.rack_id

-- The encodings.
abbrev pub write_request_header : RequestHeader → Writer
write_request_header h = do
  write_api_key h.request_api_key
  write_int16 h.request_api_version
  write_int32 h.correlation_id
  write_nullable_string h.client_id
  write_tagged_fields

abbrev pub write_api_versions_request : ApiVersionsRequest → Writer
write_api_versions_request r = do
  write_compact_nullable_string r.client_software_name
  write_compact_nullable_string r.client_software_version
  write_tagged_fields

abbrev pub write_topic_request : TopicRequest → Writer
write_topic_request t = do write_compact_nullable_string t.name; write_tagged_fields

-- The byte is the cursor, which is not there.
abbrev pub write_describe_topic_partitions_request : DescribeTopicPartitionsRequest → Writer
write_describe_topic_partitions_request r = do
  write_compact_array write_topic_request r.topics
  write_int32 r.response_partition_limit
  write_byte 0xFF
  write_tagged_fields

abbrev pub write_fetch_partition : FetchPartition → Writer
write_fetch_partition p = do
  write_int32 p.partition
  write_int32 p.current_leader_epoch
  write_int64 p.fetch_offset
  write_int32 p.last_fetched_epoch
  write_int64 p.log_start_offset
  write_int32 p.partition_max_bytes
  write_tagged_fields

abbrev pub write_fetch_topic : FetchTopic → Writer
write_fetch_topic t = do
  write_uuid t.topic_id
  write_compact_array write_fetch_partition t.partitions
  write_tagged_fields

abbrev pub write_forgotton_topic : ForgottonTopic → Writer
write_forgotton_topic t = do
  write_uuid t.topic_id
  write_compact_array write_int32 t.partitions
  write_tagged_fields

abbrev pub write_fetch_request : FetchRequest → Writer
write_fetch_request r = do
  write_int32 r.max_wait_ms
  write_int32 r.min_bytes
  write_int32 r.max_bytes
  write_int8 r.isolation_level
  write_int32 r.session_id
  write_int32 r.session_epoch
  write_compact_array write_fetch_topic r.topics
  write_compact_array write_forgotton_topic r.forgotten_topics_data
  write_compact_nullable_string r.rack_id
  write_tagged_fields
