-- ===== src/Message/RequestsRoundTrip.antt =====
-- The readers of include/kafka/message take back what the encodings of Requests have put.
use kafka_cpp_server.Prelude.{◌^◌, ◌<◌, length, ◌$◌, lt→leb, arith}
use kafka_cpp_server.Protocol.Types.{Bytes}
use kafka_cpp_server.Protocol.Outcome.{Io, ◌>>=◌, ◌>>◌, pure}
use kafka_cpp_server.Protocol.Stream.{bytes_readable, bytes_writable}
use kafka_cpp_server.Protocol.Reading.{read_nullable_string}
use kafka_cpp_server.Protocol.RoundTrip.{RoundTrip, RoundTrip-bind, RoundTrip-last, RoundTrip-read}
use kafka_cpp_server.Protocol.Integers.{
  RoundTrip-byte, RoundTrip-int8, RoundTrip-int16, RoundTrip-int32, RoundTrip-int64,
  RoundTrip-api_key,
}
use kafka_cpp_server.Protocol.Sequences.{
  RoundTrip-uuid, RoundTrip-tagged_fields, RoundTrip-compact_string, RoundTrip-compact_array,
}
use kafka_cpp_server.Message.Headers.{RequestHeader, read_request_header}
use kafka_cpp_server.Message.ApiVersions.{ApiVersionsRequest, read_api_versions_request}
use kafka_cpp_server.Message.DescribeTopicPartitions.{
  TopicRequest, DescribeTopicPartitionsRequest, read_topic_request,
  read_describe_topic_partitions_request,
}
use kafka_cpp_server.Message.Fetch.{
  FetchPartition, FetchTopic, ForgottonTopic, FetchRequest, read_fetch_partition, read_fetch_topic,
  read_forgotton_topic, read_fetch_request,
}
use kafka_cpp_server.Message.Requests.{
  Writer, write_nullable_string, IsRequestHeader, IsApiVersionsRequest, IsTopicRequest,
  IsDescribeTopicPartitionsRequest, IsFetchPartition, IsFetchTopic, IsForgottonTopic,
  IsFetchRequest, write_request_header, write_api_versions_request, write_topic_request,
  write_describe_topic_partitions_request, write_fetch_partition, write_fetch_topic,
  write_forgotton_topic, write_fetch_request,
}

RoundTrip-nullable_string :
    (str : Bytes)
    → length str < 2 ^ 15
    → RoundTrip read_nullable_string (write_nullable_string str) str
unfolding read_nullable_string
RoundTrip-nullable_string str h =
    RoundTrip-bind _ (RoundTrip-int16 (length str) (omega arith))
      (rw (lt→leb (2 ^ 15) (length str) h) (RoundTrip-read str))

-- A test that the reader passes.
RoundTrip-skip :
    {A : Type 0} {reader : Io Bytes A} {writer : Writer} {a : A}
    → RoundTrip reader writer a
    → RoundTrip (pure tt >> reader) writer a
unfolding pure ◌>>=◌
RoundTrip-skip trip = record { wire = trip.wire; writes = trip.writes; reads = trip.reads }

pub RoundTrip-request_header :
    (h : RequestHeader)
    → IsRequestHeader h
    → RoundTrip read_request_header (write_request_header h) h
unfolding read_request_header
RoundTrip-request_header h v =
    RoundTrip-bind _ (RoundTrip-api_key h.request_api_key v.request_api_key_fits)
    $ RoundTrip-bind _ (RoundTrip-int16 h.request_api_version v.request_api_version_fits)
    $ RoundTrip-bind _ (RoundTrip-int32 h.correlation_id v.correlation_id_fits)
    $ RoundTrip-bind _ (RoundTrip-nullable_string h.client_id v.client_id_fits)
    $ RoundTrip-last _ RoundTrip-tagged_fields

pub RoundTrip-api_versions_request :
    (r : ApiVersionsRequest)
    → IsApiVersionsRequest r
    → RoundTrip read_api_versions_request (write_api_versions_request r) r
unfolding read_api_versions_request
RoundTrip-api_versions_request r (h, k) =
    RoundTrip-bind _ (RoundTrip-compact_string r.client_software_name h)
    $ RoundTrip-bind _ (RoundTrip-compact_string r.client_software_version k)
    $ RoundTrip-last _ RoundTrip-tagged_fields

RoundTrip-topic_request :
    (t : TopicRequest) → IsTopicRequest t → RoundTrip read_topic_request (write_topic_request t) t
unfolding read_topic_request
RoundTrip-topic_request t h =
    RoundTrip-bind _ (RoundTrip-compact_string t.name h) $ RoundTrip-last _ RoundTrip-tagged_fields

pub RoundTrip-describe_topic_partitions_request :
    (r : DescribeTopicPartitionsRequest)
    → IsDescribeTopicPartitionsRequest r
    → RoundTrip read_describe_topic_partitions_request (write_describe_topic_partitions_request r) r
unfolding read_describe_topic_partitions_request
RoundTrip-describe_topic_partitions_request r (h, k, l) =
    RoundTrip-bind _ (RoundTrip-compact_array IsTopicRequest RoundTrip-topic_request r.topics h k)
    $ RoundTrip-bind _ (RoundTrip-int32 r.response_partition_limit l)
    $ RoundTrip-bind _ (RoundTrip-byte 0xFF (omega arith))
    $ RoundTrip-skip (RoundTrip-last _ RoundTrip-tagged_fields)

RoundTrip-fetch_partition :
    (p : FetchPartition)
    → IsFetchPartition p
    → RoundTrip read_fetch_partition (write_fetch_partition p) p
unfolding read_fetch_partition
RoundTrip-fetch_partition p v =
    RoundTrip-bind _ (RoundTrip-int32 p.partition v.partition_fits)
    $ RoundTrip-bind _ (RoundTrip-int32 p.current_leader_epoch v.current_leader_epoch_fits)
    $ RoundTrip-bind _ (RoundTrip-int64 p.fetch_offset v.fetch_offset_fits)
    $ RoundTrip-bind _ (RoundTrip-int32 p.last_fetched_epoch v.last_fetched_epoch_fits)
    $ RoundTrip-bind _ (RoundTrip-int64 p.log_start_offset v.log_start_offset_fits)
    $ RoundTrip-bind _ (RoundTrip-int32 p.partition_max_bytes v.partition_max_bytes_fits)
    $ RoundTrip-last _ RoundTrip-tagged_fields

RoundTrip-fetch_topic :
    (t : FetchTopic) → IsFetchTopic t → RoundTrip read_fetch_topic (write_fetch_topic t) t
unfolding read_fetch_topic
RoundTrip-fetch_topic t (h, k, l) =
    RoundTrip-bind _ (RoundTrip-uuid t.topic_id h)
    $ RoundTrip-bind _
        (RoundTrip-compact_array IsFetchPartition RoundTrip-fetch_partition t.partitions k l)
    $ RoundTrip-last _ RoundTrip-tagged_fields

RoundTrip-forgotton_topic :
    (t : ForgottonTopic)
    → IsForgottonTopic t
    → RoundTrip read_forgotton_topic (write_forgotton_topic t) t
unfolding read_forgotton_topic
RoundTrip-forgotton_topic t (h, k, l) =
    RoundTrip-bind _ (RoundTrip-uuid t.topic_id h)
    $ RoundTrip-bind _ (RoundTrip-compact_array (λ n. n < 2 ^ 32) RoundTrip-int32 t.partitions k l)
    $ RoundTrip-last _ RoundTrip-tagged_fields

pub RoundTrip-fetch_request :
    (r : FetchRequest) → IsFetchRequest r → RoundTrip read_fetch_request (write_fetch_request r) r
unfolding read_fetch_request
RoundTrip-fetch_request r v =
    RoundTrip-bind _ (RoundTrip-int32 r.max_wait_ms v.max_wait_ms_fits)
    $ RoundTrip-bind _ (RoundTrip-int32 r.min_bytes v.min_bytes_fits)
    $ RoundTrip-bind _ (RoundTrip-int32 r.max_bytes v.max_bytes_fits)
    $ RoundTrip-bind _ (RoundTrip-int8 r.isolation_level v.isolation_level_fits)
    $ RoundTrip-bind _ (RoundTrip-int32 r.session_id v.session_id_fits)
    $ RoundTrip-bind _ (RoundTrip-int32 r.session_epoch v.session_epoch_fits)
    $ RoundTrip-bind _ (
        RoundTrip-compact_array IsFetchTopic RoundTrip-fetch_topic r.topics v.topics_fit
          v.topics_valid)
    $ RoundTrip-bind _ (
        RoundTrip-compact_array IsForgottonTopic RoundTrip-forgotton_topic r.forgotten_topics_data
          v.forgotten_fit v.forgotten_valid)
    $ RoundTrip-bind _ (RoundTrip-compact_string r.rack_id v.rack_id_fits)
    $ RoundTrip-last _ RoundTrip-tagged_fields
