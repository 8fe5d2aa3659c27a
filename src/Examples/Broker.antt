-- ===== src/Examples/Broker.antt =====
-- A broker with one topic of two partitions, and the theorems on the handlers and the client loop at
-- it.
use kafka_cpp_server.Prelude.{
  ℕ, ◌≡◌, refl, [], ◌∷◌, ◌++◌, none, some, ◌⊎◌, inl, inr, false, All, arith,
}
use kafka_cpp_server.Protocol.Types.{Bytes, Int16, nil_uuid, bytes_lt}
use kafka_cpp_server.Protocol.Constants
use kafka_cpp_server.Protocol.Constants.{no_error, unsupported_version}
use kafka_cpp_server.Protocol.Outcome.{ok, throw, undefined, runtime_error, ◌>>=◌, pure}
use kafka_cpp_server.Protocol.Stream.{bytes_readable, bytes_writable}
use kafka_cpp_server.Protocol.Buffers.{
  ReadableBuffer, read_buffer, new_readable_buffer, buffer_readable, new_writable_buffer,
  buffer_writable,
}
use kafka_cpp_server.Protocol.Reading.{
  read_bytes, read_int32, read_uint32, read_int16, read_byte, read_api_key, read_nullable_string,
  read_tagged_fields, read_compact_string, read_unsigned_varint, read_unsigned_varlong,
  read_unsigned_varlong_loop,
}
use kafka_cpp_server.Protocol.ByteOrder.{to_host_byte_order, load, byteswap, le_bytes, le_value}
use kafka_cpp_server.Protocol.Streams.{InBounds, unread, buffer-IsStream}
use kafka_cpp_server.Metadata.Log.{read_opened, read_record_batches}
use kafka_cpp_server.Metadata.LogReading.{log_read_back}
use kafka_cpp_server.Metadata.Cluster.{ClusterMetadata}
use kafka_cpp_server.Metadata.Maps.{equivalent, find}
use kafka_cpp_server.Message.Headers.{RequestHeader, read_request_header}
use kafka_cpp_server.Message.Fetch.{FetchPartition, FetchRequest, FetchResponse}
use kafka_cpp_server.Message.DescribeTopicPartitions.{
  DescribeTopicPartitionsRequest, DescribeTopicPartitionsResponse,
}
use kafka_cpp_server.Message.ApiVersions.{read_api_versions_request}
use kafka_cpp_server.Message.Messages.{
  RequestMessage, AbstractResponse, fetch_request, api_versions_request,
  describe_topic_partitions_request, as_fetch_request, as_describe_topic_partitions_request,
  api_versions_response, read_request, run_on, read_message_body, read_request_message,
  write_response, write_response_message,
}
use kafka_cpp_server.Message.Framing.{
  header_bytes, payload_bytes, sized, write_response_message-sized,
}
use kafka_cpp_server.Server.Handlers.{
  Storage, Environment, handle_fetch, handle_api_versions, handle_describe_topic_partitions,
}
use kafka_cpp_server.Server.Serve.{on_client, serve_request, handle}
use kafka_cpp_server.Server.Versions.{
  Advertises, not_advertised_undefined, advertised_version_refused,
}
use kafka_cpp_server.Server.Describing.{
  AnswersAll, AnyPartitionless, handle_describe_topic_partitions_lem,
}
use kafka_cpp_server.Server.Fetching.{FetchAnswersAll, TopicSettled, handle_fetch_lem}
use kafka_cpp_server.Server.Answers.{answer_to, message_bytes, write_sized, serve_request_lem}
use kafka_cpp_server.Protocol.FileDescriptor.{FileDescriptor, fd_readable, fd_writable}
use kafka_cpp_server.Message.Delivery.{parse_request_message}
use kafka_cpp_server.Server.Rounds.{serve_request-sent}
use kafka_cpp_server.Examples.Kernels.{
  api_versions_bytes, Wire, wire_kernel, wire-IsReliable, wire-Sends,
}
use kafka_cpp_server.Examples.Logs.{
  one_batch, one_batch-valid, cut_log, nothing_more, topic_name, topic_id,
}

abbrev pub cluster : ClusterMetadata
cluster = record {
  topic_ids = (topic_name, topic_id) ∷ [];
  topic_names = (topic_id, topic_name) ∷ [];
  partition_ids = (topic_id, 0 ∷ 1 ∷ []) ∷ [];
}

abbrev pub environment : Environment ReadableBuffer
environment = record {
  files = record { open_file = λ path. some (new_readable_buffer cut_log) };
  fuel = 2;
}

abbrev pub storage : Storage
storage = record {
  fetched = λ i j. record {
    high_watermark = i;
    last_stable_offset = j;
    log_start_offset = 3;
    preferred_read_replica = 4;
  };
  described = λ i. record {
    is_internal = false;
    topic_authorized_operations = i;
    replicas = λ j. record { leader_id = j; leader_epoch = 7 };
  };
}

abbrev pub header : ℕ → ℕ → RequestHeader
header key version = record {
  request_api_key = key;
  request_api_version = version;
  correlation_id = 7;
  client_id = [];
}

abbrev describe_request : DescribeTopicPartitionsRequest
describe_request = record {
  topics = record { name = topic_name } ∷ record { name = 120 ∷ [] } ∷ [];
  response_partition_limit = 100;
}

abbrev describe_message : RequestMessage
describe_message = record {
  header = header Constants.describe_topic_partitions 0;
  request = describe_topic_partitions_request describe_request;
}

describe_message_request :
    as_describe_topic_partitions_request describe_message.request ≡ some describe_request
unfolding as_describe_topic_partitions_request
describe_message_request = refl

handle_describe_topic_partitions_example :
    ((response : DescribeTopicPartitionsResponse) × (handle_describe_topic_partitions environment
          storage describe_message
          (some cluster)
        ≡ ok (response, some cluster))
      × (response.throttle_time_ms ≡ 0)
      × AnswersAll environment cluster describe_request.topics response.topics)
    ⊎ ((handle_describe_topic_partitions environment storage describe_message (some cluster)
          ≡ throw (runtime_error "unknown topic id"))
        × AnyPartitionless environment cluster describe_request.topics)
handle_describe_topic_partitions_example =
    handle_describe_topic_partitions_lem environment cluster storage describe_message
      describe_request describe_message_request

abbrev fetch_partition : FetchPartition
fetch_partition = record {
  partition = 1;
  current_leader_epoch = 0;
  fetch_offset = 0;
  last_fetched_epoch = 0;
  log_start_offset = 0;
  partition_max_bytes = 1048576;
}

abbrev request : FetchRequest
request = record {
  max_wait_ms = 500;
  min_bytes = 1;
  max_bytes = 52428800;
  isolation_level = 0;
  session_id = 0;
  session_epoch = 0;
  topics =
      record { topic_id = topic_id; partitions = fetch_partition ∷ [] }
      ∷ record { topic_id = nil_uuid; partitions = fetch_partition ∷ [] }
      ∷ [];
  forgotten_topics_data = [];
  rack_id = [];
}

abbrev pub fetch_message : RequestMessage
fetch_message = record { header = header Constants.fetch 16; request = fetch_request request }

fetch_message_request : as_fetch_request fetch_message.request ≡ some request
unfolding as_fetch_request
fetch_message_request = refl

log_is_read :
    (name : Bytes) → read_record_batches environment.files environment.fuel name 1 ≡ ok one_batch
unfolding read_record_batches read_opened
log_is_read name =
    (log_read_back one_batch one_batch-valid [] InBounds unread (new_readable_buffer cut_log)
      (0 ∷ 0 ∷ []) 2 buffer-IsStream (omega arith) refl nothing_more (omega arith)).1

all_settled : All (TopicSettled environment cluster) request.topics
unfolding find equivalent bytes_lt
all_settled = ((inl (one_batch, log_is_read topic_name), tt), (tt, tt))

handle_fetch_example :
    (response : FetchResponse) × (handle_fetch environment storage fetch_message (some cluster)
      ≡ ok (response, some cluster))
    × (response.error_code ≡ no_error)
    × FetchAnswersAll environment cluster request.topics response.responses
handle_fetch_example =
    handle_fetch_lem environment storage cluster fetch_message request fetch_message_request
      all_settled

abbrev pub versions_message : RequestMessage
versions_message = record {
  header = header Constants.api_versions 4;
  request =
      api_versions_request (record { client_software_name = []; client_software_version = [] });
}

abbrev pub versions_response : AbstractResponse
versions_response = api_versions_response (handle_api_versions versions_message)

versions_read : read_request_message api_versions_bytes ≡ ok (versions_message, [])
unfolding read_request_message ◌>>=◌ pure run_on read_bytes read_int32 read_uint32 read_int16
    read_byte read_api_key read_nullable_string read_tagged_fields read_compact_string
    read_unsigned_varint read_unsigned_varlong read_unsigned_varlong_loop to_host_byte_order load
    byteswap le_bytes le_value read_buffer read_message_body read_request_header read_request
    read_api_versions_request
versions_read = refl

pub versions_handled :
    handle environment storage versions_message none ≡ ok (versions_response, none)
unfolding handle pure
versions_handled = refl

serve_request_example :
    (write_response versions_response new_writable_buffer
      ≡ ok (tt, record { bytes = payload_bytes versions_response }))
    × (serve_request environment storage
          (record { client = api_versions_bytes; instance_made = none })
        ≡ on_client
            (write_sized (message_bytes (answer_to versions_message versions_response)))
            (record { client = []; instance_made = none }))
serve_request_example =
    serve_request_lem environment storage api_versions_bytes [] none none versions_message
      versions_response versions_read versions_handled

abbrev pub old_version : RequestMessage
old_version = record versions_message { header = header Constants.api_versions 3 }

advertised_version_refused_example :
    Advertises (handle_api_versions versions_message).api_keys Constants.api_versions 3
    × ((handle_api_versions old_version).error_code ≡ unsupported_version)
advertised_version_refused_example =
    advertised_version_refused versions_message old_version refl (omega arith)

-- Metadata, API key 3, is not advertised.
metadata_not_advertised :
    (version : Int16) → ¬ Advertises (handle_api_versions versions_message).api_keys 3 version
unfolding handle_api_versions
metadata_not_advertised version (inl (e, _, _)) = absurd (omega arith)
metadata_not_advertised version (inr (inl (e, _, _))) = absurd (omega arith)
metadata_not_advertised version (inr (inr (inl (e, _, _)))) = absurd (omega arith)
metadata_not_advertised version (inr (inr (inr h))) = absurd h

not_advertised_undefined_example : read_request {S = Bytes} 3 [] ≡ undefined
not_advertised_undefined_example =
    not_advertised_undefined versions_message 3 refl metadata_not_advertised []

write_response_message-sized_example :
    (payload : Bytes) × (write_response versions_response new_writable_buffer
      ≡ ok (tt, record { bytes = payload }))
    × (write_response_message (answer_to versions_message versions_response) []
        ≡ ok (tt, sized (header_bytes (answer_to versions_message versions_response) ++ payload)))
write_response_message-sized_example =
    write_response_message-sized (answer_to versions_message versions_response) []

abbrev pub wire : Wire
wire = record { to_come = api_versions_bytes; sent = 9 ∷ [] }

versions_parsed : parse_request_message api_versions_bytes ≡ ok (versions_message, [])
unfolding parse_request_message ◌>>=◌ pure run_on read_bytes read_int32 read_uint32 read_int16
    read_byte read_api_key read_nullable_string read_tagged_fields read_compact_string
    read_unsigned_varint read_unsigned_varlong read_unsigned_varlong_loop to_host_byte_order load
    byteswap le_bytes le_value read_message_body read_request_header read_request
    read_api_versions_request
versions_parsed = refl

serve_request-sent_example :
    (s : FileDescriptor Wire) × (serve_request environment storage
        (record { client = record { fd = wire }; instance_made = none })
      ≡ ok (tt, record { client = s; instance_made = none }))
    × (s.fd.sent ≡ 9 ∷ sized (message_bytes (answer_to versions_message versions_response)))
serve_request-sent_example =
    serve_request-sent (λ (k : Wire). k.to_come) (λ (k : Wire). k.sent) wire-IsReliable wire-Sends
      (λ n k. refl) environment storage wire none none versions_message [] versions_response
      versions_parsed versions_handled
