-- ===== src/Message/RequestEnds.antt =====
-- The reading of a request message comes to an end, whatever bytes the client sends.
use kafka_cpp_server.Prelude.{ℕ, ◌≢◌, arith}
use kafka_cpp_server.Protocol.Types.{Bytes}
use kafka_cpp_server.Protocol.Outcome.{Outcome, ok, throw, undefined, unfinished}
use kafka_cpp_server.Protocol.Stream.{Readable, bytes_readable}
use kafka_cpp_server.Protocol.Simulation.{IsStream}
use kafka_cpp_server.Protocol.Progress.{Consumes, Ends, end_rules, Ends-bind, Refines-end}
use kafka_cpp_server.Protocol.ReaderEnds.{
  Ends-byte, Ends-int8, Ends-int16, Ends-int32, Ends-int64_any, Ends-uuid, Ends-compact_string,
  Ends-nullable_string, Ends-tagged_fields, Ends-api_key, Ends-bytes, Ends-compact_array,
}
use kafka_cpp_server.Message.Headers.{read_request_header}
use kafka_cpp_server.Message.ApiVersions.{read_api_versions_request}
use kafka_cpp_server.Message.DescribeTopicPartitions.{
  read_topic_request, read_describe_topic_partitions_request,
}
use kafka_cpp_server.Message.Fetch.{
  read_fetch_partition, read_fetch_topic, read_forgotton_topic, read_fetch_request,
}
use kafka_cpp_server.Message.Messages.{
  RequestMessage, keep, run_on, read_request, read_message_body, read_request_message,
}
use kafka_cpp_server.Message.Delivery.{parse_request_message, Simulates-request_message}

ruleset field_rules = (
  end_rules, Ends-byte, Ends-int8, Ends-int16, Ends-int32, Ends-int64_any, Ends-uuid,
  Ends-compact_string, Ends-nullable_string, Ends-tagged_fields, Ends-api_key, Ends-compact_array,
)

Ends-request_header : Ends 0 read_request_header
unfolding read_request_header
Ends-request_header = search field_rules depth 30

Ends-api_versions_request : Ends 0 read_api_versions_request
unfolding read_api_versions_request
Ends-api_versions_request = search field_rules depth 30

Ends-topic_request : Ends 0 read_topic_request
unfolding read_topic_request
Ends-topic_request = search field_rules depth 30

Ends-describe_topic_partitions_request : Ends 0 read_describe_topic_partitions_request
unfolding read_describe_topic_partitions_request
Ends-describe_topic_partitions_request = search (field_rules, Ends-topic_request) depth 30

Ends-fetch_partition : Ends 0 read_fetch_partition
unfolding read_fetch_partition
Ends-fetch_partition = search field_rules depth 30

Ends-fetch_topic : Ends 0 read_fetch_topic
unfolding read_fetch_topic
Ends-fetch_topic = search (field_rules, Ends-fetch_partition) depth 30

Ends-forgotton_topic : Ends 0 read_forgotton_topic
unfolding read_forgotton_topic
Ends-forgotton_topic = search field_rules depth 30

Ends-fetch_request : Ends 0 read_fetch_request
unfolding read_fetch_request
Ends-fetch_request = search (field_rules, Ends-fetch_topic, Ends-forgotton_topic) depth 40

Ends-request : (api_key : ℕ) → Ends 0 (read_request api_key)
unfolding read_request
Ends-request api_key =
    search
      (
        end_rules, Ends-fetch_request, Ends-api_versions_request,
        Ends-describe_topic_partitions_request,
      )
      depth 30

Ends-message_body : Ends 0 read_message_body
unfolding read_message_body
Ends-message_body = search (end_rules, Ends-request_header, Ends-request) depth 30

Ends-run_on : (bytes : Bytes) → Ends 0 (run_on read_message_body bytes)
unfolding run_on
Ends-run_on bytes = record {
  at = λ s. kept s (read_message_body bytes) (Ends-message_body.at bytes);
}
  where
    kept :
        (s : Bytes) (o : Outcome (RequestMessage × Bytes))
        → Consumes 0 bytes o
        → Consumes 0 s (keep s o)
    kept s (ok (m, t)) c = omega arith
    kept s (throw e) c = tt
    kept s undefined c = tt
    kept s unfinished c = c

Ends-request_message : Ends 0 parse_request_message
unfolding parse_request_message
Ends-request_message = Ends-bind _ _ Ends-bytes Ends-run_on

-- A request message is read to the end, or the reading of it throws or is undefined.
pub read_request_message-ends :
    {S : Type 0} ⦃r : Readable S⦄ (valid : S → Type 0) (view : S → Bytes) (s : S)
    → IsStream valid view
    → valid s
    → read_request_message s ≢ unfinished
read_request_message-ends valid view s stream v =
    Refines-end valid view 0 (view s) _ _ ((Simulates-request_message valid view stream).at s v)
      (Ends-request_message.at (view s))
