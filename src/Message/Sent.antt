-- ===== src/Message/Sent.antt =====
-- Whole request messages as a client sends them, and their reading.
use kafka_cpp_server.Prelude.{◌^◌, ◌<◌, ◌≡◌, ap, sym, ◌∙◌, [], append-nil, length, ◌$◌}
use kafka_cpp_server.Protocol.Types.{Bytes}
use kafka_cpp_server.Protocol.Constants
use kafka_cpp_server.Protocol.Constants.{ApiKey}
use kafka_cpp_server.Protocol.Outcome.{ok, ◌>>=◌, ◌>>◌}
use kafka_cpp_server.Protocol.Stream.{bytes_readable, bytes_writable}
use kafka_cpp_server.Protocol.Writing.{write_bytes}
use kafka_cpp_server.Protocol.RoundTrip.{RoundTrip, wire_is, RoundTrip-bind, RoundTrip-last}
use kafka_cpp_server.Protocol.Sequences.{RoundTrip-bytes}
use kafka_cpp_server.Message.Requests.{
  Writer, IsRequestHeader, IsApiVersionsRequest, IsDescribeTopicPartitionsRequest, IsFetchRequest,
  write_request_header, write_api_versions_request, write_describe_topic_partitions_request,
  write_fetch_request,
}
use kafka_cpp_server.Message.RequestsRoundTrip.{
  RoundTrip-request_header, RoundTrip-api_versions_request,
  RoundTrip-describe_topic_partitions_request, RoundTrip-fetch_request,
}
use kafka_cpp_server.Message.Messages.{
  AbstractRequest, fetch_request, api_versions_request, describe_topic_partitions_request,
  RequestMessage, run_on, read_request, read_message_body,
}
use kafka_cpp_server.Message.Delivery.{parse_request_message}

-- The request is one of the API key.
abbrev pub IsRequest : ApiKey → AbstractRequest → Type 0
IsRequest key (fetch_request r) = (key ≡ Constants.fetch) × IsFetchRequest r
IsRequest key (api_versions_request r) = (key ≡ Constants.api_versions) × IsApiVersionsRequest r
IsRequest key (describe_topic_partitions_request r) =
    (key ≡ Constants.describe_topic_partitions) × IsDescribeTopicPartitionsRequest r

abbrev pub write_request : AbstractRequest → Writer
write_request (fetch_request r) = write_fetch_request r
write_request (api_versions_request r) = write_api_versions_request r
write_request (describe_topic_partitions_request r) = write_describe_topic_partitions_request r

abbrev pub write_request_body : RequestMessage → Writer
write_request_body m = do write_request_header m.header; write_request m.request

-- A message that a client can mean, with the bytes of its body, which its size can count.
pub record IsSent (m : RequestMessage) (body : Bytes) : Type 0 where
  pub header_valid : IsRequestHeader m.header
  pub request_valid : IsRequest m.header.request_api_key m.request
  pub written : write_request_body m [] ≡ ok (tt, body)
  pub body_fits : length body < 2 ^ 31

RoundTrip-request :
    (key : ApiKey) (r : AbstractRequest)
    → IsRequest key r
    → RoundTrip (read_request key) (write_request r) r
unfolding read_request
RoundTrip-request key (fetch_request r) (e, h) =
    rw e (RoundTrip-last fetch_request (RoundTrip-fetch_request r h))
RoundTrip-request key (api_versions_request r) (e, h) =
    rw e (RoundTrip-last api_versions_request (RoundTrip-api_versions_request r h))
RoundTrip-request key (describe_topic_partitions_request r) (e, h) = rw e (
    RoundTrip-last describe_topic_partitions_request
      (RoundTrip-describe_topic_partitions_request r h))

RoundTrip-message_body :
    (m : RequestMessage)
    → IsRequestHeader m.header
    → IsRequest m.header.request_api_key m.request
    → RoundTrip read_message_body (write_request_body m) m
unfolding read_message_body
RoundTrip-message_body m h k =
    RoundTrip-bind _ (RoundTrip-request_header m.header h)
    $ RoundTrip-last _ (RoundTrip-request m.header.request_api_key m.request k)

body_read :
    (m : RequestMessage) (body : Bytes) → IsSent m body → read_message_body body ≡ ok (m, [])
body_read m body v =
    let trip = RoundTrip-message_body m v.header_valid v.request_valid in
    ap read_message_body (wire_is trip v.written ∙ sym (append-nil trip.wire)) ∙ trip.reads []

-- A message that a client can mean, written as its body's size and its body, is read by
-- `parse_request_message` as that message, and what follows it is left unread.
pub RoundTrip-request_message :
    (m : RequestMessage) (body : Bytes)
    → IsSent m body
    → RoundTrip parse_request_message (write_bytes body) m
unfolding parse_request_message run_on ◌>>=◌
RoundTrip-request_message m body v =
    let trip = RoundTrip-bytes body v.body_fits in
    record {
      wire = trip.wire;
      writes = trip.writes;
      reads = λ rest. rw (trip.reads rest, body_read m body v);
    }
