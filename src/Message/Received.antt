-- ===== src/Message/Received.antt =====
-- Whole response messages as a client reads them.
use kafka_cpp_server.Prelude.{
  ◌^◌, ◌<◌, ◌≡◌, ap, sym, ◌∙◌, [], ◌++◌, append-nil, Bool, true, false, length, ◌==◌, if◌then◌else◌,
  ◌$◌,
}
use kafka_cpp_server.Protocol.Types.{Bytes}
use kafka_cpp_server.Protocol.Constants
use kafka_cpp_server.Protocol.Outcome.{Outcome, ok, ◌>>=◌}
use kafka_cpp_server.Protocol.Stream.{bytes_readable, bytes_writable}
use kafka_cpp_server.Protocol.RoundTrip.{
  RoundTrip, wire_is, RoundTrip-bind, RoundTrip-last, RoundTrip-pure,
}
use kafka_cpp_server.Protocol.Integers.{RoundTrip-int32}
use kafka_cpp_server.Protocol.Sequences.{RoundTrip-bytes, RoundTrip-tagged_fields}
use kafka_cpp_server.Message.Appends.{Appends-response}
use kafka_cpp_server.Protocol.Appends.{
  Appends, Appends-bind, Appends-if, Appends-pure, Appends-int32, Appends-tagged_fields,
}
use kafka_cpp_server.Protocol.Buffers.{WritableBuffer, new_writable_buffer, buffer_writable}
use kafka_cpp_server.Message.Headers.{ResponseHeader, write_response_header}
use kafka_cpp_server.Message.Messages.{
  AbstractResponse, fetch_response, api_versions_response, describe_topic_partitions_response,
  ResponseMessage, response_api_key, write_response, write_message_body, write_response_message,
  run_on,
}
use kafka_cpp_server.Message.Framing.{
  write_message_body-buffer, write_response_message-bytes, header_bytes, payload_bytes, sized,
  write_bytes-bytes,
}
use kafka_cpp_server.Message.ResponseValues.{IsResponse}
use kafka_cpp_server.Message.ResponsesRoundTrip.{
  RoundTrip-fetch_response, RoundTrip-api_versions_response,
  RoundTrip-describe_topic_partitions_response,
}
use kafka_cpp_server.Message.Responses.{
  read_response_header, read_response, read_response_body, read_response_message,
}

RoundTrip-response :
    (r : AbstractResponse)
    → IsResponse r
    → RoundTrip (read_response (response_api_key r)) (write_response r) r
unfolding response_api_key write_response
RoundTrip-response (fetch_response r) h =
    RoundTrip-last fetch_response (RoundTrip-fetch_response r h)
RoundTrip-response (api_versions_response r) h =
    RoundTrip-last api_versions_response (RoundTrip-api_versions_response r h)
RoundTrip-response (describe_topic_partitions_response r) h =
    RoundTrip-last describe_topic_partitions_response
      (RoundTrip-describe_topic_partitions_response r h)

-- A response message whose fields are in their ranges, and whose bytes the size prefix can count.
pub record IsResponseMessage (message : ResponseMessage) : Type 0 where
  pub correlation_id_fits : message.header.correlation_id < 2 ^ 32
  pub response_valid : IsResponse message.response
  pub size_fits : length (header_bytes message ++ payload_bytes message.response) < 2 ^ 31

RoundTrip-response_header :
    (header : ResponseHeader) (b : Bool)
    → header.correlation_id < 2 ^ 32
    → RoundTrip (read_response_header b) (write_response_header header (if b then 0 else 1)) header
unfolding write_response_header
RoundTrip-response_header header true h =
    RoundTrip-bind _ (RoundTrip-int32 header.correlation_id h)
    $ RoundTrip-last _ (RoundTrip-pure tt)
RoundTrip-response_header header false h =
    RoundTrip-bind _ (RoundTrip-int32 header.correlation_id h)
    $ RoundTrip-last _ RoundTrip-tagged_fields

RoundTrip-message_body :
    (m : ResponseMessage)
    → IsResponseMessage m
    → RoundTrip (read_response_body (response_api_key m.response)) (write_message_body m) m
unfolding write_message_body
RoundTrip-message_body m v =
    RoundTrip-bind _ (
      RoundTrip-response_header m.header (response_api_key m.response == Constants.api_versions)
        v.correlation_id_fits)
    $ RoundTrip-last _ (RoundTrip-response m.response v.response_valid)

Appends-message_body : (m : ResponseMessage) → Appends (write_message_body m) (write_message_body m)
unfolding write_message_body write_response_header
Appends-message_body m =
    Appends-bind _ _ _ _
      (Appends-bind _ _ _ _ (Appends-int32 m.header.correlation_id) (
        Appends-if ((if response_api_key m.response == Constants.api_versions then 0 else 1) == 0) _
          _ _ _ Appends-pure Appends-tagged_fields))
      (Appends-response m.response)

-- The buffer that the program writes holds the bytes that the reader of a body takes.
body_wire :
    (m : ResponseMessage) (v : IsResponseMessage m)
    → header_bytes m ++ payload_bytes m.response ≡ (RoundTrip-message_body m v).wire
body_wire m v =
    let appended = Appends-message_body m in
    in_buffer (sym (write_message_body-buffer m) ∙ appended.writes new_writable_buffer)
    ∙ wire_is (RoundTrip-message_body m v) (appended.writes_bytes [])
  where
    in_buffer :
        {u w : Bytes}
        → ◌≡◌ {A = Outcome (Unit {0} × WritableBuffer)}
            (ok (tt, record { bytes = u }))
            (ok (tt, record { bytes = w }))
        → u ≡ w
    in_buffer h = cc

body_read :
    (m : ResponseMessage)
    → IsResponseMessage m
    → read_response_body (response_api_key m.response) (header_bytes m ++ payload_bytes m.response)
      ≡ ok (m, [])
body_read m v =
    let trip = RoundTrip-message_body m v in
    ap (read_response_body (response_api_key m.response))
      (body_wire m v ∙ sym (append-nil trip.wire))
    ∙ trip.reads []

-- What `ResponseMessage::write` puts on a stream for a message whose fields are in their ranges, and
-- whose bytes the size can count, is read back as this message by a client that knows the API key
-- of its request, and what follows it is left unread.
pub RoundTrip-response_message :
    (m : ResponseMessage)
    → IsResponseMessage m
    → RoundTrip (read_response_message (response_api_key m.response)) (write_response_message m) m
unfolding run_on ◌>>=◌
RoundTrip-response_message m v =
    let bytes = header_bytes m ++ payload_bytes m.response in
    let trip = RoundTrip-bytes bytes v.size_fits in
    record {
      wire = trip.wire;
      writes = λ s.
          write_response_message-bytes m s
          ∙ ap (λ l. ok (tt, s ++ l)) (wire_is trip (write_bytes-bytes bytes []));
      reads = λ rest. rw (trip.reads rest, body_read m v);
    }

-- The same of the bytes that such a message is sent as.
pub response_message_read :
    (m : ResponseMessage) (rest : Bytes)
    → IsResponseMessage m
    → read_response_message
        (response_api_key m.response)
        (sized (header_bytes m ++ payload_bytes m.response) ++ rest)
      ≡ ok (m, rest)
response_message_read m rest v =
    let trip = RoundTrip-response_message m v in
    ap (λ (l : Bytes). read_response_message (response_api_key m.response) (l ++ rest))
      (wire_is trip (write_response_message-bytes m []))
    ∙ trip.reads rest
