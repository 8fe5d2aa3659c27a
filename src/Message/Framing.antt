-- ===== src/Message/Framing.antt =====
-- What `ResponseMessage::write` puts on a stream: the size, the correlation id, the tagged fields
-- of the header if the version has them, and the response.
use kafka_cpp_server.Prelude.{
  ℕ, ◌%◌, ◌^◌, ◌≡◌, refl, [], ◌∷◌, ◌++◌, append_assoc, append-nil, Bool, true, false, length, ◌==◌,
  if◌then◌else◌,
}
use kafka_cpp_server.Protocol.Types.{Bytes}
use kafka_cpp_server.Protocol.Constants
use kafka_cpp_server.Protocol.Outcome.{Io, ok, ◌>>=◌, pure}
use kafka_cpp_server.Protocol.Stream.{bytes_writable}
use kafka_cpp_server.Protocol.Buffers.{
  WritableBuffer, new_writable_buffer, write_buffer, buffer_writable,
}
use kafka_cpp_server.Protocol.ByteOrder.{native_endian, store}
use kafka_cpp_server.Protocol.Writing.{write_int32, write_byte, write_tagged_fields, write_bytes}
use kafka_cpp_server.Protocol.Integers.{big_endian, store-to_network}
use kafka_cpp_server.Message.Headers.{ResponseHeader, write_response_header}
use kafka_cpp_server.Message.Appends.{Appends-response}
use kafka_cpp_server.Message.Messages.{
  AbstractResponse, ResponseMessage, response_api_key, write_response, write_message_body,
  buffer_after, write_response_message,
}

-- The header of a response: version 0 for ApiVersions, else version 1 with no tagged fields.
abbrev pub header_bytes : ResponseMessage → Bytes
header_bytes message =
    big_endian 4 message.header.correlation_id
    ++ (if response_api_key message.response == Constants.api_versions then [] else 0 ∷ [])

abbrev pub sized : Bytes → Bytes
sized body = big_endian 4 (length body % 2 ^ 32) ++ body

write_int32-buffer :
    (n : ℕ) (wb : WritableBuffer)
    → write_int32 n wb ≡ ok (tt, record { bytes = wb.bytes ++ big_endian 4 n })
unfolding write_int32 write_buffer
write_int32-buffer n wb = rw (store-to_network native_endian 4 n)

write_tagged_fields-buffer :
    (wb : WritableBuffer) → write_tagged_fields wb ≡ ok (tt, record { bytes = wb.bytes ++ 0 ∷ [] })
unfolding write_tagged_fields write_byte store write_buffer
write_tagged_fields-buffer wb = refl

pub write_bytes-bytes : (bytes s : Bytes) → write_bytes bytes s ≡ ok (tt, s ++ sized bytes)
unfolding write_bytes write_int32 ◌>>=◌
write_bytes-bytes bytes s =
    rw (store-to_network native_endian 4 (length bytes % 2 ^ 32), append_assoc)

write_response_header-buffer :
    (header : ResponseHeader) (b : Bool) (wb : WritableBuffer)
    → write_response_header header (if b then 0 else 1) wb
      ≡ ok (
        tt,
        record {
          bytes = wb.bytes ++ (big_endian 4 header.correlation_id ++ (if b then [] else 0 ∷ []));
        },
      )
unfolding write_response_header ◌>>=◌ pure
write_response_header-buffer header true wb = rw (write_int32-buffer, append-nil)
write_response_header-buffer header false wb =
    rw (write_int32-buffer, write_tagged_fields-buffer, append_assoc)

-- What the response alone puts to an empty buffer.
abbrev pub payload_bytes : AbstractResponse → Bytes
payload_bytes response = (Appends-response response).wire

pub write_message_body-buffer :
    (message : ResponseMessage)
    → write_message_body message new_writable_buffer
      ≡ ok (tt, record { bytes = header_bytes message ++ payload_bytes message.response })
unfolding write_message_body ◌>>=◌
write_message_body-buffer message =
    rw (write_response_header-buffer, (Appends-response message.response).writes)

buffer_after-ok :
    (m : Io WritableBuffer (Unit {0})) (b s : Bytes)
    → m new_writable_buffer ≡ ok (tt, record { bytes = b })
    → buffer_after m s ≡ ok (b, s)
unfolding buffer_after
buffer_after-ok m b s h = rw (h, buffer_after)

pub write_response_message-bytes :
    (message : ResponseMessage) (s : Bytes)
    → write_response_message message s
      ≡ ok (tt, s ++ sized (header_bytes message ++ payload_bytes message.response))
unfolding write_response_message ◌>>=◌
write_response_message-bytes message s = rw (
  buffer_after-ok (write_message_body message) _ s (write_message_body-buffer message),
  write_bytes-bytes,
)

-- Every response message is written without an exception, behind what the stream holds: four bytes
-- with the number of the bytes that follow (modulo 2 ^ 32), four bytes with the correlation id, a
-- zero byte unless it is an ApiVersions response, and what `write` of the response makes.
pub write_response_message-sized :
    (message : ResponseMessage) (s : Bytes)
    → (payload : Bytes) × (write_response message.response new_writable_buffer
        ≡ ok (tt, record { bytes = payload }))
      × (write_response_message message s ≡ ok (tt, s ++ sized (header_bytes message ++ payload)))
write_response_message-sized message s = (
  payload_bytes message.response,
  (Appends-response message.response).writes new_writable_buffer,
  write_response_message-bytes message s,
)
