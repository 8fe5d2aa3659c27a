-- ===== src/Examples/Sessions.antt =====
-- The theorems on conversations at concrete inputs.
use kafka_cpp_server.Prelude.{◌≡◌, refl, sym, ◌∙◌, [], ◌∷◌, ◌++◌, none, inl, arith}
use kafka_cpp_server.Protocol.Types.{Bytes}
use kafka_cpp_server.Message.Messages.{write_response_message, response_api_key, write_response}
use kafka_cpp_server.Message.Received.{IsResponseMessage, RoundTrip-response_message}
use kafka_cpp_server.Message.Responses.{read_response_message}
use kafka_cpp_server.Protocol.Constants
use kafka_cpp_server.Server.Answers.{answer_to}
use kafka_cpp_server.Server.Handlers.{handle_api_versions}
use kafka_cpp_server.Server.Ranges.{handle_api_versions-IsApiVersionsResponse}
use kafka_cpp_server.Message.Framing.{payload_bytes}
use kafka_cpp_server.Message.Appends.{Appends-response}
use kafka_cpp_server.Message.ApiVersions.{write_api_version, write_api_versions_response}
use kafka_cpp_server.Protocol.Outcome.{Exception, Outcome, ok, throw, ◌>>=◌, pure}
use kafka_cpp_server.Protocol.Stream.{bytes_readable, bytes_writable}
use kafka_cpp_server.Protocol.Buffers.{buffer_readable}
use kafka_cpp_server.Protocol.Writing.{
  write_bytes, write_error_code, write_objects, write_compact_array, write_byte, write_api_key,
  write_int16, write_int32, write_uint32, write_compact_nullable_string, write_unsigned_varint,
  write_unsigned_varlong, write_unsigned_varlong_loop, write_tagged_fields,
}
use kafka_cpp_server.Protocol.ByteOrder.{store, to_network_byte_order, byteswap, le_bytes, le_value}
use kafka_cpp_server.Protocol.RoundTrip.{RoundTrip}
use kafka_cpp_server.Protocol.Integers.{big_endian}
use kafka_cpp_server.Protocol.FileDescriptor.{FileDescriptor, fd_readable, fd_writable}
use kafka_cpp_server.Message.Sent.{IsSent, RoundTrip-request_message}
use kafka_cpp_server.Message.Delivery.{parse_request_message}
use kafka_cpp_server.Server.Serve.{serve_request, serve_client}
use kafka_cpp_server.Server.HangUp.{Returned, serve_client-hangs_up}
use kafka_cpp_server.Server.Conversation.{IsConnection, all_sized, answers}
use kafka_cpp_server.Examples.Kernels.{
  api_versions_bytes, Wire, wire_kernel, wire-IsReliable, wire-Sends,
}
use kafka_cpp_server.Examples.Broker.{
  environment, storage, versions_message, versions_response, versions_handled,
}

-- `api_versions_bytes` without the size.
abbrev pub versions_body : Bytes
versions_body = 0 ∷ 18 ∷ 0 ∷ 4 ∷ 0 ∷ 0 ∷ 0 ∷ 7 ∷ 0 ∷ 0 ∷ 0 ∷ 1 ∷ 1 ∷ 0 ∷ []

pub versions-IsSent : IsSent versions_message versions_body
unfolding write_byte write_api_key write_int16 write_int32 write_uint32 ◌>>=◌
    write_compact_nullable_string write_unsigned_varint write_unsigned_varlong
    write_unsigned_varlong_loop write_tagged_fields store to_network_byte_order byteswap le_bytes
    le_value pure
versions-IsSent = record {
  header_valid = record {
    request_api_key_fits = omega arith;
    request_api_version_fits = omega arith;
    correlation_id_fits = omega arith;
    client_id_fits = omega arith;
  };
  request_valid = (refl, (omega arith, omega arith));
  written = refl;
  body_fits = omega arith;
}

RoundTrip-request_message_example :
    RoundTrip parse_request_message (write_bytes versions_body) versions_message
RoundTrip-request_message_example =
    RoundTrip-request_message versions_message versions_body versions-IsSent

pub wire-IsConnection : IsConnection (λ (k : Wire). k.to_come) (λ (k : Wire). k.sent)
wire-IsConnection = record {
  reliable = wire-IsReliable;
  sends = wire-Sends;
  reading_keeps = λ n k. refl;
  writing_keeps = λ src k. refl;
}

-- Two requests, and a broken third behind them.
abbrev pub two_requests : Wire
two_requests = record {
  to_come = api_versions_bytes ++ api_versions_bytes ++ 0 ∷ 1 ∷ [];
  sent = [];
}

pub two_requests_pending :
    two_requests.to_come ≡ all_sized (versions_body ∷ versions_body ∷ []) ++ 0 ∷ 1 ∷ []
unfolding big_endian
two_requests_pending = refl

serve_client-hangs_up_example :
    (s' : FileDescriptor Wire) × (e : Exception) × Returned environment 2
      (λ r. storage)
      (record { client = record { fd = two_requests }; instance_made = none })
      (record { client = s'; instance_made = none })
    × (s'.fd.sent
        ≡ answers
            (versions_message ∷ versions_message ∷ [])
            (versions_response ∷ versions_response ∷ []))
    × (s'.fd.to_come ≡ 0 ∷ 1 ∷ [])
    × (serve_request environment storage (record { client = s'; instance_made = none }) ≡ throw e)
    × (serve_client {C = FileDescriptor Wire} environment 5
          (λ r. storage)
          (record { client = record { fd = two_requests }; instance_made = none })
        ≡ throw e)
serve_client-hangs_up_example =
    serve_client-hangs_up (λ (k : Wire). k.to_come) (λ (k : Wire). k.sent) wire-IsConnection
      environment (versions_message ∷ versions_message ∷ []) (versions_body ∷ versions_body ∷ [])
      (versions_response ∷ versions_response ∷ []) (0 ∷ 1 ∷ []) (λ r. storage)
      (record { fd = two_requests }) none none 5 2 refl (versions-IsSent, (versions-IsSent, tt))
      two_requests_pending (inl (omega arith))
      (none, versions_handled, (none, versions_handled, refl))

abbrev versions_payload : Bytes
versions_payload =
    0 ∷ 0 ∷ 4 ∷ 0 ∷ 1 ∷ 0 ∷ 0 ∷ 0 ∷ 16 ∷ 0 ∷ 0 ∷ 18 ∷ 0 ∷ 0 ∷ 0 ∷ 4 ∷ 0 ∷ 0 ∷ 75 ∷ 0 ∷ 0 ∷ 0 ∷ 0 ∷ 0
    ∷ 0 ∷ 0 ∷ 0 ∷ 0 ∷ 0 ∷ []

versions_written : write_response versions_response [] ≡ ok (tt, versions_payload)
unfolding write_response handle_api_versions write_api_versions_response write_api_version
    write_objects write_error_code write_compact_array write_byte write_api_key write_int16
    write_int32 write_uint32 ◌>>=◌ write_unsigned_varint write_unsigned_varlong
    write_unsigned_varlong_loop write_tagged_fields store to_network_byte_order byteswap le_bytes
    le_value pure
versions_written = refl

versions_payload_is : versions_payload ≡ payload_bytes versions_response
versions_payload_is =
    same (sym versions_written ∙ (Appends-response versions_response).writes_bytes [])
  where
    same : {u w : Bytes} → ◌≡◌ {A = Outcome (Unit {0} × Bytes)} (ok (tt, u)) (ok (tt, w)) → u ≡ w
    same h = cc

pub versions-IsResponseMessage : IsResponseMessage (answer_to versions_message versions_response)
unfolding big_endian response_api_key
versions-IsResponseMessage = record {
  correlation_id_fits = omega arith;
  response_valid = handle_api_versions-IsApiVersionsResponse versions_message;
  size_fits = rw (← versions_payload_is) (omega arith);
}

RoundTrip-response_message_example :
    RoundTrip
      (read_response_message Constants.api_versions)
      (write_response_message (answer_to versions_message versions_response))
      (answer_to versions_message versions_response)
unfolding response_api_key
RoundTrip-response_message_example =
    RoundTrip-response_message (answer_to versions_message versions_response)
      versions-IsResponseMessage
