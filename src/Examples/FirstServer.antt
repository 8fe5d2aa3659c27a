-- ===== src/Examples/FirstServer.antt =====
-- The theorems on the first server at concrete inputs.
use kafka_cpp_server.Prelude.{
  ℕ, ◌+◌, ◌<◌, ◌≤◌, ◌≡◌, refl, ◌⊎◌, inl, inr, List, [], ◌∷◌, ◌++◌, some, length, take, drop, ◌==◌,
  if◌then◌else◌, arith,
}
use kafka_cpp_server.Protocol.Types.{Bytes}
use kafka_cpp_server.Protocol.Outcome.{ok, throw, unfinished, runtime_error}
use kafka_cpp_server.Protocol.Stream.{bytes_writable}
use kafka_cpp_server.Protocol.Writing.{write_unsigned_varint}
use kafka_cpp_server.Protocol.FileDescriptor.{SysResult, failed, done}
use kafka_cpp_server.Protocol.Integers.{big_endian}
use kafka_cpp_server.Legacy.Buffer.{Buffer, extract_int_from_buffer}
use kafka_cpp_server.Legacy.Bounds.{extract_int_from_buffer_lem}
use kafka_cpp_server.Legacy.KafkaResponse.{KafkaResponse, append_var_int}
use kafka_cpp_server.Legacy.VarInts.{append_var_int-write_unsigned_varint}
use kafka_cpp_server.Legacy.TcpServer.{Connections, process_request}
use kafka_cpp_server.Legacy.Extracting.{Request, IsRequest, request_bytes}
use kafka_cpp_server.Legacy.Serving.{answer, process_request-answers}
use kafka_cpp_server.Legacy.Listening.{
  Calls, indeterminate, new_tcp_server, with_socket, reusing, bound, listened, TcpServer, Accepting,
  run,
}
use kafka_cpp_server.Legacy.Lifetime.{Destroyed, destroy_server_lem}
use kafka_cpp_server.Protocol.ByteOrder.{to_network_byte_order, byteswap, le_bytes, le_value}
use kafka_cpp_server.Legacy.Running.{Attempt, Attempted, state_after, run-serves}

abbrev five_bytes : Buffer
five_bytes = record { buffer = 1 ∷ 2 ∷ 3 ∷ 4 ∷ 5 ∷ [] }

extract_int_from_buffer_lem_example :
    ((length five_bytes.buffer < 1 + 4)
      × (extract_int_from_buffer 4 1 five_bytes
          ≡ throw (runtime_error "Buffer is too small for the requested integer.")))
    ⊎ ((1 + 4 ≤ length five_bytes.buffer)
        × (n : ℕ) × (extract_int_from_buffer 4 1 five_bytes ≡ ok n)
        × (take 4 (drop 1 five_bytes.buffer) ≡ big_endian 4 n))
extract_int_from_buffer_lem_example =
    extract_int_from_buffer_lem 4 1 five_bytes (inr (inr (inl refl))) (omega arith)
      (omega arith, (omega arith, (omega arith, (omega arith, (omega arith, tt)))))

abbrev some_response : KafkaResponse
some_response = record { message_size = 0; correlation_id = 7; body = 0 ∷ 0 ∷ [] }

append_var_int-write_unsigned_varint_example :
    (wire : Bytes) × (append_var_int 300 some_response
      ≡ ok (tt, record some_response { body = 0 ∷ 0 ∷ [] ++ wire }))
    × (write_unsigned_varint 300 (0 ∷ 0 ∷ []) ≡ ok (tt, 0 ∷ 0 ∷ [] ++ wire))
append_var_int-write_unsigned_varint_example =
    append_var_int-write_unsigned_varint 300 some_response (omega arith)

-- A connection on which a client waits for an answer before it sends more.
pub record Line : Type 0 where
  pub to_come : List Bytes
  pub sent : Bytes
  pub closed : ℕ

abbrev next_bytes : List Bytes → Bytes × List Bytes
next_bytes [] = ([], [])
next_bytes (bytes ∷ rest) = (bytes, rest)

instance abbrev line_connections : Connections Line
line_connections = record {
  sys_recv =
      λ n k. (done (next_bytes k.to_come).0, record k { to_come = (next_bytes k.to_come).1 });
  sys_send = λ src k. record k { sent = k.sent ++ src };
  sys_close = λ k. record k { closed = k.closed + 1 };
}

abbrev versions_request : Request
versions_request = record {
  size = 0 ∷ 0 ∷ 0 ∷ 8 ∷ [];
  api_key = 18;
  api_version = 4;
  correlation_id = 7;
  more = [];
}

versions_request-IsRequest : IsRequest versions_request
versions_request-IsRequest = record {
  size_fits = refl;
  api_key_fits = omega arith;
  api_version_fits = omega arith;
  correlation_id_fits = omega arith;
}

abbrev line : Line
line = record { to_come = request_bytes versions_request ∷ []; sent = []; closed = 0 }

process_request-answers_example :
    process_request 4 line
    ≡ ok (record { to_come = []; sent = answer versions_request; closed = 1 })
process_request-answers_example =
    process_request-answers (versions_request ∷ []) line
      (record { to_come = []; sent = answer versions_request; closed = 0 }) 4 2 refl
      (record { to_come = []; sent = []; closed = 0 }, versions_request-IsRequest, refl, inr refl)

abbrev next_result : List (SysResult ℕ) → SysResult ℕ × List (SysResult ℕ)
next_result [] = (failed, [])
next_result (result ∷ results) = (result, results)

instance abbrev queue_calls : Calls (List (SysResult ℕ)) ℕ
queue_calls = record {
  sys_socket = λ w. (some 3, w);
  sys_set_reuse = λ fd reuse w. (done tt, w);
  sys_bind = λ fd address w. (done tt, w);
  sys_listen = λ fd backlog w. (done tt, w);
  sys_accept = λ fd address address_len w.
      ((next_result w).0, record { sin_addr = 1; sin_port = 2 }, address_len, (next_result w).1);
  sys_thread = λ client w. (if client == 5 then failed else done tt, w);
  sys_close = λ fd w. w;
  sys_close_client = λ client w. w;
}

abbrev first_server : TcpServer ℕ
first_server = record {
  server_fd = some 3;
  client_fd = indeterminate;
  address = record { sin_addr = 0; sin_port = 0 };
  address_len = 16;
}

-- `accept` fails, then the thread for 5 cannot be started.
abbrev results : List (SysResult ℕ)
results = failed ∷ done 5 ∷ done 4 ∷ []

run-serves_example :
    (attempts : List (Attempt ℕ)) × (server' : TcpServer ℕ) × (w' : List (SysResult ℕ)) × (length
        attempts
      ≡ 3)
    × Attempted first_server results attempts server' w'
    × (run 3 (record { server = first_server; network = results; served = []; reported = [] })
        ≡ (unfinished, state_after attempts server' w' [] []))
run-serves_example = run-serves 3 first_server results [] []

-- `first_server` as the constructor makes it.
first_server_made :
    new_tcp_server {W = List (SysResult ℕ)} ℕ indeterminate 0 results ≡ (ok first_server, results)
unfolding new_tcp_server with_socket reusing bound listened to_network_byte_order byteswap le_bytes
    le_value
first_server_made = refl

destroy_server_lem_example :
    (l : Accepting (List (SysResult ℕ)) ℕ) × (run 3
        (record { server = first_server; network = results; served = []; reported = [] })
      ≡ (unfinished, l))
    × Destroyed indeterminate (some 3) l
destroy_server_lem_example =
    destroy_server_lem indeterminate 0 results results first_server 3 first_server_made
