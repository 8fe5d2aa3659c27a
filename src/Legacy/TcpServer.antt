-- ===== src/Legacy/TcpServer.antt =====
-- `processRequest` of src/TCPServer.cpp. The socket calls are parameters. What the server prints is not
-- modelled.
use kafka_cpp_server.Prelude.{
  ℕ, zero, suc, ◌+◌, ◌%◌, ◌^◌, [], ◌∷◌, Option, none, some, ◌||◌, length, ltb, ◌==◌, if◌then◌else◌,
}
use kafka_cpp_server.Protocol.Types.{Bytes, Int16, is_negative}
use kafka_cpp_server.Protocol.Outcome.{
  Outcome, Io, ok, throw, undefined, unfinished, ◌>>=◌, ◌>>◌, pure, from_outcome,
}
use kafka_cpp_server.Protocol.FileDescriptor.{SysResult, failed, done}
use kafka_cpp_server.Legacy.ErrorCode
use kafka_cpp_server.Legacy.Buffer.{
  Buffer, new_buffer, extract_api_key, extract_api_version, extract_correlation_id,
}
use kafka_cpp_server.Legacy.KafkaResponse.{
  KafkaResponse, copy_in, serialize, append_to_body, append_var_int, append_api_version,
  append_error_code, api_key_api_versions, api_key_describe_topic_partitions,
}

abbrev pub max_buffer_size : ℕ
max_buffer_size = 1024

-- `recv(fd, p, n, 0)` with the bytes that it puts to `p`, `send(fd, p, n, 0)` of the `n` bytes at `p`,
-- whose result the program ignores, and `close(fd)`. `K` is what the kernel knows of a connection.
pub record Connections (K : Type 0) : Type 0 where
  pub sys_recv : ℕ → K → SysResult Bytes × K
  pub sys_send : Bytes → K → K
  pub sys_close : K → K

-- `api_version < 0 || api_version > 4`
abbrev pub version_error : Int16 → ErrorCode.ErrorCode
version_error api_version =
    if (is_negative 16 api_version || ltb 4 api_version)
    then ErrorCode.unsupported_version
    else ErrorCode.none

-- What a round appends to the body of the response.
unfoldable pub append_answer : Int16 → Int16 → Io KafkaResponse (Unit {0})
append_answer api_key api_version = do
  if api_key == 18 then append_error_code (version_error api_version) else pure tt
  append_var_int 3
  append_api_version api_key_api_versions 0 4
  append_api_version api_key_describe_topic_partitions 0 0
  append_to_body 4 0
  append_to_body 1 0

-- `response.message_size = sizeof(response.correlation_id) + response.body.size();`
unfoldable pub set_message_size : Io KafkaResponse (Unit {0})
set_message_size r = ok (tt, record r { message_size = (4 + length r.body) % 2 ^ 32 })

abbrev pub response_of : Outcome (Unit {0} × KafkaResponse) → Outcome KafkaResponse
response_of (ok (_, r)) = ok r
response_of (throw e) = throw e
response_of undefined = undefined
response_of unfinished = unfinished

-- The response to what `recv` has put into the buffer.
unfoldable pub make_response : Buffer → ℕ → Outcome KafkaResponse
unfolding append_answer set_message_size
make_response buffer bytes_read = response_of (
    (do
      api_key ← from_outcome (extract_api_key 4 buffer)
      api_version ← from_outcome (extract_api_version 6 buffer)
      correlation_id ← from_outcome (extract_correlation_id 8 buffer)
      (λ r. ok (tt, record r { correlation_id = correlation_id }))
      append_answer api_key api_version
      set_message_size)
      (record { message_size = bytes_read; correlation_id = 0; body = [] }))

-- The vector of the buffer after `recv`.
unfoldable pub received : Bytes → Buffer
unfolding copy_in new_buffer
received bytes = record { buffer = copy_in 0 bytes (new_buffer max_buffer_size).buffer }

module _ {K : Type 0} ⦃connections : Connections K⦄ where
  -- A round after `recv`: the connection that the next round works on, or the end of the loop.
  unfoldable pub send_back : K → Outcome KafkaResponse → Outcome (Option K × K)
  send_back k (ok r) = let sent = connections.sys_send (serialize r) k in ok (some sent, sent)
  send_back k (throw e) = throw e
  send_back k undefined = undefined
  send_back k unfinished = unfinished

  unfoldable pub after_recv : SysResult Bytes × K → Outcome (Option K × K)
  unfolding send_back
  after_recv (failed, k) = ok (none, k)
  after_recv (done [], k) = ok (none, k)
  after_recv (done (b ∷ bs), k) = send_back k (make_response (received (b ∷ bs)) (length (b ∷ bs)))

  -- `processRequest`, with the connection that it leaves.
  unfoldable pub process_request : ℕ → K → Outcome K
  process_request zero k = unfinished
  process_request (suc rounds) k = elim (after_recv (connections.sys_recv max_buffer_size k)) [
    | ok p ↦ elim p.0 [
      | some next ↦ process_request rounds next
      | none ↦ ok (connections.sys_close p.1)
    ]
    | throw e ↦ throw e
    | undefined ↦ undefined
    | unfinished ↦ unfinished
  ]
