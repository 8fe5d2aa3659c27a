-- ===== src/Legacy/Serving.antt =====
-- `processRequest` answers the requests of a client in turn, and closes the connection.
use kafka_cpp_server.Prelude.{
  ℕ, zero, suc, ◌+◌, ◌%◌, ◌^◌, ◌<◌, ◌≡◌, refl, ap, ◌∙◌, ◌⊎◌, inl, inr, List, [], ◌∷◌, ◌++◌,
  append_assoc, some, length, length-append, arith,
}
use kafka_cpp_server.Protocol.Types.{Bytes, Int32}
use kafka_cpp_server.Protocol.Outcome.{ok}
use kafka_cpp_server.Protocol.FileDescriptor.{failed, done}
use kafka_cpp_server.Protocol.Integers.{big_endian, length-big_endian}
use kafka_cpp_server.Message.Framing.{sized}
use kafka_cpp_server.Legacy.KafkaResponse.{serialize}
use kafka_cpp_server.Legacy.Extracting.{
  Request, IsRequest, request_bytes, received-bytes, response_made,
}
use kafka_cpp_server.Legacy.TcpServer.{
  Connections, max_buffer_size, make_response, received, send_back, after_recv, process_request,
}
use kafka_cpp_server.Legacy.Answering.{serialize-bytes, answer_bytes}

abbrev pub answer : Request → Bytes
answer q = sized (big_endian 4 q.correlation_id ++ answer_bytes q.api_key q.api_version)

framed :
    (id : Int32) (body : Bytes)
    → serialize
        (record { message_size = (4 + length body) % 2 ^ 32; correlation_id = id; body = body })
      ≡ sized (big_endian 4 id ++ body)
framed id body =
    serialize-bytes _
    ∙ append_assoc (big_endian 4 ((4 + length body) % 2 ^ 32)) (big_endian 4 id) body
    ∙ ap (λ (n : ℕ). big_endian 4 (n % 2 ^ 32) ++ (big_endian 4 id ++ body))
        (omega (arith, length-append (big_endian 4 id) body, length-big_endian 4 id))

request_nonempty : (q : Request) → IsRequest q → 0 < length (request_bytes q)
request_nonempty q h = omega (
  arith,
  h.size_fits,
  length-append
      (q.size
        ++ big_endian 2 q.api_key
        ++ big_endian 2 q.api_version
        ++ big_endian 4 q.correlation_id)
      q.more,
  length-append (q.size ++ big_endian 2 q.api_key ++ big_endian 2 q.api_version)
      (big_endian 4 q.correlation_id),
  length-append (q.size ++ big_endian 2 q.api_key) (big_endian 2 q.api_version),
  length-append q.size (big_endian 2 q.api_key),
)

module _ {K : Type 0} ⦃connections : Connections K⦄ where
  first_byte :
      (bytes : Bytes) (k : K)
      → 0 < length bytes
      → after_recv (done bytes, k) ≡ send_back k (make_response (received bytes) (length bytes))
  unfolding after_recv
  first_byte [] k h = absurd (omega arith)
  first_byte (b ∷ bytes) k h = refl

  answered :
      (q : Request) (k : K)
      → IsRequest q
      → after_recv (done (request_bytes q), k)
        ≡ ok (some (connections.sys_send (answer q) k), connections.sys_send (answer q) k)
  unfolding send_back
  answered q k h =
      first_byte (request_bytes q) k (request_nonempty q h)
      ∙ ap (send_back k) (
          response_made q h (received (request_bytes q)) _ (received-bytes (request_bytes q))
            (length (request_bytes q)))
      ∙ ap (λ (l : Bytes). ok (some (connections.sys_send l k), connections.sys_send l k))
          (framed q.correlation_id (answer_bytes q.api_key q.api_version))

  -- Calls of `recv` hand over these requests, each after the answer to the one before, and then
  -- nothing more.
  abbrev pub Delivers : K → List Request → K → Type 0
  Delivers k [] k' =
      (connections.sys_recv max_buffer_size k ≡ (failed, k'))
      ⊎ (connections.sys_recv max_buffer_size k ≡ (done [], k'))
  Delivers k (q ∷ qs) k' =
      (next : K) × IsRequest q
      × (connections.sys_recv max_buffer_size k ≡ (done (request_bytes q), next))
      × Delivers (connections.sys_send (answer q) next) qs k'

  -- If each call of `recv` hands over a request, and a last one fails or finds the connection closed,
  -- then `processRequest` ends, in a round more than there are requests. It has sent to each request one
  -- answer, before it received the next: a frame of its size, with the request's correlation id, the
  -- error code 0 or 35 (from version 5 on and for a negative one) if the request is of ApiVersions,
  -- and the two API keys. In the end it closes the connection.
  pub process_request-answers :
      (qs : List Request) (k k' : K) (rounds n : ℕ)
      → rounds ≡ length qs + suc n
      → Delivers k qs k'
      → process_request rounds k ≡ ok (connections.sys_close k')
  unfolding process_request after_recv
  process_request-answers [] k k' zero n count h = absurd (omega arith)
  process_request-answers (q ∷ qs) k k' zero n count h = absurd (omega arith)
  process_request-answers [] k k' (suc rounds) n count (inl e) = rw (process_request, e, after_recv)
  process_request-answers [] k k' (suc rounds) n count (inr e) = rw (process_request, e, after_recv)
  process_request-answers (q ∷ qs) k k' (suc rounds) n count (next, h, e, more) =
      rw (process_request, e, answered q next h)
        (process_request-answers qs (connections.sys_send (answer q) next) k' rounds n (omega arith)
          more)
