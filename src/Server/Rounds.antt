-- ===== src/Server/Rounds.antt =====
-- One round of `serve_client` on a descriptor, from the bytes of the request to those of the answer.
use kafka_cpp_server.Prelude.{ℕ, ◌%◌, ◌^◌, ◌≡◌, refl, ap, ◌∙◌, ◌++◌, append_assoc, Option, length}
use kafka_cpp_server.Protocol.Types.{Bytes}
use kafka_cpp_server.Protocol.Outcome.{Outcome, ok, throw, undefined, unfinished, ◌>>=◌}
use kafka_cpp_server.Protocol.Stream.{Readable}
use kafka_cpp_server.Protocol.FileDescriptor.{Kernel, FileDescriptor, fd_readable, fd_writable}
use kafka_cpp_server.Protocol.Simulation.{Refines}
use kafka_cpp_server.Protocol.Streams.{IsReliable, incoming}
use kafka_cpp_server.Protocol.Sending.{Sends, write_fd-sent}
use kafka_cpp_server.Protocol.Duplex.{duplex-IsStream}
use kafka_cpp_server.Protocol.Integers.{big_endian}
use kafka_cpp_server.Metadata.Cluster.{ClusterMetadata}
use kafka_cpp_server.Message.Messages.{RequestMessage, AbstractResponse, read_request_message}
use kafka_cpp_server.Message.Framing.{sized}
use kafka_cpp_server.Message.Delivery.{parse_request_message, Simulates-request_message}
use kafka_cpp_server.Server.Handlers.{Environment, Storage}
use kafka_cpp_server.Server.Serve.{handle, serve_request}
use kafka_cpp_server.Server.Answers.{
  answer_to, message_bytes, write_sized, on_client-ok, serve_request_lem,
}

-- A result of the abstract stream is one of the stream, with the invariant.
from_abstract :
    {S A : Type 0} (valid : S → Type 0) (view : S → Bytes) (o : Outcome (A × S))
    (p : Outcome (A × Bytes)) {a : A} {t : Bytes}
    → Refines valid view o p
    → p ≡ ok (a, t)
    → (s : S) × (o ≡ ok (a, s)) × (view s ≡ t) × valid s
from_abstract valid view (ok (b, s)) (ok (c, u)) (e, f, v) h = (s, cc, f ∙ cc, v)
from_abstract valid view (throw x) (throw y) r h = cc
from_abstract valid view undefined undefined r h = cc
from_abstract valid view unfinished unfinished r h = cc
from_abstract valid view _ _ r h = absurd r

module _ {K : Type 0} ⦃kernel : Kernel K⦄ (pending sent : K → Bytes) (reliable : IsReliable pending)
    (sends : Sends sent) (keeps : (n : ℕ) (k : K) → sent (kernel.sys_read n k).1 ≡ sent k) where
  write_sized-sent :
      (body : Bytes) (s : FileDescriptor K)
      → (s' : FileDescriptor K) × (write_sized body s ≡ ok (tt, s'))
        × (sent s'.fd ≡ sent s.fd ++ sized body)
  unfolding ◌>>=◌
  write_sized-sent body s =
      let (s1, e1, h1) = write_fd-sent sent sends (big_endian 4 (length body % 2 ^ 32)) s in
      let (s2, e2, h2) = write_fd-sent sent sends body s1 in
      (
        s2,
        rw (e1, e2),
        h2
            ∙ ap (λ l. l ++ body) h1
            ∙ append_assoc (sent s.fd) (big_endian 4 (length body % 2 ^ 32)) body,
      )

  pub request_read :
      (k : K) (m : RequestMessage) (rest : Bytes)
      → parse_request_message (pending k) ≡ ok (m, rest)
      → (s : FileDescriptor K) × (read_request_message (record { fd = k }) ≡ ok (m, s))
        × (pending s.fd ≡ rest)
        × (sent s.fd ≡ sent k)
  request_read k m rest h =
      from_abstract (λ (s : FileDescriptor K). sent s.fd ≡ sent k) (incoming pending) _ _
        ((Simulates-request_message _ _ (duplex-IsStream sent keeps pending (sent k) reliable)).at
          (record { fd = k }) refl)
        h

  -- On a descriptor of a kernel that delivers and sends as documented, and for which reading does not
  -- change what was sent: if the bytes to come start with a request message and its handler returns
  -- a response, the round returns, and has sent one message behind what was sent before: the size,
  -- the request's correlation id and what the response writes. This holds however the kernel
  -- splits the bytes in both directions.
  pub serve_request-sent :
      {F : Type 0} ⦃f : Readable F⦄ (env : Environment F) (storage : Storage) (k : K)
      (i i' : Option ClusterMetadata) (m : RequestMessage) (rest : Bytes)
      (response : AbstractResponse)
      → parse_request_message (pending k) ≡ ok (m, rest)
      → handle env storage m i ≡ ok (response, i')
      → (s : FileDescriptor K) × (serve_request env storage
            (record { client = record { fd = k }; instance_made = i })
          ≡ ok (tt, record { client = s; instance_made = i' }))
        × (sent s.fd ≡ sent k ++ sized (message_bytes (answer_to m response)))
  serve_request-sent env storage k i i' m rest response h handled =
      let (c, e, left, same) = request_read k m rest h in
      let (s, made, all) = write_sized-sent (message_bytes (answer_to m response)) c in
      (
        s,
        (serve_request_lem env storage (record { fd = k }) c i i' m response e handled).1
            ∙ on_client-ok (write_sized (message_bytes (answer_to m response))) made,
        all ∙ ap (λ l. l ++ sized (message_bytes (answer_to m response))) same,
      )
