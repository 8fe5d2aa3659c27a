-- ===== src/Server/HangUp.antt =====
-- How `serve_client` ends when the client has closed its connection.
use kafka_cpp_server.Prelude.{
  ℕ, zero, suc, ◌+◌, ◌^◌, ◌<◌, ◌≡◌, ◌⊎◌, inl, inr, refl, ap, sym, ◌∙◌, List, [], ◌∷◌, ◌++◌,
  append_assoc, append-nil, Option, length, lt→leb, arith,
}
use mathlib.Core.Path.{subst}
use kafka_cpp_server.Protocol.Types.{Bytes}
use kafka_cpp_server.Protocol.Outcome.{
  Exception, Outcome, ok, throw, undefined, unfinished, runtime_error, ◌>>=◌,
}
use kafka_cpp_server.Protocol.Stream.{Readable, bytes_readable, bytes_writable}
use kafka_cpp_server.Protocol.FileDescriptor.{Kernel, FileDescriptor, fd_readable, fd_writable}
use kafka_cpp_server.Protocol.Simulation.{Refines}
use kafka_cpp_server.Protocol.Streams.{AnyState, incoming}
use kafka_cpp_server.Protocol.RoundTrip.{wire_is}
use kafka_cpp_server.Protocol.Reading.{read_uint32, read_int32, read_bytes}
use kafka_cpp_server.Protocol.ByteOrder.{native_endian}
use kafka_cpp_server.Protocol.Writing.{write_int32}
use kafka_cpp_server.Protocol.Integers.{big_endian, RoundTrip-int32, store-to_network}
use kafka_cpp_server.Metadata.Cluster.{ClusterMetadata}
use kafka_cpp_server.Message.Messages.{RequestMessage, AbstractResponse, read_request_message}
use kafka_cpp_server.Message.Framing.{sized}
use kafka_cpp_server.Message.Delivery.{parse_request_message, request_message_delivered}
use kafka_cpp_server.Server.Answers.{answer_to, message_bytes}
use kafka_cpp_server.Server.Handlers.{Environment, Storage}
use kafka_cpp_server.Server.Serve.{Session, on_client, serve_request, serve_client}
use kafka_cpp_server.Server.Conversation.{
  SentAll, all_sized, answers, later, Handled, IsConnection, parse-sized, one_round, one_more,
  serve_client-step,
}

-- What a client has sent of a message when it closes the connection: nothing, a part of the size, or
-- the size and not all that it counts.
abbrev pub IsPart : Bytes → Type 0
IsPart rest =
    (length rest < 4)
    ⊎ ((n : ℕ) × (part : Bytes) × (rest ≡ big_endian 4 n ++ part)
        × (n < 2 ^ 31)
        × (length part < n))

write_int32-bytes : (n : ℕ) → write_int32 n [] ≡ ok (tt, big_endian 4 n)
unfolding write_int32
write_int32-bytes n = rw (store-to_network native_endian 4 n)

size_read : (n : ℕ) (part : Bytes) → n < 2 ^ 32 → read_int32 (big_endian 4 n ++ part) ≡ ok (n, part)
size_read n part h =
    let trip = RoundTrip-int32 n h in
    ap (λ (l : Bytes). read_int32 (l ++ part)) (wire_is trip (write_int32-bytes n))
    ∙ trip.reads part

cut_off :
    (n : ℕ) (part : Bytes)
    → n < 2 ^ 31
    → length part < n
    → parse_request_message (big_endian 4 n ++ part) ≡ throw (runtime_error "end of stream")
unfolding parse_request_message read_bytes ◌>>=◌
cut_off n part counted short =
    rw (size_read n part (omega arith), lt→leb (2 ^ 31) n counted, lt→leb n (length part) short)

parse-IsPart :
    (rest : Bytes) → IsPart rest → (e : Exception) × (parse_request_message rest ≡ throw e)
unfolding parse_request_message read_bytes read_int32 read_uint32 ◌>>=◌
parse-IsPart rest (inl short) =
    (runtime_error "end of stream", rw (lt→leb 4 (length rest) short) refl)
parse-IsPart rest (inr (n, part, made, counted, short)) = (
  runtime_error "end of stream",
  ap (λ (l : Bytes). parse_request_message l) made ∙ cut_off n part counted short,
)

thrown_too :
    {S A : Type 0} (valid : S → Type 0) (view : S → Bytes) (o : Outcome (A × S))
    (p : Outcome (A × Bytes)) {x : Exception}
    → Refines valid view o p
    → p ≡ throw x
    → (e : Exception) × (o ≡ throw e)
thrown_too valid view (throw e) p r h = (e, refl)
thrown_too valid view (ok q) (ok y) r h = cc
thrown_too valid view undefined undefined r h = cc
thrown_too valid view unfinished unfinished r h = cc
thrown_too valid view _ _ r h = absurd r

module _ {K F : Type 0} ⦃kernel : Kernel K⦄ ⦃f : Readable F⦄ (env : Environment F) where
  -- So many rounds of the loop have returned, and have come to this state.
  abbrev pub Returned :
      ℕ → (ℕ → Storage) → Session (FileDescriptor K) → Session (FileDescriptor K) → Type 0
  Returned zero storage s s' = s ≡ s'
  Returned (suc n) storage s s' =
      (t : Session (FileDescriptor K)) × (serve_request env (storage 0) s ≡ ok (tt, t))
      × Returned n (λ r. storage (suc r)) t s'

module _ {K : Type 0} ⦃kernel : Kernel K⦄ (pending sent : K → Bytes)
    (connection : IsConnection pending sent) {F : Type 0} ⦃f : Readable F⦄
    (env : Environment F) where
  round_thrown :
      (storage : Storage) (s : FileDescriptor K) (i : Option ClusterMetadata) (e : Exception)
      → read_request_message s ≡ throw e
      → serve_request env storage (record { client = s; instance_made = i }) ≡ throw e
  unfolding serve_request on_client ◌>>=◌
  round_thrown storage s i e h = rw (serve_request, on_client, h) refl

  hung_up :
      (storage : Storage) (s : FileDescriptor K) (i : Option ClusterMetadata)
      → IsPart (pending s.fd)
      → (e : Exception) × (serve_request env storage (record { client = s; instance_made = i })
          ≡ throw e)
  hung_up storage s i part =
      let (x, parsed) = parse-IsPart (pending s.fd) part in
      let (e, h) =
        thrown_too AnyState (incoming pending) (read_request_message s)
          (parse_request_message (pending s.fd))
          (request_message_delivered pending connection.reliable s) parsed in
      (e, round_thrown storage s i e h)

  serve_client-last :
      (n : ℕ) (storage : ℕ → Storage) (s : Session (FileDescriptor K)) {e : Exception}
      → serve_request env (storage 0) s ≡ throw e
      → serve_client env (suc n) storage s ≡ throw e
  unfolding serve_client ◌>>=◌
  serve_client-last n storage s h = rw h refl

  -- On a connection that delivers and sends as documented and on which no call fails: if a client
  -- sends request messages that the handlers answer in turn, and closes the connection, perhaps in
  -- the middle of a further message, then `serve_client` ends. As many of its rounds as there are
  -- messages return, and have sent just the answers to them, in their order; the next one, which
  -- finds the end of the stream, throws an exception, and `serve_client` with it, in however many
  -- rounds it may run beyond these.
  pub serve_client-hangs_up :
      (ms : List RequestMessage) (bodies : List Bytes) (responses : List AbstractResponse)
      (rest : Bytes) (storage : ℕ → Storage) (s : FileDescriptor K) (i i' : Option ClusterMetadata)
      (rounds n : ℕ)
      → rounds ≡ length ms + suc n
      → SentAll ms bodies
      → pending s.fd ≡ all_sized bodies ++ rest
      → IsPart rest
      → Handled env storage i ms responses i'
      → (s' : FileDescriptor K) × (e : Exception) × Returned env
          (length ms)
          storage
          (record { client = s; instance_made = i })
          (record { client = s'; instance_made = i' })
        × (sent s'.fd ≡ sent s.fd ++ answers ms responses)
        × (pending s'.fd ≡ rest)
        × (serve_request env
              (later (length ms) storage 0)
              (record { client = s'; instance_made = i' })
            ≡ throw e)
        × (serve_client env rounds storage (record { client = s; instance_made = i }) ≡ throw e)
  serve_client-hangs_up [] [] [] rest storage s i i' rounds n count all h part made =
      let (e, last) = hung_up (storage 0) s i' (subst IsPart (sym h) part) in
      (
        s,
        e,
        ap (λ j. record { client = s; instance_made = j }) made,
        sym (append-nil (sent s.fd)),
        h,
        last,
        ap (λ (k : ℕ). serve_client env k storage (record { client = s; instance_made = i }))
              (omega arith)
            ∙ ap (λ j. serve_client env (suc n) storage (record { client = s; instance_made = j }))
                made
            ∙ serve_client-last n storage _ last,
      )
  serve_client-hangs_up (m ∷ ms) (body ∷ bodies) (response ∷ responses) rest storage s i i' rounds n
        count (v, all) h part (j, handled, made) =
      let (s1, e1, h1, k1) =
        one_round pending sent connection env (storage 0) s i j m (all_sized bodies ++ rest)
          response
          (ap parse_request_message (h ∙ append_assoc (sized body) (all_sized bodies) rest)
            ∙ parse-sized m body (all_sized bodies ++ rest) v)
          handled in
      let (s2, e, returned, h2, k2, last, ended) =
        serve_client-hangs_up ms bodies responses rest (λ r. storage (suc r)) s1 j i'
          (length ms + suc n) n refl all k1 part made in
      (
        s2,
        e,
        (record { client = s1; instance_made = j }, e1, returned),
        h2
            ∙ ap (λ l. l ++ answers ms responses) h1
            ∙ append_assoc (sent s.fd) (sized (message_bytes (answer_to m response)))
                (answers ms responses),
        k2,
        last,
        ap (λ (k : ℕ). serve_client env k storage (record { client = s; instance_made = i }))
              (one_more pending sent connection env (length ms) (suc n) rounds count)
            ∙ serve_client-step pending sent connection env storage (length ms + suc n) _ e1
            ∙ ended,
      )
  serve_client-hangs_up [] [] (response ∷ responses) rest storage s i i' rounds n count all h part
        made =
      elim made [ ]
  serve_client-hangs_up [] (body ∷ bodies) responses rest storage s i i' rounds n count all h part
        made =
      elim all [ ]
  serve_client-hangs_up (m ∷ ms) [] responses rest storage s i i' rounds n count all h part made =
      elim all [ ]
  serve_client-hangs_up (m ∷ ms) (body ∷ bodies) [] rest storage s i i' rounds n count all h part
        made =
      elim made [ ]
