-- ===== src/Server/Conversation.antt =====
-- A whole conversation: `serve_client` on the requests that a client sends one after the other.
use kafka_cpp_server.Prelude.{
  ℕ, zero, suc, ◌+◌, ◌%◌, ◌^◌, ◌≡◌, refl, ap, sym, ◌∙◌, List, [], ◌∷◌, ◌++◌, append_assoc,
  append-nil, Option, length, arith,
}
use kafka_cpp_server.Protocol.Types.{Bytes}
use kafka_cpp_server.Protocol.Outcome.{ok, ◌>>=◌}
use kafka_cpp_server.Protocol.Stream.{Readable, bytes_readable, bytes_writable}
use kafka_cpp_server.Protocol.FileDescriptor.{
  Kernel, FileDescriptor, fd_readable, fd_writable, write_fd,
}
use kafka_cpp_server.Protocol.Streams.{IsReliable}
use kafka_cpp_server.Protocol.Sending.{Sends, write_fd-sent}
use kafka_cpp_server.Protocol.Duplex.{write_fd-keeps}
use kafka_cpp_server.Protocol.RoundTrip.{wire_is}
use kafka_cpp_server.Protocol.Integers.{big_endian}
use kafka_cpp_server.Metadata.Cluster.{ClusterMetadata}
use kafka_cpp_server.Message.Messages.{RequestMessage, AbstractResponse}
use kafka_cpp_server.Message.Framing.{sized, write_bytes-bytes}
use kafka_cpp_server.Message.Delivery.{parse_request_message}
use kafka_cpp_server.Message.Sent.{IsSent, RoundTrip-request_message}
use kafka_cpp_server.Server.Handlers.{Environment, Storage}
use kafka_cpp_server.Server.Serve.{Session, handle, serve_request, serve_client}
use kafka_cpp_server.Server.Answers.{
  answer_to, message_bytes, write_sized, on_client-ok, serve_request_lem,
}
use kafka_cpp_server.Server.Rounds.{request_read}

pub parse-sized :
    (m : RequestMessage) (body rest : Bytes)
    → IsSent m body
    → parse_request_message (sized body ++ rest) ≡ ok (m, rest)
parse-sized m body rest v =
    let trip = RoundTrip-request_message m body v in
    ap (λ (l : Bytes). parse_request_message (l ++ rest)) (wire_is trip (write_bytes-bytes body []))
    ∙ trip.reads rest

-- What the client sends, message by message.
abbrev pub SentAll : List RequestMessage → List Bytes → Type 0
SentAll [] [] = Unit
SentAll (m ∷ ms) (body ∷ bodies) = IsSent m body × SentAll ms bodies
SentAll _ _ = ⊥

abbrev pub all_sized : List Bytes → Bytes
all_sized [] = []
all_sized (body ∷ bodies) = sized body ++ all_sized bodies

-- What the client gets.
abbrev pub answers : List RequestMessage → List AbstractResponse → Bytes
answers (m ∷ ms) (response ∷ responses) =
    sized (message_bytes (answer_to m response)) ++ answers ms responses
answers _ _ = []

-- The storage that is left after some rounds.
abbrev pub later : ℕ → (ℕ → Storage) → ℕ → Storage
later zero storage = storage
later (suc n) storage = later n (λ j. storage (suc j))

module _ {F : Type 0} ⦃f : Readable F⦄ (env : Environment F) where
  -- The handlers answer the messages in turn, each with the metadata that the one before has left.
  abbrev pub Handled :
      (ℕ → Storage)
      → Option ClusterMetadata
      → List RequestMessage
      → List AbstractResponse
      → Option ClusterMetadata
      → Type 0
  Handled storage i [] [] i' = i ≡ i'
  Handled storage i (m ∷ ms) (response ∷ responses) i' =
      (j : Option ClusterMetadata) × (handle env (storage 0) m i ≡ ok (response, j))
      × Handled (λ n. storage (suc n)) j ms responses i'
  Handled storage i _ _ i' = ⊥

-- The kernel of a connection: it delivers and sends as documented, and neither direction disturbs
-- the other.
pub record IsConnection {K : Type 0} ⦃kernel : Kernel K⦄ (pending sent : K → Bytes) : Type 0 where
  pub reliable : IsReliable pending
  pub sends : Sends sent
  pub reading_keeps : (n : ℕ) (k : K) → sent (kernel.sys_read n k).1 ≡ sent k
  pub writing_keeps : (src : Bytes) (k : K) → pending (kernel.sys_write src k).1 ≡ pending k

module _ {K : Type 0} ⦃kernel : Kernel K⦄ (pending sent : K → Bytes)
    (connection : IsConnection pending sent) where
  write_fd-both :
      (src : Bytes) (s : FileDescriptor K)
      → (s' : FileDescriptor K) × (write_fd src s ≡ ok (tt, s'))
        × (sent s'.fd ≡ sent s.fd ++ src)
        × (pending s'.fd ≡ pending s.fd)
  write_fd-both src s =
      let (s', e, h) = write_fd-sent sent connection.sends src s in
      (s', e, h, write_fd-keeps pending connection.writing_keeps src s s' e)

  pub write_sized-both :
      (body : Bytes) (s : FileDescriptor K)
      → (s' : FileDescriptor K) × (write_sized body s ≡ ok (tt, s'))
        × (sent s'.fd ≡ sent s.fd ++ sized body)
        × (pending s'.fd ≡ pending s.fd)
  unfolding ◌>>=◌
  write_sized-both body s =
      let (s1, e1, h1, k1) = write_fd-both (big_endian 4 (length body % 2 ^ 32)) s in
      let (s2, e2, h2, k2) = write_fd-both body s1 in
      (
        s2,
        rw (e1, e2),
        h2
            ∙ ap (λ l. l ++ body) h1
            ∙ append_assoc (sent s.fd) (big_endian 4 (length body % 2 ^ 32)) body,
        k2 ∙ k1,
      )

  module _ {F : Type 0} ⦃f : Readable F⦄ (env : Environment F) where
    pub one_round :
        (storage : Storage) (s : FileDescriptor K) (i i' : Option ClusterMetadata)
        (m : RequestMessage) (rest : Bytes) (response : AbstractResponse)
        → parse_request_message (pending s.fd) ≡ ok (m, rest)
        → handle env storage m i ≡ ok (response, i')
        → (s' : FileDescriptor K) × (serve_request env storage
              (record { client = s; instance_made = i })
            ≡ ok (tt, record { client = s'; instance_made = i' }))
          × (sent s'.fd ≡ sent s.fd ++ sized (message_bytes (answer_to m response)))
          × (pending s'.fd ≡ rest)
    one_round storage s i i' m rest response h handled =
        let (c, e, left, same) =
          request_read pending sent connection.reliable connection.sends connection.reading_keeps
            s.fd m rest h in
        let (s', made, all, kept) = write_sized-both (message_bytes (answer_to m response)) c in
        (
          s',
          (serve_request_lem env storage s c i i' m response e handled).1
              ∙ on_client-ok (write_sized (message_bytes (answer_to m response))) made,
          all ∙ ap (λ l. l ++ sized (message_bytes (answer_to m response))) same,
          kept ∙ left,
        )

    pub serve_client-step :
        (storage : ℕ → Storage) (rounds : ℕ) (s : Session (FileDescriptor K))
        {s' : Session (FileDescriptor K)}
        → serve_request env (storage 0) s ≡ ok (tt, s')
        → serve_client env (suc rounds) storage s
          ≡ serve_client env rounds (λ r. storage (suc r)) s'
    unfolding serve_client ◌>>=◌
    serve_client-step storage rounds s h = rw h

    pub one_more : (k n rounds : ℕ) → rounds ≡ suc k + n → rounds ≡ suc (k + n)
    one_more k n rounds h = omega arith

    -- On a connection that delivers and sends as documented and on which no call fails, to which a
    -- client has sent request messages, one after the other and perhaps more behind them: if the handlers answer them in turn, then `serve_client` serves them all, in
    -- as many rounds. It comes to a state of the connection in which just their answers have been
    -- sent, in the order of the requests, each with the correlation id of its request, and in which
    -- what was behind the requests is to come; and goes on from there with the rounds left.
    pub serve_client-conversation :
        (ms : List RequestMessage) (bodies : List Bytes) (responses : List AbstractResponse)
        (rest : Bytes) (storage : ℕ → Storage) (s : FileDescriptor K)
        (i i' : Option ClusterMetadata) (rounds n : ℕ)
        → rounds ≡ length ms + n
        → SentAll ms bodies
        → pending s.fd ≡ all_sized bodies ++ rest
        → Handled env storage i ms responses i'
        → (s' : FileDescriptor K) × (serve_client env rounds storage
              (record { client = s; instance_made = i })
            ≡ serve_client env n
                (later (length ms) storage)
                (record { client = s'; instance_made = i' }))
          × (sent s'.fd ≡ sent s.fd ++ answers ms responses)
          × (pending s'.fd ≡ rest)
    serve_client-conversation [] [] [] rest storage s i i' rounds n count all h made = (
      s,
      ap (λ (k : ℕ). serve_client env k storage (record { client = s; instance_made = i }))
            (omega arith)
          ∙ ap (λ j. serve_client env n storage (record { client = s; instance_made = j })) made,
      sym (append-nil (sent s.fd)),
      h,
    )
    serve_client-conversation (m ∷ ms) (body ∷ bodies) (response ∷ responses) rest storage s i i'
          rounds n count (v, all) h (j, handled, made) =
        let (s1, e1, h1, k1) =
          one_round (storage 0) s i j m (all_sized bodies ++ rest) response
            (ap parse_request_message (h ∙ append_assoc (sized body) (all_sized bodies) rest)
              ∙ parse-sized m body (all_sized bodies ++ rest) v)
            handled in
        let (s2, e2, h2, k2) =
          serve_client-conversation ms bodies responses rest (λ r. storage (suc r)) s1 j i'
            (length ms + n) n refl all k1 made in
        (
          s2,
          ap (λ (k : ℕ). serve_client env k storage (record { client = s; instance_made = i }))
                (one_more (length ms) n rounds count)
              ∙ serve_client-step storage (length ms + n) _ e1
              ∙ e2,
          h2
              ∙ ap (λ l. l ++ answers ms responses) h1
              ∙ append_assoc (sent s.fd) (sized (message_bytes (answer_to m response)))
                  (answers ms responses),
          k2,
        )
    serve_client-conversation [] [] (response ∷ responses) rest storage s i i' rounds n count all h
          made =
        elim made [ ]
    serve_client-conversation [] (body ∷ bodies) responses rest storage s i i' rounds n count all h
          made =
        elim all [ ]
    serve_client-conversation (m ∷ ms) [] responses rest storage s i i' rounds n count all h made =
        elim all [ ]
    serve_client-conversation (m ∷ ms) (body ∷ bodies) [] rest storage s i i' rounds n count all h
          made =
        elim made [ ]
