-- ===== src/Server/Exchange.antt =====
-- Both ends of a connection: what a client makes of the bytes that `serve_client` has sent to it.
use kafka_cpp_server.Prelude.{
  ℕ, suc, ◌+◌, ◌^◌, ◌<◌, ◌≡◌, refl, sym, List, [], ◌∷◌, ◌++◌, append_assoc, Option, All, eq→==,
  ne→==, length, ◌==◌, if◌then◌else◌,
}
use mathlib.Core.Path.{subst}
use native.Mathlib.Decide.{ℕ_discrete}
use kafka_cpp_server.Protocol.Types.{Bytes}
use kafka_cpp_server.Protocol.Constants
use kafka_cpp_server.Protocol.Constants.{ApiKey}
use kafka_cpp_server.Protocol.Outcome.{
  Outcome, Io, then_run, undefined_behaviour, ok, throw, undefined, unfinished, ◌>>=◌, pure,
}
use kafka_cpp_server.Protocol.Stream.{Readable}
use kafka_cpp_server.Protocol.FileDescriptor.{Kernel, FileDescriptor, fd_readable, fd_writable}
use kafka_cpp_server.Metadata.Cluster.{ClusterMetadata}
use kafka_cpp_server.Message.Messages.{
  RequestMessage, AbstractResponse, ResponseMessage, response_api_key,
}
use kafka_cpp_server.Message.Framing.{sized}
use kafka_cpp_server.Message.Responses.{Reader, read_response_message}
use kafka_cpp_server.Message.Received.{IsResponseMessage, response_message_read}
use kafka_cpp_server.Server.Handlers.{Environment, Storage}
use kafka_cpp_server.Server.Instance.{IsInstance}
use kafka_cpp_server.Server.Ranges.{IsStorage, IsBroker}
use kafka_cpp_server.Server.HandleRanges.{handle-IsResponse}
use kafka_cpp_server.Server.Serve.{handle, serve_client}
use kafka_cpp_server.Server.Answers.{answer_to, message_bytes}
use kafka_cpp_server.Server.Conversation.{
  SentAll, all_sized, answers, later, Handled, IsConnection, serve_client-conversation,
}

-- The response, if there is one, is one of the key.
abbrev Answers : {S : Type 0} → ApiKey → Outcome (AbstractResponse × S) → Type 0
Answers key (ok (response, s)) = response_api_key response ≡ key
Answers key _ = Unit

module _ {S : Type 0} (key : ApiKey) (s : S) where
  Answers-last :
      {A : Type 0} (m : Io S A) (g : A → AbstractResponse)
      → ((a : A) → response_api_key (g a) ≡ key)
      → Answers key ((m >>= λ a. pure (g a)) s)
  unfolding ◌>>=◌ pure
  Answers-last {A = A} m g h = go (m s)
    where
      go : (o : Outcome (A × S)) → Answers key (then_run (λ a. pure (g a)) o)
      go (ok (a, t)) = h a
      go (throw e) = tt
      go undefined = tt
      go unfinished = tt

  Answers-if :
      (n : ℕ) (x y : Io S AbstractResponse)
      → (n ≡ key → Answers key (x s))
      → Answers key (y s)
      → Answers key ((if key == n then x else y) s)
  Answers-if n x y h k = elim (ℕ_discrete key n) [
    | yes e ↦ rw (eq→== key n e) (h (sym e))
    | no e ↦ rw (ne→== key n e) k
  ]

module _ {F : Type 0} ⦃f : Readable F⦄ (env : Environment F) where
  -- A response comes from the handler of its own kind.
  handle-Answers :
      (storage : Storage) (m : RequestMessage) (i : Option ClusterMetadata)
      → Answers m.header.request_api_key (handle env storage m i)
  unfolding handle response_api_key pure undefined_behaviour
  handle-Answers storage m i =
      let key = m.header.request_api_key in
      Answers-if key i Constants.fetch _ _ (λ e. Answers-last key i _ _ (λ r. e))
        (Answers-if key i Constants.api_versions _ _ (λ e. e)
          (Answers-if key i Constants.describe_topic_partitions _ _
            (λ e. Answers-last key i _ _ (λ r. e)) tt))

-- What the client reads, knowing which requests it has sent.
abbrev pub read_answers : List RequestMessage → Reader (List ResponseMessage)
read_answers [] = pure []
read_answers (m ∷ ms) = do
  answer ← read_response_message m.header.request_api_key
  answers ← read_answers ms
  pure (answer ∷ answers)

abbrev pub all_answers : List RequestMessage → List AbstractResponse → List ResponseMessage
all_answers (m ∷ ms) (response ∷ responses) = answer_to m response ∷ all_answers ms responses
all_answers _ _ = []

module _ {F : Type 0} ⦃f : Readable F⦄ (env : Environment F) where
  answers_read :
      (storage : ℕ → Storage) (i i' : Option ClusterMetadata) (ms : List RequestMessage)
      (responses : List AbstractResponse) (rest : Bytes)
      → Handled env storage i ms responses i'
      → All IsResponseMessage (all_answers ms responses)
      → read_answers ms (answers ms responses ++ rest) ≡ ok (all_answers ms responses, rest)
  unfolding ◌>>=◌ pure
  answers_read storage i i' [] [] rest handled valid = refl
  answers_read storage i i' (m ∷ ms) (response ∷ responses) rest (j, handled, more) (v, valid) =
      let key : response_api_key response ≡ m.header.request_api_key =
        subst (Answers m.header.request_api_key) handled (handle-Answers env (storage 0) m i) in
      rw (
        append_assoc (sized (message_bytes (answer_to m response))) (answers ms responses) rest,
        ← key,
        response_message_read (answer_to m response) _ v,
        answers_read (λ n. storage (suc n)) j i' ms responses rest more valid,
      )
  answers_read storage i i' [] (response ∷ responses) rest handled valid = elim handled [ ]
  answers_read storage i i' (m ∷ ms) [] rest handled valid = elim handled [ ]

-- The size of a message can be counted by its prefix.
abbrev pub IsCounted : ResponseMessage → Type 0
IsCounted message = length (message_bytes message) < 2 ^ 31

module _ {F : Type 0} ⦃f : Readable F⦄ (env : Environment F) (valid : F → Type 0) (view : F → Bytes)
    (broker : IsBroker env valid view) where
  all_answers-valid :
      (storage : ℕ → Storage) (i i' : Option ClusterMetadata) (ms : List RequestMessage)
      (bodies : List Bytes) (responses : List AbstractResponse)
      → SentAll ms bodies
      → ((r : ℕ) → IsStorage (storage r))
      → IsInstance env i
      → Handled env storage i ms responses i'
      → All IsCounted (all_answers ms responses)
      → All IsResponseMessage (all_answers ms responses)
  all_answers-valid storage i i' [] [] responses sent stored made handled counted = tt
  all_answers-valid storage i i' (m ∷ ms) (body ∷ bodies) (response ∷ responses) (v, sent) stored
        made (j, handled, more) (fits, counted) =
      let (valid_response, made') =
        handle-IsResponse env valid view (storage 0) m i j response broker (stored 0)
          v.request_valid made handled in
      (
        record {
          correlation_id_fits = v.header_valid.correlation_id_fits;
          response_valid = valid_response;
          size_fits = fits;
        },
        all_answers-valid (λ n. storage (suc n)) j i' ms bodies responses sent (λ r. stored (suc r))
            made' more counted,
      )
  all_answers-valid storage i i' (m ∷ ms) (body ∷ bodies) [] sent stored made handled counted = tt
  all_answers-valid storage i i' [] (body ∷ bodies) responses sent stored made handled counted =
      elim sent [ ]
  all_answers-valid storage i i' (m ∷ ms) [] responses sent stored made handled counted =
      elim sent [ ]

module _ {K : Type 0} ⦃kernel : Kernel K⦄ (pending sent : K → Bytes)
    (connection : IsConnection pending sent) {F : Type 0} ⦃f : Readable F⦄ (env : Environment F)
    (valid : F → Type 0) (view : F → Bytes) where
  -- On a connection that delivers and sends as documented, a client has sent request messages, one
  -- after the other and perhaps more behind them. The logs are as `IsBroker` says, the storage of the
  -- fields that nothing sets held integers of their widths, the instance of ClusterMetadata is not
  -- made or is what the constructor makes of the files, and the handlers answer the requests in turn,
  -- with messages of fewer than 2 ^ 31 bytes. Then `serve_client` serves them in as many rounds,
  -- comes to a state in which what was behind the requests is to come, and goes on from there with
  -- the rounds left; and what it has added to the bytes sent to the client, followed by anything, is
  -- read by the client, message by message, as the responses in the order of the requests, each with
  -- the correlation id of its request.
  pub serve_client-exchange :
      (ms : List RequestMessage) (bodies : List Bytes) (responses : List AbstractResponse)
      (rest : Bytes) (storage : ℕ → Storage) (s : FileDescriptor K) (i i' : Option ClusterMetadata)
      (rounds n : ℕ)
      → rounds ≡ length ms + n
      → SentAll ms bodies
      → pending s.fd ≡ all_sized bodies ++ rest
      → Handled env storage i ms responses i'
      → IsBroker env valid view
      → ((r : ℕ) → IsStorage (storage r))
      → IsInstance env i
      → All IsCounted (all_answers ms responses)
      → (s' : FileDescriptor K) × (wire : Bytes) × (serve_client env rounds storage
            (record { client = s; instance_made = i })
          ≡ serve_client env n
              (later (length ms) storage)
              (record { client = s'; instance_made = i' }))
        × (sent s'.fd ≡ sent s.fd ++ wire)
        × (pending s'.fd ≡ rest)
        × ((more : Bytes) → read_answers ms (wire ++ more) ≡ ok (all_answers ms responses, more))
  serve_client-exchange ms bodies responses rest storage s i i' rounds n count all h handled broker
        stored made counted =
      let (s', served, all_sent, left) =
        serve_client-conversation pending sent connection env ms bodies responses rest storage s i
          i' rounds n count all h handled in
      (
        s',
        answers ms responses,
        served,
        all_sent,
        left,
        λ more. answers_read env storage i i' ms responses more handled (
            all_answers-valid env valid view broker storage i i' ms bodies responses all stored made
              handled counted),
      )
