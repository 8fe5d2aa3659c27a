-- ===== src/Server/Conversed.antt =====
-- What a thread of `serve_client` has done to its connection, phase by phase.
use kafka_cpp_server.Prelude.{◌≡◌, refl, ◌≢◌, ap, sym, ◌∙◌, ◌++◌, none}
use mathlib.Core.Path.{subst}
use kafka_cpp_server.Protocol.Types.{Bytes}
use kafka_cpp_server.Protocol.Outcome.{Outcome, ok, throw, undefined, unfinished}
use kafka_cpp_server.Protocol.Stream.{Readable, bytes_readable}
use kafka_cpp_server.Protocol.FileDescriptor.{Kernel, FileDescriptor, fd_readable, fd_writable}
use kafka_cpp_server.Protocol.Simulation.{Refines, IsStream}
use kafka_cpp_server.Protocol.Streams.{incoming}
use kafka_cpp_server.Protocol.Duplex.{duplex-IsStream}
use kafka_cpp_server.Message.Messages.{
  RequestMessage, AbstractResponse, read_request_message, write_response_message,
}
use kafka_cpp_server.Message.Framing.{sized}
use kafka_cpp_server.Message.Delivery.{parse_request_message, Simulates-request_message}
use kafka_cpp_server.Server.Handlers.{Environment, Storage}
use kafka_cpp_server.Server.Serve.{handle}
use kafka_cpp_server.Server.Alone.{result_of}
use kafka_cpp_server.Server.Answers.{answer_to, message_bytes, write_response_message-write_sized}
use kafka_cpp_server.Server.Conversation.{IsConnection, write_sized-both}
use kafka_cpp_server.Server.System.{
  Phase, reading, handling, writing, Thread, Failure, thrown, undefined_reached, failed_with,
}

pub result_and_state :
    {S A : Type 0} {a b : A} {s t : S}
    → ◌≡◌ {A = Outcome (A × S)} (ok (b, t)) (ok (a, s))
    → (b ≡ a) × (t ≡ s)
result_and_state h = (cc, cc)

-- What a result on a stream says of the bytes that it has.
to_abstract :
    {S A : Type 0} (valid : S → Type 0) (view : S → Bytes) (o : Outcome (A × S))
    (p : Outcome (A × Bytes)) {a : A} {s : S}
    → Refines valid view o p
    → o ≡ ok (a, s)
    → (p ≡ ok (a, view s)) × valid s
to_abstract valid view (ok (b, t)) (ok (c, u)) {s = s} (e, f, v) h =
    let (same, state) = result_and_state h in
    (
      ap (λ l. ok (c, l)) (sym f ∙ ap view state) ∙ ap (λ x. ok (x, view s)) (sym e ∙ same),
      subst valid state v,
    )
to_abstract valid view (throw x) (throw y) r h = cc
to_abstract valid view undefined undefined r h = cc
to_abstract valid view unfinished unfinished r h = cc
to_abstract valid view _ _ r h = absurd r

-- An exception, or undefined behaviour.
abbrev pub Fails : {A : Type 0} → Outcome A → Type 0
Fails (throw e) = Unit
Fails undefined = Unit
Fails _ = ⊥

failed_abstract :
    {S A : Type 0} (valid : S → Type 0) (view : S → Bytes) (o : Outcome (A × S))
    (p : Outcome (A × Bytes)) (failure : Failure)
    → Refines valid view o p
    → o ≡ failed_with failure
    → Fails p
failed_abstract valid view (throw x) (throw y) failure r h = tt
failed_abstract valid view undefined undefined failure r h = tt
failed_abstract valid view (ok p) (ok q) (thrown e) r h = cc
failed_abstract valid view (ok p) (ok q) undefined_reached r h = cc
failed_abstract valid view unfinished unfinished (thrown e) r h = cc
failed_abstract valid view unfinished unfinished undefined_reached r h = cc
failed_abstract valid view _ _ failure r h = absurd r

module _ {F K : Type 0} ⦃f : Readable F⦄ ⦃kernel : Kernel K⦄ (env : Environment F)
    (pending sent : K → Bytes) where
  -- A connection that came from `origin` by requests that were read from the bytes to come, and of
  -- which each was answered as on a broker that handles it first.
  pub data Conversed (origin : K) : K → Type 0 where
    begun : Conversed origin origin
    answered :
        {k : K} (k' : K) (m : RequestMessage) (response : AbstractResponse) (storage : Storage)
        → Conversed origin k
        → parse_request_message (pending k) ≡ ok (m, pending k')
        → result_of (handle env storage m none) ≡ ok response
        → sent k' ≡ sent k ++ sized (message_bytes (answer_to m response))
        → Conversed origin k'

  -- A request has been read of a connection, and nothing more.
  pub record Requested (origin now : K) (m : RequestMessage) : Type 0 where
    pub before : K
    pub conversed : Conversed origin before
    pub parsed : parse_request_message (pending before) ≡ ok (m, pending now)
    pub unanswered : sent now ≡ sent before

  abbrev pub PhaseInv : K → Phase K → Type 0
  PhaseInv origin (reading s) = Conversed origin s.fd
  PhaseInv origin (handling s m) = Requested origin s.fd m
  PhaseInv origin (writing s m response) =
      Requested origin s.fd m
      × (storage : Storage) × (result_of (handle env storage m none) ≡ ok response)

  abbrev pub ThreadInv : Thread K → Type 0
  ThreadInv t = PhaseInv t.origin t.phase

  module _ (connection : IsConnection pending sent) where
    duplex :
        (s : FileDescriptor K)
        → IsStream (λ (t : FileDescriptor K). sent t.fd ≡ sent s.fd) (incoming pending)
    duplex s = duplex-IsStream sent connection.reading_keeps pending (sent s.fd) connection.reliable

    pub Requested-read :
        (origin : K) (s s' : FileDescriptor K) (m : RequestMessage)
        → Conversed origin s.fd
        → read_request_message s ≡ ok (m, s')
        → Requested origin s'.fd m
    Requested-read origin s s' m c h =
        let (parsed, kept) =
          to_abstract (λ (t : FileDescriptor K). sent t.fd ≡ sent s.fd) (incoming pending) _ _
            ((Simulates-request_message _ _ (duplex s)).at s refl) h in
        record { before = s.fd; conversed = c; parsed = parsed; unanswered = kept }

    pub Conversed-write :
        (origin : K) (s s' : FileDescriptor K) (m : RequestMessage) (response : AbstractResponse)
        (storage : Storage)
        → Requested origin s.fd m
        → result_of (handle env storage m none) ≡ ok response
        → write_response_message (answer_to m response) s ≡ ok (tt, s')
        → Conversed origin s'.fd
    Conversed-write origin s s' m response storage q h e =
        let (t, made, all, left) =
          write_sized-both pending sent connection (message_bytes (answer_to m response)) s in
        let (_, same) =
          result_and_state
            (sym made ∙ sym (write_response_message-write_sized (answer_to m response) s) ∙ e) in
        answered s'.fd m response storage q.conversed
          (subst
            (λ (x : FileDescriptor K).
              parse_request_message (pending q.before) ≡ ok (m, pending x.fd))
            same (q.parsed ∙ ap (λ l. ok (m, l)) (sym left)))
          h
          (subst
            (λ (x : FileDescriptor K).
              sent x.fd ≡ sent q.before ++ sized (message_bytes (answer_to m response)))
            same (all ∙ ap (λ l. l ++ sized (message_bytes (answer_to m response))) q.unanswered))

    -- A request can fail to be read of what the client has sent alone.
    pub unread-Fails :
        (s : FileDescriptor K) (failure : Failure)
        → read_request_message s ≡ failed_with failure
        → Fails (parse_request_message (pending s.fd))
    unread-Fails s failure h =
        failed_abstract (λ (t : FileDescriptor K). sent t.fd ≡ sent s.fd) (incoming pending) _ _
          failure ((Simulates-request_message _ _ (duplex s)).at s refl) h

    -- An answer is always written.
    pub written_always :
        (s : FileDescriptor K) (m : RequestMessage) (response : AbstractResponse)
        (failure : Failure)
        → write_response_message (answer_to m response) s ≢ failed_with failure
    written_always s m response failure h =
        let (t, made, all, left) =
          write_sized-both pending sent connection (message_bytes (answer_to m response)) s in
        not_both failure
          (sym made ∙ sym (write_response_message-write_sized (answer_to m response) s) ∙ h)
      where
        not_both :
            {A : Type 0} {p : A} (failure : Failure)
            → ¬ (◌≡◌ {A = Outcome A} (ok p) (failed_with failure))
        not_both (thrown e) h = cc
        not_both undefined_reached h = cc
