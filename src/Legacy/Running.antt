-- ===== src/Legacy/Running.antt =====
-- The loop `run` of the first server: what its rounds come to, whatever the calls return.
use kafka_cpp_server.Prelude.{
  ℕ, zero, suc, ◌≡◌, refl, ap, ◌∙◌, List, [], ◌∷◌, ◌++◌, append_assoc, append-nil, length,
}
use kafka_cpp_server.Protocol.Outcome.{Exception, runtime_error, system_error, ok, unfinished}
use kafka_cpp_server.Protocol.FileDescriptor.{SysResult, failed, done}
use kafka_cpp_server.Legacy.Listening.{
  Calls, TcpServer, Accepting, after_thread, catch_exception, and_then, call_accept, after_accept,
  try_round, run_round, run,
}

-- What a round meets: `accept` fails, or the thread for the connection cannot be started, or it is.
pub data Attempt (K : Type 0) : Type 0 where
  not_accepted : Attempt K
  not_started : K → Attempt K
  started : K → Attempt K

-- The connections for which there is a thread.
abbrev pub with_thread : {K : Type 0} → List (Attempt K) → List K
with_thread [] = []
with_thread (started k ∷ attempts) = k ∷ with_thread attempts
with_thread (not_started k ∷ attempts) = with_thread attempts
with_thread (not_accepted ∷ attempts) = with_thread attempts

-- What is reported.
abbrev pub reports : {K : Type 0} → List (Attempt K) → List Exception
reports [] = []
reports (started k ∷ attempts) = reports attempts
reports (not_started k ∷ attempts) = system_error "thread" ∷ reports attempts
reports (not_accepted ∷ attempts) = runtime_error "Accept failed." ∷ reports attempts

module _ {W K : Type 0} ⦃calls : Calls W K⦄ where
  -- The calls of the kernel that make an attempt.
  abbrev pub Calling : SysResult K × TcpServer K × W → Attempt K → W → Type 0
  Calling (result, _, w) not_accepted w' = (result ≡ failed) × (w ≡ w')
  Calling (result, _, w) (not_started k) w' =
      (result ≡ done k) × (calls.sys_thread k w ≡ (failed, w'))
  Calling (result, _, w) (started k) w' = (result ≡ done k) × (calls.sys_thread k w ≡ (done tt, w'))

  -- Attempts one after the other, from an object and a network to an object and a network. `accept`
  -- puts the address of a client to the object.
  abbrev pub Attempted : TcpServer K → W → List (Attempt K) → TcpServer K → W → Type 0
  Attempted server w [] server' w' = (server ≡ server') × (w ≡ w')
  Attempted server w (attempt ∷ attempts) server' w' =
      (next : W) × Calling (call_accept server w) attempt next
      × Attempted (call_accept server w).1 next attempts server' w'

  -- The state behind a list of attempts.
  abbrev pub state_after :
      List (Attempt K) → TcpServer K → W → List K → List Exception → Accepting W K
  state_after attempts server w served reported = record {
    server = server;
    network = w;
    served = served ++ with_thread attempts;
    reported = reported ++ reports attempts;
  }

  thread_attempt :
      (client_fd : K) (server : TcpServer K) (w : W) (served : List K) (reported : List Exception)
      (r : SysResult (Unit {0}) × W)
      → calls.sys_thread client_fd w ≡ r
      → (attempt : Attempt K) × (next : W) × Calling (done client_fd, server, w) attempt next
        × (catch_exception (
              after_thread client_fd
                (record { server = server; network = w; served = served; reported = reported })
                r)
            ≡ (ok tt, state_after (attempt ∷ []) server next served reported))
  unfolding catch_exception after_thread
  thread_attempt client_fd server w served reported (failed, next) e =
      (not_started client_fd, next, (refl, e), rw append-nil refl)
  thread_attempt client_fd server w served reported (done _, next) e =
      (started client_fd, next, (refl, e), rw append-nil refl)

  accept_attempt :
      (r : SysResult K) (server : TcpServer K) (w : W) (served : List K) (reported : List Exception)
      → (attempt : Attempt K) × (next : W) × Calling (r, server, w) attempt next
        × (catch_exception (
              after_accept r
                (record { server = server; network = w; served = served; reported = reported }))
            ≡ (ok tt, state_after (attempt ∷ []) server next served reported))
  unfolding catch_exception after_accept
  accept_attempt failed server w served reported =
      (not_accepted, w, (refl, refl), rw append-nil refl)
  accept_attempt (done client_fd) server w served reported =
      thread_attempt client_fd server w served reported (calls.sys_thread client_fd w) refl

  round_attempt :
      (server : TcpServer K) (w : W) (served : List K) (reported : List Exception)
      → (attempt : Attempt K) × (next : W) × Calling (call_accept server w) attempt next
        × (run_round (record { server = server; network = w; served = served; reported = reported })
            ≡ (ok tt, state_after (attempt ∷ []) (call_accept server w).1 next served reported))
  unfolding run_round try_round
  round_attempt server w served reported =
      accept_attempt (call_accept server w).0 (call_accept server w).1 (call_accept server w).2
        served reported

  state_after-state_after :
      (attempt : Attempt K) (attempts : List (Attempt K)) (server : TcpServer K) (w : W)
      (served : List K) (reported : List Exception)
      → state_after attempts server w
          (served ++ with_thread (attempt ∷ []))
          (reported ++ reports (attempt ∷ []))
        ≡ state_after (attempt ∷ attempts) server w served reported
  state_after-state_after not_accepted attempts server w served reported =
      rw (append_assoc served, append_assoc reported) refl
  state_after-state_after (not_started k) attempts server w served reported =
      rw (append_assoc served, append_assoc reported) refl
  state_after-state_after (started k) attempts server w served reported =
      rw (append_assoc served, append_assoc reported) refl

  -- Whatever the calls return, no exception leaves `run`, and nothing else ends it: after any number
  -- of rounds it is about to begin another. In each round, one after the other, `accept` has failed,
  -- or a connection was accepted and `std::thread` has thrown, or its thread was started. `run` has
  -- started threads just for the connections of the last kind, in their order, and it has reported
  -- the error of each other round, in their order.
  pub run-serves :
      (rounds : ℕ) (server : TcpServer K) (w : W) (served : List K) (reported : List Exception)
      → (attempts : List (Attempt K)) × (server' : TcpServer K) × (w' : W) × (length attempts
          ≡ rounds)
        × Attempted server w attempts server' w'
        × (run rounds
              (record { server = server; network = w; served = served; reported = reported })
            ≡ (unfinished, state_after attempts server' w' served reported))
  unfolding run and_then
  run-serves zero server w served reported =
      ([], server, w, refl, (refl, refl), rw (append-nil served, append-nil reported) refl)
  run-serves (suc rounds) server w served reported =
      let (attempt, next, calling, round) = round_attempt server w served reported in
      let (attempts, server', w', count, more, rest) =
        run-serves rounds (call_accept server w).1 next (served ++ with_thread (attempt ∷ []))
          (reported ++ reports (attempt ∷ [])) in
      (
        attempt ∷ attempts,
        server',
        w',
        ap suc count,
        (next, calling, more),
        rw (run, round) rest
            ∙ ap (λ l. (unfinished, l))
                (state_after-state_after attempt attempts server' w' served reported),
      )
