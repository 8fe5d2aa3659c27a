-- ===== src/Server/Accepting.antt =====
-- Which clients the program serves.
use kafka_cpp_server.Prelude.{
  ℕ, suc, ◌+◌, ◌≡◌, refl, ap, ◌∙◌, List, [], ◌∷◌, ◌++◌, append_assoc, append-nil, some, length,
  arith,
}
use kafka_cpp_server.Protocol.Outcome.{ok, ◌>>=◌, pure}
use kafka_cpp_server.Protocol.FileDescriptor.{FileDescriptor, done}
use kafka_cpp_server.Server.Listening.{
  Errno, econnaborted, eintr, other_error, Accepted, client, no_client, Sockets, Server, Listener,
  backlog, server_address, check_call, new_server, after_accept, started, start_thread,
  accept_round, start,
}

-- An error for which the loop goes on.
abbrev pub IsTransient : Errno → Type 0
IsTransient (other_error n) = ⊥
IsTransient _ = Unit

abbrev pub IsServable : {K : Type 0} → Accepted K → Type 0
IsServable (client k) = Unit
IsServable (no_client e) = IsTransient e

-- The connections among what `accept` returned.
abbrev pub connections : {K : Type 0} → List (Accepted K) → List (FileDescriptor K)
connections [] = []
connections (client k ∷ rest) = record { fd = k } ∷ connections rest
connections (no_client e ∷ rest) = connections rest

all_left : (n rounds : ℕ) → rounds ≡ 0 + n → rounds ≡ n
all_left n rounds h = omega arith

connections-cons :
    {K : Type 0} (result : Accepted K) (results : List (Accepted K))
    → connections (result ∷ []) ++ connections results ≡ connections (result ∷ results)
connections-cons (client k) results = refl
connections-cons (no_client e) results = refl

module _ {W K : Type 0} ⦃sockets : Sockets W K⦄ (server : Server) where
  -- Calls of `accept` one after the other return these results, none of which ends the loop.
  abbrev pub Accepts : W → List (Accepted K) → W → Type 0
  Accepts w [] w' = w ≡ w'
  Accepts w (result ∷ results) w' =
      (next : W) × (sockets.sys_accept server.server_socket w ≡ (result, next))
      × IsServable result
      × Accepts next results w'

  round-served :
      (w next : W) (served : List (FileDescriptor K)) (result : Accepted K)
      → sockets.sys_accept server.server_socket w ≡ (result, next)
      → IsServable result
      → accept_round server (record { network = w; served = served })
        ≡ ok (tt, record { network = next; served = served ++ connections (result ∷ []) })
  unfolding accept_round start_thread after_accept started
  round-served w next served (client k) e h = rw e
  round-served w next served (no_client econnaborted) e h = rw (e, append-nil)
  round-served w next served (no_client eintr) e h = rw (e, append-nil)
  round-served w next served (no_client (other_error n)) e h = elim h [ ]

  start-step :
      (rounds : ℕ) (l : Listener W K) {l' : Listener W K}
      → accept_round server l ≡ ok (tt, l')
      → start (suc rounds) server l ≡ start rounds server l'
  unfolding start ◌>>=◌
  start-step rounds l h = rw h

  -- In as many rounds as calls of `accept`, `start` comes to a state in which it has started a thread for
  -- each connection.
  pub start-serves :
      (results : List (Accepted K)) (w w' : W) (served : List (FileDescriptor K)) (rounds n : ℕ)
      → rounds ≡ length results + n
      → Accepts w results w'
      → start rounds server (record { network = w; served = served })
        ≡ start n server (record { network = w'; served = served ++ connections results })
  start-serves [] w w' served rounds n count h =
      ap (λ (k : ℕ). start k server (record { network = w; served = served }))
        (all_left n rounds count)
      ∙ rw (append-nil, h) refl
  start-serves (result ∷ results) w w' served rounds n count (next, e, fine, more) =
      ap (λ (k : ℕ). start k server (record { network = w; served = served }))
        (one_more (length results) n rounds count)
      ∙ start-step (length results + n) _ (round-served w next served result e fine)
      ∙ start-serves results next w' (served ++ connections (result ∷ [])) (length results + n) n
          refl more
      ∙ ap (λ l. start n server (record { network = w'; served = l }))
          (append_assoc served (connections (result ∷ [])) (connections results)
            ∙ ap (λ l. served ++ l) (connections-cons result results))
    where
      one_more : (k n rounds : ℕ) → rounds ≡ suc k + n → rounds ≡ suc (k + n)
      one_more k n rounds h = omega arith

-- The calls of the constructor succeed, with the address and the backlog that it asks for.
pub record Opens {W : Type 0} (K : Type 0) ⦃sockets : Sockets W K⦄ (w : W) (server_socket : ℕ)
    (w' : W) : Type 0 where
  pub socket_made : W
  pub address_reused : W
  pub bound : W
  pub makes : sockets.sys_socket w ≡ (done server_socket, socket_made)
  pub reuses : sockets.sys_set_reuse server_socket 1 socket_made ≡ (done tt, address_reused)
  pub binds : sockets.sys_bind server_socket server_address address_reused ≡ (done tt, bound)
  pub listens : sockets.sys_listen server_socket backlog bound ≡ (done tt, w')

abbrev pub opened_server : ℕ → Server
opened_server server_socket = record { server_socket = some server_socket }

pub new_server-Opens :
    {W : Type 0} (K : Type 0) ⦃sockets : Sockets W K⦄ (w : W) (server_socket : ℕ) (w' : W)
    → Opens K w server_socket w'
    → new_server K w ≡ ok (opened_server server_socket, w')
unfolding new_server check_call ◌>>=◌ pure
new_server-Opens K w server_socket w' h = rw (h.makes, h.reuses, h.binds, h.listens)
