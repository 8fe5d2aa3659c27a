-- ===== src/Legacy/Lifetime.antt =====
-- What the destructor of `TCPServer` finds in `client_fd`.
use kafka_cpp_server.Prelude.{
  ℕ, zero, suc, ◌≡◌, ◌⊎◌, inl, inr, refl, ap, sym, ◌∙◌, List, [], ◌∷◌, Option, none, some,
}
use mathlib.Core.Path.{subst}
use kafka_cpp_server.Protocol.Outcome.{ok, undefined, unfinished}
use kafka_cpp_server.Protocol.FileDescriptor.{SysResult, failed, done}
use kafka_cpp_server.Server.Listening.{SocketAddress}
use kafka_cpp_server.Legacy.Listening.{
  Calls, ClientFd, indeterminate, set, TcpServer, Constructed, backlog, Accepting, listened, bound,
  reusing, with_socket, new_tcp_server, call_accept, run, close_accepted, destroy_server,
}
use kafka_cpp_server.Legacy.Running.{Attempt, Attempted, state_after, run-serves}

-- A constructor that returns has made an object whose `client_fd` is this one.
abbrev Leaves : {W K : Type 0} → ClientFd K → Constructed W K → Type 0
Leaves before (ok server, w) = server.client_fd ≡ before
Leaves before (_, w) = Unit

module _ {W : Type 0} (K : Type 0) ⦃calls : Calls W K⦄ (before : ClientFd K) where
  listened-Leaves :
      (server : TcpServer K) (r : SysResult (Unit {0}) × W)
      → server.client_fd ≡ before
      → Leaves before (listened K server r)
  unfolding listened
  listened-Leaves server (failed, w) h = tt
  listened-Leaves server (done _, w) h = h

  bound-Leaves :
      (server : TcpServer K) (r : SysResult (Unit {0}) × W)
      → server.client_fd ≡ before
      → Leaves before (bound K server r)
  unfolding bound
  bound-Leaves server (failed, w) h = tt
  bound-Leaves server (done _, w) h =
      listened-Leaves server (calls.sys_listen server.server_fd backlog w) h

  reusing-Leaves :
      (server : TcpServer K) (r : SysResult (Unit {0}) × W)
      → server.client_fd ≡ before
      → Leaves before (reusing K server r)
  unfolding reusing
  reusing-Leaves server (failed, w) h = tt
  reusing-Leaves server (done _, w) h =
      bound-Leaves server (calls.sys_bind server.server_fd server.address w) h

  with_socket-Leaves :
      (address : SocketAddress) (r : Option ℕ × W) → Leaves before (with_socket K before address r)
  unfolding with_socket
  with_socket-Leaves address (some zero, w) = tt
  with_socket-Leaves address (some (suc fd), w) = reusing-Leaves _ _ refl
  with_socket-Leaves address (none, w) = reusing-Leaves _ _ refl

  new_tcp_server-Leaves : (port : ℕ) (w : W) → Leaves before (new_tcp_server K before port w)
  unfolding new_tcp_server
  new_tcp_server-Leaves port w = with_socket-Leaves _ (calls.sys_socket w)

module _ {W K : Type 0} ⦃calls : Calls W K⦄ where
  members_kept :
      (attempts : List (Attempt K)) (server server' : TcpServer K) (w w' : W)
      → Attempted server w attempts server' w'
      → (server'.client_fd ≡ server.client_fd) × (server'.server_fd ≡ server.server_fd)
  unfolding call_accept
  members_kept [] server server' w w' (same, _) =
      (ap (λ s. s.client_fd) (sym same), ap (λ s. s.server_fd) (sym same))
  members_kept (attempt ∷ attempts) server server' w w' (next, _, more) =
      members_kept attempts (call_accept server w).1 server' next w' more

  -- What the destructor does to the network.
  abbrev pub Destroyed : ClientFd K → Option ℕ → Accepting W K → Type 0
  Destroyed before server_fd l =
      ((before ≡ indeterminate) × (destroy_server l.server l.network ≡ undefined))
      ⊎ ((client : SysResult K) × (before ≡ set client)
          × (destroy_server l.server l.network
              ≡ ok (calls.sys_close server_fd (close_accepted client l.network))))

  destroyed :
      (before : ClientFd K) (server_fd : Option ℕ) (l : Accepting W K)
      → l.server.client_fd ≡ before
      → l.server.server_fd ≡ server_fd
      → Destroyed before server_fd l
  unfolding destroy_server
  destroyed indeterminate server_fd l client socket = inl (refl, rw (destroy_server, client) refl)
  destroyed (set r) server_fd l client socket =
      inr (r, refl, rw (destroy_server, client, socket) refl)

  -- The constructor and the rounds of `run`, which accept clients, leave in `client_fd` what the
  -- storage of the object held before. So the destructor, called after any number of rounds, is
  -- undefined behaviour if the storage had no value; else it closes the descriptor that the storage
  -- held by chance, unless that is negative, and then the socket that the constructor has opened.
  pub destroy_server_lem :
      (before : ClientFd K) (port : ℕ) (w w' : W) (server : TcpServer K) (rounds : ℕ)
      → new_tcp_server K before port w ≡ (ok server, w')
      → (l : Accepting W K) × (run rounds
            (record { server = server; network = w'; served = []; reported = [] })
          ≡ (unfinished, l))
        × Destroyed before server.server_fd l
  destroy_server_lem before port w w' server rounds e =
      let unset : server.client_fd ≡ before =
        subst (Leaves before) e (new_tcp_server-Leaves K before port w) in
      let (attempts, server', w2, _, made, ran) = run-serves rounds server w' [] [] in
      let (client, socket) = members_kept attempts server server' w' w2 made in
      let l = state_after attempts server' w2 [] [] in
      (l, ran, destroyed before server.server_fd l (client ∙ unset) socket)
