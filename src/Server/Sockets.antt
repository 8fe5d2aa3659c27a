-- ===== src/Server/Sockets.antt =====
-- The life of Server objects (include/kafka/network/server.hpp), which own their listening sockets as
-- FileDescriptor objects own their descriptors.
use kafka_cpp_server.Prelude.{ℕ, ◌≡◌, refl, ap, sym, ◌∙◌, none, some}
use kafka_cpp_server.Protocol.Outcome.{Outcome, ok, ◌>>=◌, >>=-eq-ok, pure}
use kafka_cpp_server.Protocol.FileDescriptor.{done}
use kafka_cpp_server.Protocol.Owners.{
  Owned, to_close, Owner, Objects, Lives, Balanced, life_balance,
}
use kafka_cpp_server.Server.Listening.{
  Sockets, Server, check_call, new_server, move_server, assign_server, close_listener,
  server_address, backlog,
}

same_result :
    {W A : Type 0} {a b : A} {w v : W} → ◌≡◌ {A = Outcome (A × W)} (ok (a, w)) (ok (b, v)) → a ≡ b
same_result h = cc

module _ (W K : Type 0) ⦃sockets : Sockets W K⦄ where
  -- The constructor has made the object, on a network whose call of `socket` returns the descriptor.
  abbrev pub Opened : ℕ → Server → Type 0
  Opened fd server =
      (w : W) × (w' : W) × (after : W) × (sockets.sys_socket w ≡ (done fd, w'))
      × (new_server K w ≡ ok (server, after))

  -- The constructor after the call of `socket`.
  set_up_owner :
      (fd : ℕ) (server : Server) (w after : W)
      → ((λ u. check_call "setsockopt" (sockets.sys_set_reuse fd 1 u)) >>= (λ _.
            (λ u. check_call "bind" (sockets.sys_bind fd server_address u)) >>= (λ _.
              (λ u. check_call "listen" (sockets.sys_listen fd backlog u))
              >>= (λ _. pure (record { server_socket = some fd })))))
          w
        ≡ ok (server, after)
      → server.server_socket ≡ some fd
  unfolding pure
  set_up_owner fd server w after e =
      let (_, u, _, bind) = >>=-eq-ok _ _ w e in
      let (_, v, _, listen) = >>=-eq-ok _ _ u bind in
      let (_, t, _, last) = >>=-eq-ok _ _ v listen in
      ap (λ (s : Server). s.server_socket) (sym (same_result last))

  pub Opened-owner : (fd : ℕ) (server : Server) → Opened fd server → server.server_socket ≡ some fd
  unfolding new_server
  Opened-owner fd server (w, w', after, made, e) =
      let (fd', u, first, rest) = >>=-eq-ok _ _ w e in
      set_up_owner fd' server u after rest
      ∙ ap some (sym (same_result (sym (ap (check_call "socket") made) ∙ first)))

pub close_listener_lem : (server : Server) → close_listener server ≡ to_close server.server_socket
unfolding close_listener
close_listener_lem server = go server.server_socket refl
  where
    go :
        (o : Owned)
        → server.server_socket ≡ o
        → close_listener server ≡ to_close server.server_socket
    go none e = rw (close_listener, e)
    go (some fd) e = rw (close_listener, e)

pub move_server_lem :
    (other : Server)
    → ((move_server other).0.server_socket ≡ other.server_socket)
      × ((move_server other).1.server_socket ≡ none)
unfolding move_server
move_server_lem other = (refl, refl)

pub assign_server_lem :
    (this other : Server)
    → ((assign_server this other).0.server_socket ≡ other.server_socket)
      × ((assign_server this other).1.server_socket ≡ this.server_socket)
unfolding assign_server
assign_server_lem this other = (refl, refl)

abbrev pub servers : (W K : Type 0) ⦃sockets : Sockets W K⦄ → Owner Server
servers W K = record {
  Makes = Opened W K;
  moved = move_server;
  assigned = assign_server;
  closes = close_listener;
  owned = λ server. server.server_socket;
  makes_owner = Opened-owner W K;
  moved_owner = move_server_lem;
  assigned_owner = assign_server_lem;
  closes_owned = close_listener_lem;
}

-- The kernel hands over only sockets that are not open, and no constructor throws. Then after any
-- sequence of constructions, moves, assignments and destructions of Server objects, each listening
-- socket was closed once for each time that it was handed over, but for the last time if a live
-- object owns it; and no two live objects own it.
pub servers-Balanced :
    (W K : Type 0) ⦃sockets : Sockets W K⦄ {s : Objects Server} (n : ℕ)
    → Lives (servers W K) s
    → Balanced (servers W K) n s
servers-Balanced W K n lives = life_balance (servers W K) n lives
