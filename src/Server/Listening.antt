-- ===== src/Server/Listening.antt =====
-- `Server` of include/kafka/network/server.hpp and src/network/server.cpp: the listening socket and the
-- loop that accepts clients. The socket calls are a parameter.
use Prim.Native.String.{String}
use kafka_cpp_server.Prelude.{ℕ, zero, suc, List, [], ◌∷◌, ◌++◌, Option, none, some}
use kafka_cpp_server.Protocol.Outcome.{
  Outcome, Io, ok, throw, undefined, unfinished, system_error, ◌>>=◌, ◌>>◌, pure, out_of_fuel,
}
use kafka_cpp_server.Protocol.ByteOrder.{native_endian, to_network_byte_order}
use kafka_cpp_server.Protocol.Owners.{Owned}
use kafka_cpp_server.Protocol.FileDescriptor.{SysResult, failed, done, FileDescriptor}

-- `errno` after a failed `accept`, as far as the program looks at it.
pub data Errno : Type 0 where
  econnaborted eintr : Errno
  other_error : ℕ → Errno

-- What `accept` returns: a connection, or a negative number.
pub data Accepted (K : Type 0) : Type 0 where
  client : K → Accepted K
  no_client : Errno → Accepted K

-- The two fields of a `sockaddr_in` of the family AF_INET, as they stand in memory.
pub record SocketAddress : Type 0 where
  pub sin_addr : ℕ
  pub sin_port : ℕ

-- The socket calls on the state `W` of the network. `K` is what the kernel knows of a connection.
pub record Sockets (W K : Type 0) : Type 0 where
  -- `socket(AF_INET, SOCK_STREAM, 0)`
  pub sys_socket : W → SysResult ℕ × W
  -- `setsockopt(fd, SOL_SOCKET, SO_REUSEADDR, &reuse, sizeof(reuse))`
  pub sys_set_reuse : ℕ → ℕ → W → SysResult (Unit {0}) × W
  pub sys_bind : ℕ → SocketAddress → W → SysResult (Unit {0}) × W
  pub sys_listen : ℕ → ℕ → W → SysResult (Unit {0}) × W
  -- `accept(fd, nullptr, nullptr)`, with the connection or with `errno`.
  pub sys_accept : Owned → W → Accepted K × W

-- A result below 0 throws.
unfoldable pub check_call : {W A : Type 0} → String → SysResult A × W → Outcome (A × W)
check_call name (failed, w) = throw (system_error name)
check_call name (done a, w) = ok (a, w)

-- A socket below 0 is `none`.
pub record Server : Type 0 where
  pub server_socket : Owned

-- The move constructor, `std::exchange(other.server_socket_, -1)`: the new object and the other.
unfoldable pub move_server : Server → Server × Server
move_server other =
    (record { server_socket = other.server_socket }, record other { server_socket = none })

-- The move assignment, `std::swap(server_socket_, other.server_socket_)`.
unfoldable pub assign_server : Server → Server → Server × Server
assign_server this other = (
  record this { server_socket = other.server_socket },
  record other { server_socket = this.server_socket },
)

-- The destructor of Server, with the sockets that it closes.
unfoldable pub close_listener : Server → List ℕ
close_listener server = elim server.server_socket [ none ↦ [] | some fd ↦ fd ∷ [] ]

abbrev pub port : ℕ
port = 9092

-- INADDR_ANY
abbrev pub any_address : ℕ
any_address = 0

abbrev pub backlog : ℕ
backlog = 5

abbrev pub server_address : SocketAddress
server_address = record {
  sin_addr = to_network_byte_order native_endian 4 any_address;
  sin_port = to_network_byte_order native_endian 2 port;
}

-- What the loop knows: the network, and the clients for which it has started a thread.
pub record Listener (W K : Type 0) : Type 0 where
  pub network : W
  pub served : List (FileDescriptor K)

module _ {W : Type 0} (K : Type 0) ⦃sockets : Sockets W K⦄ where
  -- The constructor.
  unfoldable pub new_server : Io W Server
  unfolding check_call
  new_server = do
    server_socket ← (λ w. check_call "socket" (sockets.sys_socket w))
    reuse ← (λ w. check_call "setsockopt" (sockets.sys_set_reuse server_socket 1 w))
    bound ← (λ w. check_call "bind" (sockets.sys_bind server_socket server_address w))
    listening ← (λ w. check_call "listen" (sockets.sys_listen server_socket backlog w))
    pure (record { server_socket = some server_socket })

module _ {K : Type 0} where
  -- A round of `start` after `accept`: a client for which a thread is started, or `continue`, or the
  -- exception.
  unfoldable pub after_accept : Accepted K → Outcome (Option (FileDescriptor K))
  after_accept (client k) = ok (some (record { fd = k }))
  after_accept (no_client econnaborted) = ok none
  after_accept (no_client eintr) = ok none
  after_accept (no_client (other_error n)) = throw (system_error "accept")

  unfoldable pub started :
      Option (FileDescriptor K) → List (FileDescriptor K) → List (FileDescriptor K)
  started none served = served
  started (some c) served = served ++ c ∷ []

  unfoldable pub start_thread :
      {W : Type 0}
      → List (FileDescriptor K)
      → W
      → Outcome (Option (FileDescriptor K))
      → Outcome (Unit {0} × Listener W K)
  unfolding started
  start_thread served w (ok c) = ok (tt, record { network = w; served = started c served })
  start_thread served w (throw e) = throw e
  start_thread served w undefined = undefined
  start_thread served w unfinished = unfinished

module _ {W K : Type 0} ⦃sockets : Sockets W K⦄ where
  unfoldable pub accept_round : Server → Io (Listener W K) (Unit {0})
  unfolding start_thread after_accept
  accept_round server l =
      let (result, w) = sockets.sys_accept server.server_socket l.network in
      start_thread l.served w (after_accept result)

  -- `for ( ; ; )`: the loop is left by an exception alone.
  unfoldable pub start : ℕ → Server → Io (Listener W K) (Unit {0})
  start zero server = out_of_fuel
  start (suc rounds) server = do accept_round server; start rounds server

  -- `kafka::Server().start();` of `main`, on a network without clients.
  unfoldable pub main : ℕ → W → Outcome (Unit {0} × Listener W K)
  unfolding new_server start
  main rounds w = elim (new_server K w) [
    | ok p ↦ start rounds p.0 (record { network = p.1; served = [] })
    | throw e ↦ throw e
    | undefined ↦ undefined
    | unfinished ↦ unfinished
  ]
