-- ===== src/Legacy/Listening.antt =====
-- `TCPServer` of src/TCPServer.cpp without `processRequest`: the constructor, the destructor, the loop
-- `run`, and `sendResponse`, which nothing calls. The socket calls are a parameter; a socket descriptor below 0 is `none`.
use Prim.Native.String.{String}
use kafka_cpp_server.Prelude.{ℕ, zero, suc, List, [], ◌∷◌, ◌++◌, Option, some}
use kafka_cpp_server.Protocol.Outcome.{
  Outcome, ok, throw, undefined, unfinished, Exception, runtime_error, system_error,
}
use kafka_cpp_server.Protocol.ByteOrder.{native_endian, to_network_byte_order}
use kafka_cpp_server.Protocol.FileDescriptor.{SysResult, failed, done}
use kafka_cpp_server.Legacy.KafkaResponse.{KafkaResponse}
use kafka_cpp_server.Legacy.TcpServer.{Connections}
use kafka_cpp_server.Protocol.Types.{Bytes}
use kafka_cpp_server.Server.Listening.{SocketAddress, any_address}

pub record Calls (W K : Type 0) : Type 0 where
  pub sys_socket : W → Option ℕ × W
  pub sys_set_reuse : Option ℕ → ℕ → W → SysResult (Unit {0}) × W
  pub sys_bind : Option ℕ → SocketAddress → W → SysResult (Unit {0}) × W
  pub sys_listen : Option ℕ → ℕ → W → SysResult (Unit {0}) × W
  -- `accept`, with what is at its pointers to an address and to the address's length, before and after.
  pub sys_accept : Option ℕ → SocketAddress → ℕ → W → SysResult K × SocketAddress × ℕ × W
  -- The constructor of `std::thread`, which fails by a `std::system_error`.
  pub sys_thread : K → W → SysResult (Unit {0}) × W
  pub sys_close : Option ℕ → W → W
  -- `close` of a connection.
  pub sys_close_client : K → W → W

-- The member `client_fd`, to which the constructor gives no value: it has none if the storage of the
-- object had none, and the storage's otherwise, as in a static object, whose storage is zero at first.
pub data ClientFd (K : Type 0) : Type 0 where
  indeterminate : ClientFd K
  set : SysResult K → ClientFd K

pub record TcpServer (K : Type 0) : Type 0 where
  pub server_fd : Option ℕ
  pub client_fd : ClientFd K
  pub address : SocketAddress
  pub address_len : ℕ

-- `sizeof(address)`
abbrev sockaddr_in_size : ℕ
sockaddr_in_size = 16

abbrev pub backlog : ℕ
backlog = 3

-- What a constructor comes to, with the network that it leaves, after an exception too.
abbrev pub Constructed : Type 0 → Type 0 → Type 0
Constructed W K = Outcome (TcpServer K) × W

abbrev failure : {W K : Type 0} → String → W → Constructed W K
failure message w = (throw (runtime_error message), w)

module _ {W : Type 0} (K : Type 0) ⦃calls : Calls W K⦄ where
  -- The steps of the constructor, the last one first.
  unfoldable pub listened : TcpServer K → SysResult (Unit {0}) × W → Constructed W K
  listened server (failed, w) = failure "Listen failed." w
  listened server (done _, w) = (ok server, w)

  unfoldable pub bound : TcpServer K → SysResult (Unit {0}) × W → Constructed W K
  unfolding listened
  bound server (failed, w) = failure "Bind failed." w
  bound server (done _, w) = listened server (calls.sys_listen server.server_fd backlog w)

  unfoldable pub reusing : TcpServer K → SysResult (Unit {0}) × W → Constructed W K
  unfolding bound
  reusing server (failed, w) = failure "setsockopt failed: " (calls.sys_close server.server_fd w)
  reusing server (done _, w) = bound server (calls.sys_bind server.server_fd server.address w)

  -- `server_fd == 0` is compared with, and not a descriptor below 0.
  unfoldable pub with_socket : ClientFd K → SocketAddress → Option ℕ × W → Constructed W K
  unfolding reusing
  with_socket before address (some zero, w) = failure "Socket creation failed." w
  with_socket before address (server_fd, w) =
      reusing
        (record {
          server_fd = server_fd;
          client_fd = before;
          address = address;
          address_len = sockaddr_in_size;
        })
        (calls.sys_set_reuse server_fd 1 w)

  -- `before` is what the storage of the object holds as its `client_fd`.
  unfoldable pub new_tcp_server : ClientFd K → ℕ → W → Constructed W K
  unfolding with_socket
  new_tcp_server before port w =
      with_socket before
        (record { sin_addr = any_address; sin_port = to_network_byte_order native_endian 2 port })
        (calls.sys_socket w)

-- What the loop works on: the object and the network, the clients for which it has started a thread,
-- and the exceptions that it has reported.
pub record Accepting (W K : Type 0) : Type 0 where
  pub server : TcpServer K
  pub network : W
  pub served : List K
  pub reported : List Exception

-- How code of the loop ends, with the state that it leaves, after an exception too.
abbrev pub Ended : Type 0 → Type 0 → Type 0
Ended W K = Outcome (Unit {0}) × Accepting W K

module _ {W K : Type 0} where
  -- `std::thread th(...); th.detach();` after the constructor's call.
  unfoldable pub after_thread : K → Accepting W K → SysResult (Unit {0}) × W → Ended W K
  after_thread client_fd l (failed, w) = (throw (system_error "thread"), record l { network = w })
  after_thread client_fd l (done _, w) =
      (ok tt, record l { network = w; served = l.served ++ client_fd ∷ [] })

  -- `catch (const std::exception &e)`, which reports the exception.
  unfoldable pub catch_exception : Ended W K → Ended W K
  catch_exception (throw e, l) = (ok tt, record l { reported = l.reported ++ e ∷ [] })
  catch_exception (ended, l) = (ended, l)

  -- The code after a statement is run if the statement ends as usual.
  unfoldable pub and_then : Ended W K → (Accepting W K → Ended W K) → Ended W K
  and_then (ok _, l) rest = rest l
  and_then (throw e, l) rest = (throw e, l)
  and_then (undefined, l) rest = (undefined, l)
  and_then (unfinished, l) rest = (unfinished, l)

abbrev accepted : {K : Type 0} → SysResult K → Outcome (Unit {0})
accepted failed = throw (runtime_error "Accept failed.")
accepted (done client_fd) = ok tt

module _ {W K : Type 0} ⦃calls : Calls W K⦄ where
  -- `accept(server_fd, (struct sockaddr *)&address, (socklen_t *)&address_len)`
  unfoldable pub call_accept : TcpServer K → W → SysResult K × TcpServer K × W
  call_accept server w =
      let (client_fd, address, address_len, w') =
        calls.sys_accept server.server_fd server.address server.address_len w in
      (client_fd, record server { address = address; address_len = address_len }, w')

  -- The rest of the body of the `try` after `accept`.
  unfoldable pub after_accept : SysResult K → Accepting W K → Ended W K
  unfolding after_thread
  after_accept failed l = (throw (runtime_error "Accept failed."), l)
  after_accept (done client_fd) l = after_thread client_fd l (calls.sys_thread client_fd l.network)

  -- The body of the `try`.
  unfoldable pub try_round : Accepting W K → Ended W K
  unfolding call_accept after_accept
  try_round l =
      let (client_fd, server, w) = call_accept l.server l.network in
      after_accept client_fd (record l { server = server; network = w })

  unfoldable pub run_round : Accepting W K → Ended W K
  unfolding try_round catch_exception
  run_round l = catch_exception (try_round l)

  -- `while (1)`
  unfoldable pub run : ℕ → Accepting W K → Ended W K
  unfolding run_round and_then
  run zero l = (unfinished, l)
  run (suc rounds) l = and_then (run_round l) (run rounds)

  -- `if (client_fd >= 0) close(client_fd);`
  abbrev pub close_accepted : SysResult K → W → W
  close_accepted failed w = w
  close_accepted (done client_fd) w = calls.sys_close_client client_fd w

  -- `acceptConnection`: how it ends, the object and the network.
  unfoldable pub accept_connection : TcpServer K → W → Outcome (Unit {0}) × TcpServer K × W
  unfolding call_accept
  accept_connection server w =
      let (client_fd, server', w') = call_accept server w in
      (accepted client_fd, record server' { client_fd = set client_fd }, w')

  unfoldable pub close_server : TcpServer K → W → W
  close_server server w = calls.sys_close server.server_fd w

  -- The destructor. To compare an indeterminate value is undefined.
  unfoldable pub destroy_server : TcpServer K → W → Outcome W
  destroy_server server w = elim server.client_fd [
    | indeterminate ↦ undefined
    | set client ↦ ok (calls.sys_close server.server_fd (close_accepted client w))
  ]

module _ {K : Type 0} ⦃connections : Connections K⦄ (memory : KafkaResponse → Bytes) where
  -- `sendResponse`: the bytes of the object itself, its vector's pointers and all. They are a parameter,
  -- `memory`. A `send` to a descriptor below 0 fails, which is ignored.
  unfoldable pub send_response : KafkaResponse → TcpServer K → Outcome (TcpServer K)
  send_response response server = elim server.client_fd [
    | indeterminate ↦ undefined
    | set client ↦ elim client [
      | failed ↦ ok server
      | done k ↦
          ok (record server { client_fd = set (done (connections.sys_send (memory response) k)) })
    ]
  ]
