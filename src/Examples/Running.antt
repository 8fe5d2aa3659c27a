-- ===== src/Examples/Running.antt =====
-- The theorems on the loop that accepts clients, on the threads of the server and on the life of
-- sockets and file descriptors, at concrete inputs.
use kafka_cpp_server.Prelude.{refl, List, [], ◌∷◌, none, some, inl}
use kafka_cpp_server.Protocol.Outcome.{runtime_error}
use kafka_cpp_server.Protocol.Stream.{bytes_readable, bytes_writable}
use kafka_cpp_server.Protocol.Buffers.{buffer_readable}
use kafka_cpp_server.Protocol.FileDescriptor.{FileDescriptor, done, fd_readable, fd_writable}
use kafka_cpp_server.Protocol.Owners.{
  Owned, Objects, Lives, born, goes_on, construct, move, destruct, Balanced,
}
use kafka_cpp_server.Protocol.Ownership.{
  destroy, move_construct, from_int, file_descriptors, Lives-Balanced,
}
use kafka_cpp_server.Server.Sockets.{servers, servers-Balanced}
use kafka_cpp_server.Examples.Sessions.{two_requests}
use kafka_cpp_server.Server.Listening.{
  Accepted, client, no_client, eintr, Sockets, Server, move_server, close_listener,
}
use kafka_cpp_server.Server.Accepting.{Opens, new_server-Opens}
use kafka_cpp_server.Server.System.{System, Thread, Step, thrown}
use kafka_cpp_server.Server.System
use kafka_cpp_server.Examples.Kernels.{Wire, wire_kernel}
use kafka_cpp_server.Examples.Broker.{wire}

-- Clients in a queue, and an interrupted call of `accept` once there are no more.
abbrev next_client : {K : Type 0} → List (Accepted K) → Accepted K × List (Accepted K)
next_client [] = (no_client eintr, [])
next_client (result ∷ results) = (result, results)

instance abbrev queue_sockets : Sockets (List (Accepted Wire)) Wire
queue_sockets = record {
  sys_socket = λ w. (done 3, w);
  sys_set_reuse = λ fd reuse w. (done tt, w);
  sys_bind = λ fd address w. (done tt, w);
  sys_listen = λ fd length w. (done tt, w);
  sys_accept = λ fd w. next_client w;
}

abbrev server : Server
server = record { server_socket = some 3 }

abbrev queue : List (Accepted Wire)
queue = client wire ∷ no_client eintr ∷ client two_requests ∷ []

queue-Opens : Opens Wire queue 3 queue
queue-Opens = record {
  socket_made = queue;
  address_reused = queue;
  bound = queue;
  makes = refl;
  reuses = refl;
  binds = refl;
  listens = refl;
}

-- A client, and one that hangs up.
abbrev hung_up : Wire
hung_up = record { to_come = []; sent = [] }

abbrev two_clients : List (Accepted Wire)
two_clients = client wire ∷ client hung_up ∷ []

abbrev waiting : Thread Wire
waiting = record { origin = wire; phase = System.reading (record { fd = wire }) }

abbrev hung : Thread Wire
hung = record { origin = hung_up; phase = System.reading (record { fd = hung_up }) }

-- The second client has ended the server.
abbrev ended : System (List (Accepted Wire)) Wire
ended = record {
  network = [];
  instance_made = none;
  threads = waiting ∷ hung ∷ [];
  ended = some (thrown (runtime_error "incomplete read"));
}

-- A descriptor that is closed and then handed over again, to an object that is moved.
abbrev opened_again : Objects Owned
opened_again = record { live = some 7 ∷ none ∷ []; opened = 7 ∷ 7 ∷ []; closed = destroy (some 7) }

life_of_seven : Lives file_descriptors opened_again
unfolding from_int destroy move_construct
life_of_seven =
    goes_on
      (goes_on
        (goes_on (goes_on born (construct 7 (some 7) (inl refl) refl))
          (destruct [] [] (some 7) refl))
        (construct 7 (some 7) (inl refl) refl))
      (move [] [] (some 7) refl)

Lives-Balanced_example : Balanced file_descriptors 7 opened_again
Lives-Balanced_example = Lives-Balanced 7 life_of_seven

-- The server of `main`, which is moved and then destroyed.
abbrev moved_server : Objects Server
moved_server = record {
  live = record { server_socket = none } ∷ [];
  opened = 3 ∷ [];
  closed = close_listener server;
}

life_of_server : Lives (servers (List (Accepted Wire)) Wire) moved_server
unfolding move_server close_listener
life_of_server =
    goes_on
      (goes_on
        (goes_on born (
          construct 3 server
            (queue, queue, queue, refl, new_server-Opens Wire queue 3 queue queue-Opens) refl))
        (move [] [] server refl))
      (destruct [] (record { server_socket = none } ∷ []) server refl)

servers-Balanced_example : Balanced (servers (List (Accepted Wire)) Wire) 3 moved_server
servers-Balanced_example = servers-Balanced (List (Accepted Wire)) Wire 3 life_of_server
