-- ===== src/Server/System.antt =====
-- The running server: the loop of `start`, and a thread of `serve_client` for each client, interleaved
-- in any order. A thread goes on by a phase of its round: it reads a request, handles it, or writes
-- the response. What the threads share is the instance of ClusterMetadata, which is made once, under the
-- lock of a local static object. An exception in a thread ends the program, all threads with it.
use kafka_cpp_server.Prelude.{◌≡◌, List, [], ◌∷◌, ◌++◌, Option, none, some}
use kafka_cpp_server.Protocol.Outcome.{Exception, Outcome, ok, throw, undefined}
use kafka_cpp_server.Protocol.Stream.{Readable}
use kafka_cpp_server.Protocol.FileDescriptor.{Kernel, FileDescriptor, fd_readable, fd_writable}
use kafka_cpp_server.Metadata.Cluster.{ClusterMetadata}
use kafka_cpp_server.Message.Messages.{
  RequestMessage, AbstractResponse, read_request_message, write_response_message,
}
use kafka_cpp_server.Server.Handlers.{Environment, Storage}
use kafka_cpp_server.Server.Serve.{handle}
use kafka_cpp_server.Server.Listening.{Sockets, Server, after_accept}
use kafka_cpp_server.Server.Answers.{answer_to}

-- Where a thread stands in its round.
pub data Phase (K : Type 0) : Type 0 where
  reading : FileDescriptor K → Phase K
  handling : FileDescriptor K → RequestMessage → Phase K
  writing : FileDescriptor K → RequestMessage → AbstractResponse → Phase K

-- `origin` is the connection as it was accepted.
pub record Thread (K : Type 0) : Type 0 where
  pub origin : K
  pub phase : Phase K

-- A phase of the round of a thread, with the instance before and after it.
pub data Move {F K : Type 0} ⦃f : Readable F⦄ ⦃kernel : Kernel K⦄ (env : Environment F)
    : Phase K → Option ClusterMetadata → Phase K → Option ClusterMetadata → Type 0 where
  read_request :
      (s s' : FileDescriptor K) (m : RequestMessage) (i : Option ClusterMetadata)
      → read_request_message s ≡ ok (m, s')
      → Move env (reading s) i (handling s' m) i
  handle_request :
      (s : FileDescriptor K) (m : RequestMessage) (response : AbstractResponse) (storage : Storage)
      (i j : Option ClusterMetadata)
      → handle env storage m i ≡ ok (response, j)
      → Move env (handling s m) i (writing s m response) j
  write_response :
      (s s' : FileDescriptor K) (m : RequestMessage) (response : AbstractResponse)
      (i : Option ClusterMetadata)
      → write_response_message (answer_to m response) s ≡ ok (tt, s')
      → Move env (writing s m response) i (reading s') i

-- What ends the program: an exception that nothing catches, or undefined behaviour, after which
-- nothing is said.
pub data Failure : Type 0 where
  thrown : Exception → Failure
  undefined_reached : Failure

abbrev pub failed_with : {A : Type 0} → Failure → Outcome A
failed_with (thrown e) = throw e
failed_with undefined_reached = undefined

-- A phase that does not come to its end.
pub data Stop {F K : Type 0} ⦃f : Readable F⦄ ⦃kernel : Kernel K⦄ (env : Environment F)
    : Phase K → Option ClusterMetadata → Failure → Type 0 where
  read_fails :
      (s : FileDescriptor K) (i : Option ClusterMetadata) (failure : Failure)
      → read_request_message s ≡ failed_with failure
      → Stop env (reading s) i failure
  handle_fails :
      (s : FileDescriptor K) (m : RequestMessage) (storage : Storage) (i : Option ClusterMetadata)
      (failure : Failure)
      → handle env storage m i ≡ failed_with failure
      → Stop env (handling s m) i failure
  write_fails :
      (s : FileDescriptor K) (m : RequestMessage) (response : AbstractResponse)
      (i : Option ClusterMetadata) (failure : Failure)
      → write_response_message (answer_to m response) s ≡ failed_with failure
      → Stop env (writing s m response) i failure

-- `ended` is what has ended the program, if it has come to its end.
pub record System (W K : Type 0) : Type 0 where
  pub network : W
  pub instance_made : Option ClusterMetadata
  pub threads : List (Thread K)
  pub ended : Option Failure

module _ {F K W : Type 0} ⦃f : Readable F⦄ ⦃kernel : Kernel K⦄ ⦃sockets : Sockets W K⦄
    (env : Environment F) (server : Server) where
  -- There is no step once the program has ended.
  pub data Step (system : System W K) : System W K → Type 0 where
    accept_client :
        (c : FileDescriptor K)
        → system.ended ≡ none
        → after_accept (sockets.sys_accept server.server_socket system.network).0 ≡ ok (some c)
        → Step system (record system {
          network = (sockets.sys_accept server.server_socket system.network).1;
          threads = system.threads ++ record { origin = c.fd; phase = reading c } ∷ [];
        })
    accept_again :
        system.ended ≡ none
        → after_accept (sockets.sys_accept server.server_socket system.network).0 ≡ ok none
        → Step system
            (record system { network = (sockets.sys_accept server.server_socket system.network).1 })
    accept_fails :
        (failure : Failure)
        → system.ended ≡ none
        → after_accept (sockets.sys_accept server.server_socket system.network).0
          ≡ failed_with failure
        → Step system (record system {
          network = (sockets.sys_accept server.server_socket system.network).1;
          ended = some failure;
        })
    run_thread :
        (before after : List (Thread K)) (t : Thread K) (phase : Phase K)
        (i : Option ClusterMetadata)
        → system.ended ≡ none
        → system.threads ≡ before ++ t ∷ after
        → Move env t.phase system.instance_made phase i
        → Step system (record system {
          instance_made = i;
          threads = before ++ record t { phase = phase } ∷ after;
        })
    thread_fails :
        (before after : List (Thread K)) (t : Thread K) (failure : Failure)
        → system.ended ≡ none
        → system.threads ≡ before ++ t ∷ after
        → Stop env t.phase system.instance_made failure
        → Step system (record system { ended = some failure })

  -- The states that the server comes to from one without clients and without the metadata.
  pub data Reach (network : W) : System W K → Type 0 where
    start :
        Reach network
          (record { network = network; instance_made = none; threads = []; ended = none })
    later : {s t : System W K} → Reach network s → Step s t → Reach network t
