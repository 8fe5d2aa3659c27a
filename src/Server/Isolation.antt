-- ===== src/Server/Isolation.antt =====
-- What the server sends to a client depends on what this client has sent alone, in every interleaving
-- of the threads, and what ends the server.
use kafka_cpp_server.Prelude.{◌≡◌, List, ◌∷◌, ◌++◌, Option, none, some, All}
use kafka_cpp_server.Protocol.Types.{Bytes}
use kafka_cpp_server.Protocol.Outcome.{Outcome}
use kafka_cpp_server.Protocol.Stream.{Readable, bytes_readable}
use kafka_cpp_server.Protocol.FileDescriptor.{Kernel, fd_readable, fd_writable}
use kafka_cpp_server.Message.Messages.{RequestMessage}
use kafka_cpp_server.Message.Delivery.{parse_request_message}
use kafka_cpp_server.Server.Handlers.{Environment, Storage}
use kafka_cpp_server.Server.Serve.{handle}
use kafka_cpp_server.Server.Instance.{IsInstance}
use kafka_cpp_server.Server.Alone.{result_of}
use kafka_cpp_server.Server.Listening.{Sockets, Server, after_accept}
use kafka_cpp_server.Server.Conversation.{IsConnection}
use kafka_cpp_server.Server.Conversed.{Conversed, Requested, ThreadInv, Fails}
use kafka_cpp_server.Server.System.{Failure, failed_with, Thread, System}

module _ {F K : Type 0} ⦃f : Readable F⦄ ⦃kernel : Kernel K⦄ (env : Environment F)
    (pending sent : K → Bytes) where
  -- What a thread has found that it could not go on with: bytes to come that are no request, or a
  -- request that a broker which handles it first does not answer either.
  pub data ThreadCause (origin : K) (failure : Failure) : Type 0 where
    no_request :
        (now : K)
        → Conversed env pending sent origin now
        → Fails (parse_request_message (pending now))
        → ThreadCause origin failure
    no_answer :
        (now : K) (m : RequestMessage) (storage : Storage)
        → Requested env pending sent origin now m
        → result_of (handle env storage m none) ≡ failed_with failure
        → ThreadCause origin failure

  -- Why the program has ended: a client, or a failure of `accept`.
  pub data Cause (W : Type 0) ⦃sockets : Sockets W K⦄ (server : Server) (threads : List (Thread K))
      (failure : Failure) : Type 0 where
    client_cause :
        (before after : List (Thread K)) (t : Thread K)
        → threads ≡ before ++ t ∷ after
        → ThreadCause t.origin failure
        → Cause W server threads failure
    accept_cause :
        (network : W)
        → after_accept (sockets.sys_accept server.server_socket network).0 ≡ failed_with failure
        → Cause W server threads failure

  abbrev pub EndInv :
      (W : Type 0) ⦃sockets : Sockets W K⦄ (server : Server)
      → Option Failure
      → List (Thread K)
      → Type 0
  EndInv W server none threads = Unit
  EndInv W server (some failure) threads = Cause W server threads failure

  module _ (connection : IsConnection pending sent) where
    module _ {W : Type 0} ⦃sockets : Sockets W K⦄ (server : Server) where
      pub record Inv (system : System W K) : Type 0 where
        pub instance_inv : IsInstance env system.instance_made
        pub threads_inv : All (ThreadInv env pending sent) system.threads
        pub end_inv : EndInv W server system.ended system.threads
