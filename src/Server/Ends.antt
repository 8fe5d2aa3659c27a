-- ===== src/Server/Ends.antt =====
-- A round of a thread comes to an end: it returns, throws, or is undefined.
use kafka_cpp_server.Prelude.{◌≡◌, ◌≢◌, refl, Option}
use kafka_cpp_server.Protocol.Types.{Bytes}
use kafka_cpp_server.Protocol.Outcome.{Outcome, Io, ok, throw, undefined, unfinished}
use kafka_cpp_server.Protocol.Stream.{Readable}
use kafka_cpp_server.Protocol.FileDescriptor.{
  Kernel, FileDescriptor, write_fd, fd_readable, fd_writable,
}
use kafka_cpp_server.Protocol.Streams.{IsReliable, AnyState, incoming, fd-IsStream}
use kafka_cpp_server.Protocol.Sending.{Sends, write_fd-sent}
use kafka_cpp_server.Metadata.Cluster.{ClusterMetadata}
use kafka_cpp_server.Metadata.LoadEnds.{Finished, outcome-Finished, not_unfinished, LogsFit}
use kafka_cpp_server.Message.Messages.{
  ResponseMessage, read_request_message, write_response_message,
}
use kafka_cpp_server.Message.RequestEnds.{read_request_message-ends}
use kafka_cpp_server.Server.Handlers.{Storage, Environment}
use kafka_cpp_server.Server.Serve.{Session, on_client, on_instance, serve_request}
use kafka_cpp_server.Server.Answers.{write_response_message-write_sized}
use kafka_cpp_server.Server.Finishing.{Finishes, Finishes-bind, Finishes-handle}

module _ {C A : Type 0} where
  Finishes-on_client : (m : Io C A) → Finishes m → Finishes (on_client m)
  unfolding on_client
  Finishes-on_client m h = record { finished = λ s. go s (m s.client) refl (h.finished s.client) }
    where
      go :
          (s : Session C) (o : Outcome (A × C))
          → m s.client ≡ o
          → Finished o
          → Finished (on_client m s)
      go s (ok p) e k = rw (on_client, e) tt
      go s (throw x) e k = rw (on_client, e) tt
      go s undefined e k = rw (on_client, e) tt
      go s unfinished e k = absurd k

  Finishes-on_instance :
      (m : Io (Option ClusterMetadata) A) → Finishes m → Finishes {S = Session C} (on_instance m)
  unfolding on_instance
  Finishes-on_instance m h = record {
    finished = λ s. go s (m s.instance_made) refl (h.finished s.instance_made);
  }
    where
      go :
          (s : Session C) (o : Outcome (A × Option ClusterMetadata))
          → m s.instance_made ≡ o
          → Finished o
          → Finished (on_instance m s)
      go s (ok p) e k = rw (on_instance, e) tt
      go s (throw x) e k = rw (on_instance, e) tt
      go s undefined e k = rw (on_instance, e) tt
      go s unfinished e k = absurd k

module _ {K : Type 0} ⦃kernel : Kernel K⦄ (pending sent : K → Bytes) (reliable : IsReliable pending)
    (sends : Sends sent) where
  Finishes-read : Finishes {S = FileDescriptor K} read_request_message
  Finishes-read = record {
    finished = λ s.
        outcome-Finished _ (
          read_request_message-ends AnyState (incoming pending) s (fd-IsStream pending reliable)
            tt);
  }

  Finishes-write_fd : (src : Bytes) → Finishes {S = FileDescriptor K} (write_fd src)
  Finishes-write_fd src = record {
    finished = λ s. let (s', e, _) = write_fd-sent sent sends src s in rw e tt;
  }

  Finishes-write :
      (message : ResponseMessage) → Finishes {S = FileDescriptor K} (write_response_message message)
  Finishes-write message = record {
    finished = λ s. rw (write_response_message-write_sized message s) (
        (Finishes-bind {S = FileDescriptor K} _ _ (Finishes-write_fd _)
            (λ u. Finishes-write_fd _)).finished
          s);
  }

  -- On a connection that delivers and sends as documented, and with log files that have fewer bytes
  -- than the bound on the rounds of the loop that reads a log: whatever the client sends, a round of
  -- `serve_client` comes to an end. No loop in it uses up its bound: the round returns, throws or is
  -- undefined.
  pub serve_request-ends :
      {F : Type 0} ⦃f : Readable F⦄ (env : Environment F) (valid : F → Type 0) (view : F → Bytes)
      (storage : Storage) (s : Session (FileDescriptor K))
      → LogsFit env.files env.fuel valid view
      → serve_request env storage s ≢ unfinished
  unfolding serve_request
  serve_request-ends env valid view storage s logs = not_unfinished _ (
      (Finishes-bind _ _ (Finishes-on_client _ Finishes-read) (λ m.
          Finishes-bind _ _ (Finishes-on_instance _ (Finishes-handle env valid view logs storage m))
            (λ response. Finishes-on_client _ (Finishes-write _)))).finished
        s)
