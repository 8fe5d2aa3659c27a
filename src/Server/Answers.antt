-- ===== src/Server/Answers.antt =====
-- What one round of `serve_client` does to the connection.
use kafka_cpp_server.Prelude.{◌%◌, ◌^◌, ◌≡◌, ◌++◌, Option, length}
use kafka_cpp_server.Protocol.Types.{Bytes}
use kafka_cpp_server.Protocol.Outcome.{Io, ok, ◌>>=◌, ◌>>◌}
use kafka_cpp_server.Protocol.Stream.{Readable, Writable, write}
use kafka_cpp_server.Protocol.Buffers.{new_writable_buffer, buffer_writable}
use kafka_cpp_server.Protocol.ByteOrder.{native_endian}
use kafka_cpp_server.Protocol.Writing.{write_bytes, write_int32}
use kafka_cpp_server.Protocol.Integers.{big_endian, store-to_network}
use kafka_cpp_server.Metadata.Cluster.{ClusterMetadata}
use kafka_cpp_server.Message.Messages.{
  RequestMessage, ResponseMessage, AbstractResponse, read_request_message, write_response,
  write_response_message, buffer_after,
}
use kafka_cpp_server.Message.Framing.{header_bytes, payload_bytes, write_message_body-buffer}
use kafka_cpp_server.Message.Appends.{Appends-response}
use kafka_cpp_server.Server.Handlers.{Environment, Storage}
use kafka_cpp_server.Server.Serve.{Session, on_client, on_instance, handle, serve_request}

-- The answer to a request: the request's correlation id and the response.
abbrev pub answer_to : RequestMessage → AbstractResponse → ResponseMessage
answer_to m response = record {
  header = record { correlation_id = m.header.correlation_id };
  response = response;
}

abbrev pub message_bytes : ResponseMessage → Bytes
message_bytes message = header_bytes message ++ payload_bytes message.response

module _ {C : Type 0} ⦃w : Writable C⦄ where
  -- `write` of the size prefix, then of the message's bytes.
  abbrev pub write_sized : Bytes → Io C (Unit {0})
  write_sized body = write (big_endian 4 (length body % 2 ^ 32)) >> write body

  write_bytes-sized : (body : Bytes) (c : C) → write_bytes body c ≡ write_sized body c
  unfolding write_bytes write_int32
  write_bytes-sized body c = rw (store-to_network native_endian 4 (length body % 2 ^ 32))

  pub write_response_message-write_sized :
      (message : ResponseMessage) (c : C)
      → write_response_message message c ≡ write_sized (message_bytes message) c
  unfolding write_response_message buffer_after ◌>>=◌
  write_response_message-write_sized message c =
      rw (buffer_after, write_message_body-buffer message, write_bytes-sized)

module _ {C A : Type 0} (m : Io C A) {c : C} where
  pub on_client-ok :
      {i : Option ClusterMetadata} {a : A} {c' : C}
      → m c ≡ ok (a, c')
      → on_client m (record { client = c; instance_made = i })
        ≡ ok (a, record { client = c'; instance_made = i })
  unfolding on_client
  on_client-ok h = rw (on_client, h)

module _ {C A : Type 0} (m : Io (Option ClusterMetadata) A) {c : C} where
  on_instance-ok :
      {i i' : Option ClusterMetadata} {a : A}
      → m i ≡ ok (a, i')
      → on_instance m (record { client = c; instance_made = i })
        ≡ ok (a, record { client = c; instance_made = i' })
  unfolding on_instance
  on_instance-ok h = rw (on_instance, h)

on_client-cong :
    {C A : Type 0} (m n : Io C A) (s : Session C)
    → m s.client ≡ n s.client
    → on_client m s ≡ on_client n s
unfolding on_client
on_client-cong m n s h = rw (on_client, h)

module _ {F C : Type 0} ⦃f : Readable F⦄ ⦃r : Readable C⦄ ⦃w : Writable C⦄
    (env : Environment F) where
  -- If a request can be read from the connection and its handler returns a response, the round
  -- writes the size of the message, then the message: the request's correlation id and what the
  -- response writes. The connection is written to after the request has been read from it, the
  -- metadata is what the handler has left, and what the write comes to is what the round comes to.
  pub serve_request_lem :
      (storage : Storage) (c c' : C) (i i' : Option ClusterMetadata) (m : RequestMessage)
      (response : AbstractResponse)
      → read_request_message c ≡ ok (m, c')
      → handle env storage m i ≡ ok (response, i')
      → (write_response response new_writable_buffer
          ≡ ok (tt, record { bytes = payload_bytes response }))
        × (serve_request env storage (record { client = c; instance_made = i })
            ≡ on_client
                (write_sized (message_bytes (answer_to m response)))
                (record { client = c'; instance_made = i' }))
  unfolding serve_request ◌>>=◌
  serve_request_lem storage c c' i i' m response h k = (
    (Appends-response response).writes new_writable_buffer,
    rw (on_client-ok read_request_message h, on_instance-ok (handle env storage m) k)
        (on_client-cong _ _ _ (write_response_message-write_sized (answer_to m response) c')),
  )
