-- ===== src/Message/Delivery.antt =====
-- Requests are read from the connection as from the bytes that it delivers, however the kernel
-- splits them, and from the buffer of a message as from the bytes of the message.
use kafka_cpp_server.Prelude.{ℕ, refl, ◌==◌, ◌$◌, arith}
use kafka_cpp_server.Protocol.Types.{Bytes}
use kafka_cpp_server.Protocol.Outcome.{Outcome, Io, ok, throw, undefined, unfinished, ◌>>=◌}
use kafka_cpp_server.Protocol.Stream.{Readable, bytes_readable}
use kafka_cpp_server.Protocol.Buffers.{ReadableBuffer, new_readable_buffer, buffer_readable}
use kafka_cpp_server.Protocol.FileDescriptor.{Kernel, FileDescriptor, fd_readable}
use kafka_cpp_server.Protocol.Reading.{read_bytes, read_compact_array}
use kafka_cpp_server.Protocol.Simulation.{
  Refines, Simulates, IsStream, Simulates-bind, Simulates-pure, Simulates-if, Simulates-raise,
  Simulates-undefined,
}
use kafka_cpp_server.Protocol.Streams.{
  InBounds, unread, buffer-IsStream, IsReliable, AnyState, incoming, fd-IsStream,
}
use kafka_cpp_server.Protocol.Readers.{
  Simulates-byte, Simulates-int8, Simulates-int16, Simulates-int32, Simulates-int64, Simulates-uuid,
  Simulates-compact_string, Simulates-nullable_string, Simulates-tagged_fields, Simulates-api_key,
  Simulates-bytes, Simulates-compact_array,
}
use kafka_cpp_server.Message.Headers.{read_request_header}
use kafka_cpp_server.Message.ApiVersions.{read_api_versions_request}
use kafka_cpp_server.Message.DescribeTopicPartitions.{
  read_topic_request, read_describe_topic_partitions_request,
}
use kafka_cpp_server.Message.Fetch.{
  read_fetch_partition, read_fetch_topic, read_forgotton_topic, read_fetch_request,
}
use kafka_cpp_server.Message.Messages.{
  RequestMessage, keep, run_on, read_request, read_message_body, read_request_message,
}

module _ {S : Type 0} ⦃r : Readable S⦄ (valid : S → Type 0) (view : S → Bytes)
    (stream : IsStream valid view) where
  compact_array_rule :
      {T : Type 0} (m : Io S T) (x : Io Bytes T)
      → Simulates valid view m x
      → Simulates valid view (read_compact_array m) (read_compact_array x)
  compact_array_rule m x h = Simulates-compact_array valid view stream m x h

  Simulates-request_header : Simulates valid view read_request_header read_request_header
  unfolding read_request_header
  Simulates-request_header =
      search
        (
          Simulates-bind,
          Simulates-pure,
          Simulates-api_key valid view stream,
          Simulates-int16 valid view stream,
          Simulates-int32 valid view stream,
          Simulates-nullable_string valid view stream,
          Simulates-tagged_fields valid view stream,
        )
        depth 20

  Simulates-api_versions_request :
      Simulates valid view read_api_versions_request read_api_versions_request
  unfolding read_api_versions_request
  Simulates-api_versions_request =
      search
        (
          Simulates-bind,
          Simulates-pure,
          Simulates-compact_string valid view stream,
          Simulates-tagged_fields valid view stream,
        )
        depth 20

  Simulates-topic_request : Simulates valid view read_topic_request read_topic_request
  unfolding read_topic_request
  Simulates-topic_request =
      search
        (
          Simulates-bind,
          Simulates-pure,
          Simulates-compact_string valid view stream,
          Simulates-tagged_fields valid view stream,
        )
        depth 20

  Simulates-describe_topic_partitions_request :
      Simulates valid view read_describe_topic_partitions_request
        read_describe_topic_partitions_request
  unfolding read_describe_topic_partitions_request
  Simulates-describe_topic_partitions_request =
      Simulates-bind _ _ _ _ (compact_array_rule _ _ Simulates-topic_request) $ λ _.
      Simulates-bind _ _ _ _ (Simulates-int32 valid view stream) $ λ _.
      Simulates-bind _ _ _ _ (Simulates-byte valid view stream) $ λ c.
      Simulates-bind _ _ _ _
        (Simulates-if (c == 0xFF) _ _ _ _ (Simulates-pure tt) (Simulates-raise _))
      $ λ _.
          Simulates-bind _ _ _ _ (Simulates-tagged_fields valid view stream) $ λ _. Simulates-pure _

  Simulates-fetch_partition : Simulates valid view read_fetch_partition read_fetch_partition
  unfolding read_fetch_partition
  Simulates-fetch_partition =
      search
        (
          Simulates-bind,
          Simulates-pure,
          Simulates-int32 valid view stream,
          Simulates-int64 valid view stream,
          Simulates-tagged_fields valid view stream,
        )
        depth 20

  Simulates-fetch_topic : Simulates valid view read_fetch_topic read_fetch_topic
  unfolding read_fetch_topic
  Simulates-fetch_topic = Simulates-bind _ _ _ _ (Simulates-uuid valid view stream) $ λ _.
      Simulates-bind _ _ _ _ (compact_array_rule _ _ Simulates-fetch_partition) $ λ _.
      Simulates-bind _ _ _ _ (Simulates-tagged_fields valid view stream) $ λ _. Simulates-pure _

  Simulates-forgotton_topic : Simulates valid view read_forgotton_topic read_forgotton_topic
  unfolding read_forgotton_topic
  Simulates-forgotton_topic = Simulates-bind _ _ _ _ (Simulates-uuid valid view stream) $ λ _.
      Simulates-bind _ _ _ _ (compact_array_rule _ _ (Simulates-int32 valid view stream)) $ λ _.
      Simulates-bind _ _ _ _ (Simulates-tagged_fields valid view stream) $ λ _. Simulates-pure _

  Simulates-fetch_request : Simulates valid view read_fetch_request read_fetch_request
  unfolding read_fetch_request
  Simulates-fetch_request = Simulates-bind _ _ _ _ (Simulates-int32 valid view stream) $ λ _.
      Simulates-bind _ _ _ _ (Simulates-int32 valid view stream) $ λ _.
      Simulates-bind _ _ _ _ (Simulates-int32 valid view stream) $ λ _.
      Simulates-bind _ _ _ _ (Simulates-int8 valid view stream) $ λ _.
      Simulates-bind _ _ _ _ (Simulates-int32 valid view stream) $ λ _.
      Simulates-bind _ _ _ _ (Simulates-int32 valid view stream) $ λ _.
      Simulates-bind _ _ _ _ (compact_array_rule _ _ Simulates-fetch_topic) $ λ _.
      Simulates-bind _ _ _ _ (compact_array_rule _ _ Simulates-forgotton_topic) $ λ _.
      Simulates-bind _ _ _ _ (Simulates-compact_string valid view stream) $ λ _.
      Simulates-bind _ _ _ _ (Simulates-tagged_fields valid view stream) $ λ _. Simulates-pure _

  Simulates-request :
      (api_key : ℕ) → Simulates valid view (read_request api_key) (read_request api_key)
  unfolding read_request
  Simulates-request api_key =
      search
        (
          Simulates-bind, Simulates-pure, Simulates-if, Simulates-undefined,
          Simulates-fetch_request, Simulates-api_versions_request,
          Simulates-describe_topic_partitions_request,
        )
        depth 20

  pub Simulates-message_body : Simulates valid view read_message_body read_message_body
  unfolding read_message_body
  Simulates-message_body =
      search (Simulates-bind, Simulates-pure, Simulates-request_header, Simulates-request) depth 20

-- The abstract request reader: a size, that many bytes, and in them a header and a request.
unfoldable pub parse_request_message : Io Bytes RequestMessage
parse_request_message = do bytes ← read_bytes; run_on read_message_body bytes

-- A message's buffer is parsed as its bytes.
run_on-Refines :
    {S A : Type 0} (valid : S → Type 0) (view : S → Bytes) (s : S)
    (o : Outcome (A × ReadableBuffer)) (p : Outcome (A × Bytes))
    → valid s
    → Refines InBounds unread o p
    → Refines valid view (keep s o) (keep (view s) p)
run_on-Refines valid view s (ok (a, b)) (ok (c, d)) v (e, r, w) = (e, refl, v)
run_on-Refines valid view s (throw e) (throw x) v r = tt
run_on-Refines valid view s undefined undefined v r = tt
run_on-Refines valid view s unfinished unfinished v r = tt
run_on-Refines valid view s _ _ v r = absurd r

Simulates-run_on :
    {S : Type 0} (valid : S → Type 0) (view : S → Bytes) (bytes : Bytes)
    → Simulates valid view
        (run_on read_message_body (new_readable_buffer bytes))
        (run_on read_message_body bytes)
unfolding run_on
Simulates-run_on valid view bytes = record {
  at = λ s v. run_on-Refines valid view s _ _ v (
      (Simulates-message_body InBounds unread buffer-IsStream).at (new_readable_buffer bytes)
        (omega arith));
}

-- On any stream of the program a request message is read as `parse_request_message` reads it from
-- the stream's bytes.
pub Simulates-request_message :
    {S : Type 0} ⦃r : Readable S⦄ (valid : S → Type 0) (view : S → Bytes)
    → IsStream valid view
    → Simulates valid view read_request_message parse_request_message
unfolding read_request_message parse_request_message
Simulates-request_message valid view stream =
    Simulates-bind _ _ _ _ (Simulates-bytes valid view stream) (Simulates-run_on valid view)

-- On a connection of a kernel that follows `IsReliable` a request message is read as from the bytes
-- that are to come: the same message with the same bytes left, or an exception on both sides, or
-- undefined behaviour on both.
pub request_message_delivered :
    {K : Type 0} ⦃kernel : Kernel K⦄ (pending : K → Bytes) (reliable : IsReliable pending)
    (s : FileDescriptor K)
    → Refines AnyState
        (incoming pending)
        (read_request_message s)
        (parse_request_message (pending s.fd))
request_message_delivered pending reliable s =
    (Simulates-request_message _ _ (fd-IsStream pending reliable)).at s tt
