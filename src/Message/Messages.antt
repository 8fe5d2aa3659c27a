-- ===== src/Message/Messages.antt =====
-- include/kafka/message/messages.hpp and abstract.hpp: whole messages with their size prefix. The
-- subclasses of AbstractRequest and AbstractResponse are the constructors of two data types.
use kafka_cpp_server.Prelude.{Option, none, some, ◌==◌, if◌then◌else◌}
use kafka_cpp_server.Protocol.Types.{Bytes}
use kafka_cpp_server.Protocol.Constants.{ApiKey}
use kafka_cpp_server.Protocol.Constants
use kafka_cpp_server.Protocol.Outcome.{
  Outcome, Io, ok, throw, undefined, unfinished, ◌>>=◌, ◌>>◌, pure, undefined_behaviour,
}
use kafka_cpp_server.Protocol.Stream.{Readable, Writable}
use kafka_cpp_server.Protocol.Buffers.{
  new_readable_buffer, buffer_readable, WritableBuffer, new_writable_buffer, buffer_writable,
}
use kafka_cpp_server.Protocol.Reading.{read_bytes}
use kafka_cpp_server.Protocol.Writing.{write_bytes}
use kafka_cpp_server.Message.Headers.{
  RequestHeader, ResponseHeader, read_request_header, write_response_header,
}
use kafka_cpp_server.Message.ApiVersions.{
  ApiVersionsRequest, ApiVersionsResponse, read_api_versions_request, write_api_versions_response,
}
use kafka_cpp_server.Message.DescribeTopicPartitions.{
  DescribeTopicPartitionsRequest, DescribeTopicPartitionsResponse,
  read_describe_topic_partitions_request, write_describe_topic_partitions_response,
}
use kafka_cpp_server.Message.Fetch.{
  FetchRequest, FetchResponse, read_fetch_request, write_fetch_response,
}

pub data AbstractRequest : Type 0 where
  fetch_request : FetchRequest → AbstractRequest
  api_versions_request : ApiVersionsRequest → AbstractRequest
  describe_topic_partitions_request : DescribeTopicPartitionsRequest → AbstractRequest

pub data AbstractResponse : Type 0 where
  fetch_response : FetchResponse → AbstractResponse
  api_versions_response : ApiVersionsResponse → AbstractResponse
  describe_topic_partitions_response : DescribeTopicPartitionsResponse → AbstractResponse

pub record RequestMessage : Type 0 where
  pub header : RequestHeader
  pub request : AbstractRequest

pub record ResponseMessage : Type 0 where
  pub header : ResponseHeader
  pub response : AbstractResponse

-- `request<ConcreteRequest>()`, a `dynamic_cast`.
unfoldable pub as_fetch_request : AbstractRequest → Option FetchRequest
as_fetch_request (fetch_request r) = some r
as_fetch_request _ = none

unfoldable pub as_api_versions_request : AbstractRequest → Option ApiVersionsRequest
as_api_versions_request (api_versions_request r) = some r
as_api_versions_request _ = none

unfoldable pub as_describe_topic_partitions_request :
    AbstractRequest → Option DescribeTopicPartitionsRequest
as_describe_topic_partitions_request (describe_topic_partitions_request r) = some r
as_describe_topic_partitions_request _ = none

-- `response_->api_key()`
unfoldable pub response_api_key : AbstractResponse → ApiKey
response_api_key (fetch_response r) = Constants.fetch
response_api_key (api_versions_response r) = Constants.api_versions
response_api_key (describe_topic_partitions_response r) = Constants.describe_topic_partitions

-- The outcome of work on a buffer of its own, whose state is dropped.
abbrev pub keep : {S B A : Type 0} → S → Outcome (A × B) → Outcome (A × S)
keep s (ok (a, b)) = ok (a, s)
keep s (throw e) = throw e
keep s undefined = undefined
keep s unfinished = unfinished

unfoldable pub run_on : {S B A : Type 0} → Io B A → B → Io S A
run_on m b s = keep s (m b)

-- The `switch`, then `request_->read(rb)`. No case takes another key, so that `request_` is null
-- and the call undefined.
unfoldable pub read_request : {S : Type 0} ⦃r : Readable S⦄ → ApiKey → Io S AbstractRequest
read_request api_key =
    if api_key == Constants.fetch
    then read_fetch_request >>= (λ r. pure (fetch_request r))
    else if api_key == Constants.api_versions
    then read_api_versions_request >>= (λ r. pure (api_versions_request r))
    else if api_key == Constants.describe_topic_partitions
    then read_describe_topic_partitions_request
      >>= (λ r. pure (describe_topic_partitions_request r))
    else undefined_behaviour

-- What the body of a request message holds: the header, and the request that it announces.
unfoldable pub read_message_body : {S : Type 0} ⦃r : Readable S⦄ → Io S RequestMessage
read_message_body = do
  header ← read_request_header
  request ← read_request header.request_api_key
  pure (record { header = header; request = request })

unfoldable pub read_request_message : {S : Type 0} ⦃r : Readable S⦄ → Io S RequestMessage
read_request_message = do bytes ← read_bytes; run_on read_message_body (new_readable_buffer bytes)

unfoldable pub write_response : {S : Type 0} ⦃w : Writable S⦄ → AbstractResponse → Io S (Unit {0})
write_response (fetch_response r) = write_fetch_response r
write_response (api_versions_response r) = write_api_versions_response r
write_response (describe_topic_partitions_response r) = write_describe_topic_partitions_response r

-- The header and the response as they stand in the buffer `wb`, without the size prefix.
unfoldable pub write_message_body :
    {S : Type 0} ⦃w : Writable S⦄ → ResponseMessage → Io S (Unit {0})
write_message_body message = do
  write_response_header message.header
      (if response_api_key message.response == Constants.api_versions then 0 else 1)
  write_response message.response

-- `wb.buffer()` at the end of the writing.
unfoldable pub buffer_after : {S : Type 0} → Io WritableBuffer (Unit {0}) → Io S Bytes
buffer_after m s = elim (m new_writable_buffer) [
  | ok p ↦ ok (p.1.bytes, s)
  | throw e ↦ throw e
  | undefined ↦ undefined
  | unfinished ↦ unfinished
]

unfoldable pub write_response_message :
    {S : Type 0} ⦃w : Writable S⦄ → ResponseMessage → Io S (Unit {0})
write_response_message message = do
  buffer ← buffer_after (write_message_body message)
  write_bytes buffer
