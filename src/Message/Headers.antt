-- ===== src/Message/Headers.antt =====
-- include/kafka/message/headers.hpp.
use kafka_cpp_server.Prelude.{ℕ, ◌==◌, if◌then◌else◌}
use kafka_cpp_server.Protocol.Types.{Int16, Int32, NullableString}
use kafka_cpp_server.Protocol.Constants.{ApiKey}
use kafka_cpp_server.Protocol.Outcome.{Io, ◌>>=◌, ◌>>◌, pure}
use kafka_cpp_server.Protocol.Stream.{Readable, Writable}
use kafka_cpp_server.Protocol.Reading.{
  read_api_key, read_int16, read_int32, read_nullable_string, read_tagged_fields,
}
use kafka_cpp_server.Protocol.Writing.{write_int32, write_tagged_fields}

pub record RequestHeader : Type 0 where
  pub request_api_key : ApiKey
  pub request_api_version : Int16
  pub correlation_id : Int32
  pub client_id : NullableString

pub record ResponseHeader : Type 0 where
  pub correlation_id : Int32

unfoldable pub read_request_header : {S : Type 0} ⦃r : Readable S⦄ → Io S RequestHeader
read_request_header = do
  request_api_key ← read_api_key
  request_api_version ← read_int16
  correlation_id ← read_int32
  client_id ← read_nullable_string
  read_tagged_fields
  pure (record {
    request_api_key = request_api_key;
    request_api_version = request_api_version;
    correlation_id = correlation_id;
    client_id = client_id;
  })

unfoldable pub write_response_header :
    {S : Type 0} ⦃w : Writable S⦄ → ResponseHeader → (version : ℕ) → Io S (Unit {0})
write_response_header header version = do
  write_int32 header.correlation_id
  if version == 0 then pure tt else write_tagged_fields
