-- ===== src/Message/ApiVersions.antt =====
-- include/kafka/message/api_versions.hpp.
use kafka_cpp_server.Protocol.Types.{Int16, Int32, CompactString, CompactArray}
use kafka_cpp_server.Protocol.Constants.{ApiKey, ErrorCode}
use kafka_cpp_server.Protocol.Outcome.{Io, ◌>>=◌, ◌>>◌, pure}
use kafka_cpp_server.Protocol.Stream.{Readable, Writable}
use kafka_cpp_server.Protocol.Reading.{read_compact_string, read_tagged_fields}
use kafka_cpp_server.Protocol.Writing.{
  write_api_key, write_int16, write_int32, write_tagged_fields, write_error_code,
  write_compact_array,
}

pub record ApiVersionsRequest : Type 0 where
  pub client_software_name : CompactString
  pub client_software_version : CompactString

pub record ApiVersion : Type 0 where
  pub api_key : ApiKey
  pub min_version : Int16
  pub max_version : Int16

pub record ApiVersionsResponse : Type 0 where
  pub error_code : ErrorCode
  pub api_keys : CompactArray ApiVersion
  pub throttle_time_ms : Int32

unfoldable pub read_api_versions_request : {S : Type 0} ⦃r : Readable S⦄ → Io S ApiVersionsRequest
read_api_versions_request = do
  client_software_name ← read_compact_string
  client_software_version ← read_compact_string
  read_tagged_fields
  pure (record {
    client_software_name = client_software_name;
    client_software_version = client_software_version;
  })

module _ {S : Type 0} ⦃w : Writable S⦄ where
  unfoldable pub write_api_version : ApiVersion → Io S (Unit {0})
  write_api_version object = do
    write_api_key object.api_key
    write_int16 object.min_version
    write_int16 object.max_version
    write_tagged_fields

  unfoldable pub write_api_versions_response : ApiVersionsResponse → Io S (Unit {0})
  write_api_versions_response response = do
    write_error_code response.error_code
    write_compact_array write_api_version response.api_keys
    write_int32 response.throttle_time_ms
    write_tagged_fields
