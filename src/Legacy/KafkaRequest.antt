-- ===== src/Legacy/KafkaRequest.antt =====
-- `KafkaRequest` of src/TCPServer.hpp, which nothing uses.
use kafka_cpp_server.Prelude.{◌++◌, Option, none, some}
use kafka_cpp_server.Protocol.Types.{Bytes, Int32}
use kafka_cpp_server.Protocol.Outcome.{Outcome, ok, undefined}
use kafka_cpp_server.Metadata.Log.{codes, decimal_int32}

-- `client_id` is what the pointer points to, up to the zero byte, or nothing for a null pointer.
pub record KafkaRequest : Type 0 where
  pub api_key : Int32
  pub api_version : Int32
  pub correlation_id : Int32
  pub client_id : Option Bytes

-- To make a string from a null pointer is undefined.
unfoldable pub to_string : KafkaRequest → Outcome Bytes
to_string r = elim r.client_id [
  | none ↦ undefined
  | some client_id ↦ ok (
      codes "API Key: "
      ++ decimal_int32 r.api_key
      ++ codes ", API Version: "
      ++ decimal_int32 r.api_version
      ++ codes ", Correlation ID: "
      ++ decimal_int32 r.correlation_id
      ++ codes ", Client ID: "
      ++ client_id)
]
