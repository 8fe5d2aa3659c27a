-- ===== src/Protocol/Constants.antt =====
-- include/kafka/protocol/constants.hpp. Both enums have the fixed underlying type INT16, so that
-- `static_cast` makes a value of them from any INT16: they are integers with named values.
use kafka_cpp_server.Protocol.Types.{Int16}

abbrev pub ApiKey : Type 0
ApiKey = Int16

abbrev pub fetch : ApiKey
fetch = 1

abbrev pub api_versions : ApiKey
api_versions = 18

abbrev pub describe_topic_partitions : ApiKey
describe_topic_partitions = 75

abbrev pub ErrorCode : Type 0
ErrorCode = Int16

-- `ErrorCode::NONE`
abbrev pub no_error : ErrorCode
no_error = 0

abbrev pub unknown_topic_or_partition : ErrorCode
unknown_topic_or_partition = 3

abbrev pub unsupported_version : ErrorCode
unsupported_version = 35

abbrev pub unknown_topic_id : ErrorCode
unknown_topic_id = 100
