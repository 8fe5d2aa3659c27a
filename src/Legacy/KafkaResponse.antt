-- ===== src/Legacy/KafkaResponse.antt =====
-- `KafkaResponse` of src/KafkaResponse.hpp and the keys of src/APIVersions.hpp.
use kafka_cpp_server.Prelude.{
  ℕ, zero, suc, ◌+◌, ◌/◌, ◌%◌, ◌^◌, [], ◌∷◌, ◌++◌, length, take, drop, leb, bit_and, bit_or,
  if◌then◌else◌,
}
use kafka_cpp_server.Protocol.Types.{Bytes, Int16, Int32, is_negative}
use kafka_cpp_server.Protocol.Outcome.{Io, ok, ◌>>◌, raise, out_of_fuel, runtime_error}
use kafka_cpp_server.Protocol.ByteOrder.{native_endian, store, to_network_byte_order}
use kafka_cpp_server.Legacy.ErrorCode.{ErrorCode, underlying}
use kafka_cpp_server.Legacy.Buffer.{convert, zeros}

-- `enum APIVersions`
abbrev pub api_key_api_versions : Int32
api_key_api_versions = 18

abbrev pub api_key_describe_topic_partitions : Int32
api_key_describe_topic_partitions = 75

pub record KafkaResponse : Type 0 where
  pub message_size : Int32
  pub correlation_id : Int32
  pub body : Bytes

-- `memcpy(data + offset, src, size)` with the `size` bytes at `src`.
unfoldable pub copy_in : ℕ → Bytes → Bytes → Bytes
copy_in offset src bytes = take offset bytes ++ src ++ drop (offset + length src) bytes

unfoldable pub serialize : KafkaResponse → Bytes
unfolding copy_in zeros
serialize r =
    let total_size = 4 + 4 + length r.body in
    let net_message_size =
      store native_endian 4 (to_network_byte_order native_endian 4 r.message_size) in
    let net_correlation_id =
      store native_endian 4 (to_network_byte_order native_endian 4 r.correlation_id) in
    copy_in 8 r.body (copy_in 4 net_correlation_id (copy_in 0 net_message_size (zeros total_size)))

-- `body.insert(body.end(), ...)`, and `body.emplace_back(...)` with one byte.
unfoldable pub append_bytes : Bytes → Io KafkaResponse (Unit {0})
append_bytes bytes r = ok (tt, record r { body = r.body ++ bytes })

-- `appendToBody<T>`, for a type of `size` bytes.
unfoldable pub append_to_body : ℕ → ℕ → Io KafkaResponse (Unit {0})
unfolding convert append_bytes
append_to_body size value = append_bytes (store native_endian size (convert size value))

-- The `while` loop and the byte after it.
unfoldable pub append_var_int_loop : ℕ → ℕ → Io KafkaResponse (Unit {0})
unfolding append_bytes
append_var_int_loop zero value = out_of_fuel
append_var_int_loop (suc rounds) value =
    let next = append_var_int_loop rounds (value / 2 ^ 7) in
    if leb 0x80 value
    then (append_bytes (bit_or (bit_and value 0x7F) 0x80 ∷ []) >> next)
    else append_bytes (value ∷ [])

-- Five groups of seven bits hold an INT32 that is not negative.
unfoldable pub append_var_int : Int32 → Io KafkaResponse (Unit {0})
unfolding append_var_int_loop
append_var_int value =
    if is_negative 32 value
    then raise (runtime_error "Cannot write negative varint")
    else append_var_int_loop 5 value

unfoldable pub append_api_version : Int32 → Int16 → Int16 → Io KafkaResponse (Unit {0})
unfolding append_to_body
append_api_version api_version min_api_version max_api_version = do
  append_to_body 2 (api_version % 2 ^ 16)
  append_to_body 2 min_api_version
  append_to_body 2 max_api_version
  append_to_body 1 0

unfoldable pub append_raw_to_body : Bytes → Io KafkaResponse (Unit {0})
unfolding append_bytes
append_raw_to_body bytes = append_bytes bytes

unfoldable pub append_error_code : ErrorCode → Io KafkaResponse (Unit {0})
unfolding append_to_body
append_error_code error = append_to_body 2 (underlying error % 2 ^ 16)
