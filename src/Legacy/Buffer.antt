-- ===== src/Legacy/Buffer.antt =====
-- `Buffer` of src/Buffer.hpp and src/Buffer.cpp. A `size_t` has 64 bits.
use kafka_cpp_server.Prelude.{
  ℕ, zero, suc, ◌+◌, ◌%◌, ◌^◌, [], ◌∷◌, length, take, drop, leb, ltb, ◌==◌, if◌then◌else◌,
}
use kafka_cpp_server.Protocol.Types.{Bytes, Int16, Int32}
use kafka_cpp_server.Protocol.Outcome.{Outcome, ok, throw, undefined, unfinished, runtime_error}
use kafka_cpp_server.Protocol.ByteOrder.{native_endian, load, to_host_byte_order}

pub record Buffer : Type 0 where
  pub buffer : Bytes

-- `std::vector<std::byte> v(size)`
unfoldable pub zeros : ℕ → Bytes
zeros zero = []
zeros (suc size) = 0 ∷ zeros size

unfoldable pub new_buffer : ℕ → Buffer
unfolding zeros
new_buffer size = record { buffer = zeros size }

-- `ntohs`, `ntohl` and `be64toh`, or nothing, by the size of the type.
unfoldable pub convert : ℕ → ℕ → ℕ
convert size value =
    if size == 2
    then to_host_byte_order native_endian 2 value
    else if size == 4
    then to_host_byte_order native_endian 4 value
    else if size == 8
    then to_host_byte_order native_endian 8 value
    else value

-- `memcpy(&value, data + offset, size)`, which is undefined unless these bytes are in the vector.
unfoldable pub copy_out : ℕ → ℕ → Bytes → Outcome ℕ
copy_out offset size bytes =
    if leb (offset + size) (length bytes)
    then ok (load native_endian (take size (drop offset bytes)))
    else undefined

unfoldable pub converted : ℕ → Outcome ℕ → Outcome ℕ
unfolding convert
converted size (ok value) = ok (convert size value)
converted size (throw e) = throw e
converted size undefined = undefined
converted size unfinished = unfinished

-- `extractIntFromBuffer<T>`, for a type of `size` bytes.
unfoldable pub extract_int_from_buffer : ℕ → ℕ → Buffer → Outcome ℕ
unfolding copy_out converted
extract_int_from_buffer size offset b =
    if ltb (length b.buffer) ((offset + size) % 2 ^ 64)
    then throw (runtime_error "Buffer is too small for the requested integer.")
    else converted size (copy_out offset size b.buffer)

-- The `catch` after an initialization with 0. What it prints is not modelled.
unfoldable pub zero_if_thrown : Outcome ℕ → Outcome ℕ
zero_if_thrown (ok value) = ok value
zero_if_thrown (throw e) = ok 0
zero_if_thrown undefined = undefined
zero_if_thrown unfinished = unfinished

unfoldable pub extract_correlation_id : ℕ → Buffer → Outcome Int32
unfolding extract_int_from_buffer zero_if_thrown
extract_correlation_id offset b = zero_if_thrown (extract_int_from_buffer 4 offset b)

-- An INT16 that goes through an `int32_t` and back is the same.
unfoldable pub extract_api_version : ℕ → Buffer → Outcome Int16
unfolding extract_int_from_buffer zero_if_thrown
extract_api_version offset b = zero_if_thrown (extract_int_from_buffer 2 offset b)

unfoldable pub extract_api_key : ℕ → Buffer → Outcome Int16
unfolding extract_int_from_buffer zero_if_thrown
extract_api_key offset b = zero_if_thrown (extract_int_from_buffer 2 offset b)
