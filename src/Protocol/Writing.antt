-- ===== src/Protocol/Writing.antt =====
-- src/protocol/iwritable.cpp and the templates of iwritable.hpp, over any writable stream.
use kafka_cpp_server.Prelude.{
  ℕ, zero, suc, ◌+◌, ◌-◌, ◌*◌, ◌/◌, ◌%◌, ◌^◌, bit_and, bit_or, bit_xor, List, [], ◌∷◌, length, ltb,
  if◌then◌else◌,
}
use kafka_cpp_server.Protocol.Types.{
  Bytes, Boolean, Int8, Int16, Int32, Int64, UInt32, VarInt, UnsignedVarInt, VarLong,
  UnsignedVarLong, Uuid, CompactNullableString, Array, CompactArray, is_negative,
}
use kafka_cpp_server.Protocol.Constants.{ApiKey, ErrorCode}
use kafka_cpp_server.Protocol.Outcome.{Io, ◌>>◌, pure, out_of_fuel}
use kafka_cpp_server.Protocol.Stream.{Writable, write}
use kafka_cpp_server.Protocol.ByteOrder.{native_endian, store, to_network_byte_order}

-- `(n << 1) ^ (n >> (w - 1))` on a signed integer of `w` bits: the right shift copies the sign.
unfoldable pub zigzag : ℕ → ℕ → ℕ
zigzag w n = bit_xor (n * 2 % 2 ^ w) (if is_negative w n then 2 ^ w - 1 else 0)

module _ {S : Type 0} ⦃w : Writable S⦄ where
  unfoldable pub write_byte : ℕ → Io S (Unit {0})
  write_byte c = write (store native_endian 1 c)

  unfoldable pub write_boolean : Boolean → Io S (Unit {0})
  write_boolean boolean = write_byte (if boolean then 0x01 else 0x00)

  unfoldable pub write_int8 : Int8 → Io S (Unit {0})
  write_int8 n = write (store native_endian 1 n)

  unfoldable pub write_int16 : Int16 → Io S (Unit {0})
  write_int16 n = write (store native_endian 2 (to_network_byte_order native_endian 2 n))

  unfoldable pub write_uint32 : UInt32 → Io S (Unit {0})
  write_uint32 n = write (store native_endian 4 (to_network_byte_order native_endian 4 n))

  unfoldable pub write_int32 : Int32 → Io S (Unit {0})
  unfolding write_uint32
  write_int32 n = write_uint32 n

  unfoldable pub write_int64 : Int64 → Io S (Unit {0})
  write_int64 n = write (store native_endian 8 (to_network_byte_order native_endian 8 n))

  -- The `do` loop: a group of seven bits in each round, with the top bit set if more follow.
  unfoldable pub write_unsigned_varlong_loop : ℕ → UnsignedVarLong → Io S (Unit {0})
  write_unsigned_varlong_loop zero n = out_of_fuel
  write_unsigned_varlong_loop (suc rounds) n =
      let c = bit_and n 0x7F in
      let n' = n / 2 ^ 7 in
      let next = write_unsigned_varlong_loop rounds n' in
      do write_byte (if ltb 0 n' then bit_or c 0x80 else c); if ltb 0 n' then next else pure tt

  -- Ten groups of seven bits hold 64 bits.
  unfoldable pub write_unsigned_varlong : UnsignedVarLong → Io S (Unit {0})
  write_unsigned_varlong n = write_unsigned_varlong_loop 10 n

  unfoldable pub write_unsigned_varint : UnsignedVarInt → Io S (Unit {0})
  write_unsigned_varint n = write_unsigned_varlong n

  unfoldable pub write_varint : VarInt → Io S (Unit {0})
  write_varint n = write_unsigned_varint (zigzag 32 n)

  unfoldable pub write_varlong : VarLong → Io S (Unit {0})
  write_varlong n = write_unsigned_varlong (zigzag 64 n)

  unfoldable pub write_uuid : Uuid → Io S (Unit {0})
  write_uuid uuid = write uuid

  unfoldable pub write_compact_nullable_string : CompactNullableString → Io S (Unit {0})
  write_compact_nullable_string str = do
    write_unsigned_varint ((length str + 1) % 2 ^ 32)
    write str

  unfoldable pub write_bytes : Bytes → Io S (Unit {0})
  write_bytes bytes = do write_int32 (length bytes % 2 ^ 32); write bytes

  unfoldable pub write_tagged_fields : Io S (Unit {0})
  write_tagged_fields = write_byte 0x00

  unfoldable pub write_api_key : ApiKey → Io S (Unit {0})
  write_api_key api_key = write_int16 api_key

  unfoldable pub write_error_code : ErrorCode → Io S (Unit {0})
  write_error_code error_code = write_int16 error_code

module _ {S T : Type 0} where
  -- `object.write(writable)` for each object, or a call of `write_function`.
  unfoldable pub write_objects : (T → Io S (Unit {0})) → List T → Io S (Unit {0})
  write_objects write_object [] = pure tt
  write_objects write_object (object ∷ arr) = do write_object object; write_objects write_object arr

  unfoldable pub write_array : ⦃w : Writable S⦄ → (T → Io S (Unit {0})) → Array T → Io S (Unit {0})
  write_array write_object arr = do
    write_int32 (length arr % 2 ^ 32)
    write_objects write_object arr

  unfoldable pub write_compact_array :
      ⦃w : Writable S⦄ → (T → Io S (Unit {0})) → CompactArray T → Io S (Unit {0})
  write_compact_array write_object arr = do
    write_unsigned_varint ((length arr + 1) % 2 ^ 32)
    write_objects write_object arr
