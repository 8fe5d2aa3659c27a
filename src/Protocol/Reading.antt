-- ===== src/Protocol/Reading.antt =====
-- src/protocol/ireadable.cpp and the templates of ireadable.hpp, over any readable stream. A width
-- is a number of bytes in `load`, and a number of bits in `is_negative`.
use kafka_cpp_server.Prelude.{
  ℕ, zero, suc, ◌+◌, ◌-◌, ◌*◌, ◌/◌, ◌%◌, ◌^◌, bit_and, List, [], ◌∷◌, ltb, ◌==◌, if◌then◌else◌,
}
use kafka_cpp_server.Protocol.Types.{
  Bytes, Int8, Int16, Int32, Int64, UInt32, VarInt, UnsignedVarInt, VarLong, UnsignedVarLong, Uuid,
  CompactString, NullableString, Array, CompactArray, is_negative,
}
use kafka_cpp_server.Protocol.Constants.{ApiKey}
use kafka_cpp_server.Protocol.Outcome.{
  Io, ◌>>=◌, pure, raise, undefined_behaviour, out_of_fuel, runtime_error, length_error,
}
use kafka_cpp_server.Protocol.Stream.{Readable, read}
use kafka_cpp_server.Protocol.ByteOrder.{native_endian, load, to_host_byte_order}

-- `-((n + 1) >> 1)` or `n >> 1` on an unsigned integer of 64 bits, cast to a signed one.
unfoldable pub unzigzag : UnsignedVarLong → VarLong
unzigzag n = if bit_and n 1 == 0 then n / 2 else (2 ^ 64 - (n + 1) % 2 ^ 64 / 2) % 2 ^ 64

module _ {S : Type 0} ⦃r : Readable S⦄ where
  -- `readable.read(&c, sizeof(c))` for an object `c` of one byte.
  unfoldable pub read_byte : Io S ℕ
  read_byte = do bs ← read 1; pure (load native_endian bs)

  unfoldable pub read_int8 : Io S Int8
  read_int8 = do bs ← read 1; pure (load native_endian bs)

  unfoldable pub read_int16 : Io S Int16
  read_int16 = do bs ← read 2; pure (to_host_byte_order native_endian 2 (load native_endian bs))

  unfoldable pub read_uint32 : Io S UInt32
  read_uint32 = do bs ← read 4; pure (to_host_byte_order native_endian 4 (load native_endian bs))

  unfoldable pub read_int32 : Io S Int32
  unfolding read_uint32
  read_int32 = read_uint32

  unfoldable pub read_int64 : Io S Int64
  read_int64 = do bs ← read 8; pure (to_host_byte_order native_endian 8 (load native_endian bs))

  -- The loop with its sum `n` and its shift `i`, an `unsigned char`. A shift by 64 or more is
  -- undefined.
  unfoldable pub read_unsigned_varlong_loop : ℕ → UnsignedVarLong → ℕ → Io S UnsignedVarLong
  read_unsigned_varlong_loop zero n i = out_of_fuel
  read_unsigned_varlong_loop (suc rounds) n i = do
    c ← read_byte
    let n' = (n + bit_and c 0x7F * 2 ^ i % 2 ^ 64) % 2 ^ 64
    let next = read_unsigned_varlong_loop rounds n' ((i + 7) % 256)
    if ltb i 64 then (if bit_and c 0x80 == 0 then pure n' else next) else undefined_behaviour

  -- The eleventh round, if it is reached, shifts by 70.
  unfoldable pub read_unsigned_varlong : Io S UnsignedVarLong
  read_unsigned_varlong = read_unsigned_varlong_loop 11 0 0

  unfoldable pub read_varlong : Io S VarLong
  read_varlong = do n ← read_unsigned_varlong; pure (unzigzag n)

  unfoldable pub read_varint : Io S VarInt
  read_varint = do n ← read_varlong; pure (n % 2 ^ 32)

  unfoldable pub read_unsigned_varint : Io S UnsignedVarInt
  read_unsigned_varint = do n ← read_unsigned_varlong; pure (n % 2 ^ 32)

  unfoldable pub read_uuid : Io S Uuid
  read_uuid = read 16

  unfoldable pub read_compact_string : Io S CompactString
  read_compact_string = do n ← read_unsigned_varint; if n == 0 then pure [] else read (n - 1)

  unfoldable pub read_nullable_string : Io S NullableString
  read_nullable_string = do n ← read_int16; if is_negative 16 n then pure [] else read n

  -- `BYTES bytes(n)` throws if `n` is negative, since it becomes a huge size.
  unfoldable pub read_bytes : Io S Bytes
  read_bytes = do n ← read_int32; if is_negative 32 n then raise length_error else read n

  unfoldable pub read_tagged_fields : Io S (Unit {0})
  read_tagged_fields = do
    c ← read_byte
    if c == 0x00 then pure tt else raise (runtime_error "unexpected tagged fields")

  unfoldable pub read_api_key : Io S ApiKey
  read_api_key = read_int16

module _ {S T : Type 0} where
  -- `object.read(readable)` for each of `n` objects, or `n` calls of `read_function`.
  unfoldable pub read_objects : Io S T → ℕ → Io S (List T)
  read_objects read_object zero = pure []
  read_objects read_object (suc n) = do
    object ← read_object
    arr ← read_objects read_object n
    pure (object ∷ arr)

  unfoldable pub read_array : ⦃r : Readable S⦄ → Io S T → Io S (Array T)
  read_array read_object = do
    n ← read_int32
    if is_negative 32 n then pure [] else read_objects read_object n

  unfoldable pub read_compact_array : ⦃r : Readable S⦄ → Io S T → Io S (CompactArray T)
  read_compact_array read_object = do
    n ← read_unsigned_varint
    if n == 0 then pure [] else read_objects read_object (n - 1)
