-- ===== src/Protocol/Readers.antt =====
-- Every reader of Reading runs on a stream of the program as it runs on the stream's bytes.
use kafka_cpp_server.Prelude.{ℕ, zero, suc, ◌+◌, ◌*◌, ◌%◌, ◌^◌, bit_and}
use kafka_cpp_server.Protocol.Types.{Bytes}
use kafka_cpp_server.Protocol.Outcome.{Io}
use kafka_cpp_server.Protocol.Stream.{Readable, read, bytes_readable}
use kafka_cpp_server.Protocol.Reading.{
  read_byte, read_int8, read_int16, read_uint32, read_int32, read_int64, read_unsigned_varlong_loop,
  read_unsigned_varlong, read_varlong, read_varint, read_unsigned_varint, read_uuid,
  read_compact_string, read_nullable_string, read_bytes, read_tagged_fields, read_api_key,
  read_array, read_compact_array,
}
use kafka_cpp_server.Protocol.Simulation.{Simulates, IsStream, simulation_rules}

module _ {S : Type 0} ⦃r : Readable S⦄ (valid : S → Type 0) (view : S → Bytes)
    (stream : IsStream valid view) where
  Simulates-read : (n : ℕ) → Simulates valid view (read n) (read n)
  Simulates-read n = stream.read_refines n

  pub Simulates-byte : Simulates valid view read_byte read_byte
  unfolding read_byte
  Simulates-byte = search (simulation_rules, Simulates-read)

  pub Simulates-int8 : Simulates valid view read_int8 read_int8
  unfolding read_int8
  Simulates-int8 = search (simulation_rules, Simulates-read)

  pub Simulates-int16 : Simulates valid view read_int16 read_int16
  unfolding read_int16
  Simulates-int16 = search (simulation_rules, Simulates-read)

  pub Simulates-int32 : Simulates valid view read_int32 read_int32
  unfolding read_int32
  Simulates-int32 = search (simulation_rules, Simulates-read)

  pub Simulates-uint32 : Simulates valid view read_uint32 read_uint32
  unfolding read_uint32
  Simulates-uint32 = search (simulation_rules, Simulates-read)

  pub Simulates-int64 : Simulates valid view read_int64 read_int64
  unfolding read_int64
  Simulates-int64 = search (simulation_rules, Simulates-read)

  Simulates-unsigned_varlong_loop :
      (rounds n i : ℕ)
      → Simulates valid view
          (read_unsigned_varlong_loop rounds n i)
          (read_unsigned_varlong_loop rounds n i)
  unfolding read_unsigned_varlong_loop
  Simulates-unsigned_varlong_loop zero n i = search (simulation_rules)
  Simulates-unsigned_varlong_loop (suc rounds) n i =
      let again = λ (c : ℕ).
        Simulates-unsigned_varlong_loop rounds ((n + bit_and c 0x7F * 2 ^ i % 2 ^ 64) % 2 ^ 64)
          ((i + 7) % 256) in
      search (simulation_rules, Simulates-byte, again)

  pub Simulates-unsigned_varlong : Simulates valid view read_unsigned_varlong read_unsigned_varlong
  unfolding read_unsigned_varlong
  Simulates-unsigned_varlong = Simulates-unsigned_varlong_loop 11 0 0

  pub Simulates-varlong : Simulates valid view read_varlong read_varlong
  unfolding read_varlong
  Simulates-varlong = search (simulation_rules, Simulates-unsigned_varlong)

  pub Simulates-varint : Simulates valid view read_varint read_varint
  unfolding read_varint
  Simulates-varint = search (simulation_rules, Simulates-varlong)

  pub Simulates-unsigned_varint : Simulates valid view read_unsigned_varint read_unsigned_varint
  unfolding read_unsigned_varint
  Simulates-unsigned_varint = search (simulation_rules, Simulates-unsigned_varlong)

  pub Simulates-uuid : Simulates valid view read_uuid read_uuid
  unfolding read_uuid
  Simulates-uuid = Simulates-read 16

  pub Simulates-compact_string : Simulates valid view read_compact_string read_compact_string
  unfolding read_compact_string
  Simulates-compact_string = search (simulation_rules, Simulates-read, Simulates-unsigned_varint)

  pub Simulates-nullable_string : Simulates valid view read_nullable_string read_nullable_string
  unfolding read_nullable_string
  Simulates-nullable_string = search (simulation_rules, Simulates-read, Simulates-int16)

  pub Simulates-bytes : Simulates valid view read_bytes read_bytes
  unfolding read_bytes
  Simulates-bytes = search (simulation_rules, Simulates-read, Simulates-int32)

  pub Simulates-tagged_fields : Simulates valid view read_tagged_fields read_tagged_fields
  unfolding read_tagged_fields
  Simulates-tagged_fields = search (simulation_rules, Simulates-byte)

  pub Simulates-api_key : Simulates valid view read_api_key read_api_key
  unfolding read_api_key
  Simulates-api_key = Simulates-int16

  module _ {T : Type 0} (m : Io S T) (x : Io Bytes T) (object : Simulates valid view m x) where
    pub Simulates-array : Simulates valid view (read_array m) (read_array x)
    unfolding read_array
    Simulates-array = search (simulation_rules, Simulates-int32)

    pub Simulates-compact_array : Simulates valid view (read_compact_array m) (read_compact_array x)
    unfolding read_compact_array
    Simulates-compact_array = search (simulation_rules, Simulates-unsigned_varint)
