-- ===== src/Protocol/ReaderEnds.antt =====
-- Each function of IReadable comes to an end.
use kafka_cpp_server.Prelude.{
  ℕ, zero, suc, ◌+◌, ◌*◌, ◌%◌, ◌≤◌, ◌<◌, ◌≡◌, [], true, ltb, ◌==◌, bit_and, arith,
}
use kafka_cpp_server.Protocol.Types.{Bytes, is_negative}
use kafka_cpp_server.Protocol.Outcome.{Io}
use kafka_cpp_server.Protocol.Stream.{bytes_readable, read}
use kafka_cpp_server.Protocol.Reading.{
  read_byte, read_int8, read_int16, read_uint32, read_int32, read_int64, read_unsigned_varlong_loop,
  read_unsigned_varlong, read_varlong, read_varint, read_unsigned_varint, read_uuid,
  read_compact_string, read_nullable_string, read_bytes, read_tagged_fields, read_api_key,
  read_array, read_compact_array,
}
use kafka_cpp_server.Protocol.Progress.{
  Ends, end_rules, Ends-pure, Ends-undefined, Ends-if_known, Ends-if, Ends-some, Ends-bind,
  Ends-read, Ends-take, Ends-objects,
}

pub Ends-byte : Ends 0 read_byte
unfolding read_byte
Ends-byte = search end_rules

pub Ends-int8 : Ends 0 read_int8
unfolding read_int8
Ends-int8 = search end_rules

pub Ends-int16 : Ends 0 read_int16
unfolding read_int16
Ends-int16 = search end_rules

pub Ends-uint32 : Ends 0 read_uint32
unfolding read_uint32
Ends-uint32 = search end_rules

pub Ends-int32 : Ends 0 read_int32
unfolding read_int32
Ends-int32 = Ends-uint32

pub Ends-int64 : Ends 8 read_int64
unfolding read_int64
Ends-int64 = Ends-bind (read 8) _ (Ends-read 8) (λ bs. Ends-pure _)

pub Ends-int64_any : Ends 0 read_int64
Ends-int64_any = Ends-some 8 read_int64 Ends-int64

below_64 : (i : ℕ) → ltb i 64 ≡ true → 64 ≤ i + 7 * 0 → ⊥
below_64 i h k = ground arith

loop-Ends :
    (rounds n i : ℕ)
    → i < 71
    → 64 ≤ i + 7 * rounds
    → Ends 0 (read_unsigned_varlong_loop (suc rounds) n i)
unfolding read_unsigned_varlong_loop
loop-Ends zero n i small enough = Ends-bind read_byte _ Ends-byte (λ c.
    Ends-if_known (ltb i 64) _ _ (λ below. absurd (below_64 i below enough))
      (λ above. Ends-undefined))
loop-Ends (suc rounds) n i small enough = Ends-bind read_byte _ Ends-byte (λ c.
    Ends-if_known (ltb i 64) _ _
      (λ below.
        Ends-if (bit_and c 0x80 == 0) _ _ (Ends-pure _)
          (loop-Ends rounds _ ((i + 7) % 256) (next_small i below) (next_enough i below enough)))
      (λ above. Ends-undefined))
  where
    next_small : (i : ℕ) → ltb i 64 ≡ true → (i + 7) % 256 < 71
    next_small i h = ground arith

    next_enough :
        (i : ℕ) → ltb i 64 ≡ true → 64 ≤ i + 7 * suc rounds → 64 ≤ (i + 7) % 256 + 7 * rounds
    next_enough i h k = ground arith

pub Ends-unsigned_varlong : Ends 0 read_unsigned_varlong
unfolding read_unsigned_varlong
Ends-unsigned_varlong = loop-Ends 10 0 0 (omega arith) (omega arith)

ruleset integer_rules =
    (end_rules, Ends-byte, Ends-int8, Ends-int16, Ends-uint32, Ends-int32, Ends-unsigned_varlong)

pub Ends-varlong : Ends 0 read_varlong
unfolding read_varlong
Ends-varlong = search integer_rules

pub Ends-varint : Ends 0 read_varint
unfolding read_varint
Ends-varint = search (integer_rules, Ends-varlong)

pub Ends-unsigned_varint : Ends 0 read_unsigned_varint
unfolding read_unsigned_varint
Ends-unsigned_varint = search integer_rules

pub Ends-uuid : Ends 0 read_uuid
unfolding read_uuid
Ends-uuid = Ends-take 16

pub Ends-compact_string : Ends 0 read_compact_string
unfolding read_compact_string
Ends-compact_string = search (integer_rules, Ends-unsigned_varint)

pub Ends-nullable_string : Ends 0 read_nullable_string
unfolding read_nullable_string
Ends-nullable_string = search integer_rules

pub Ends-bytes : Ends 0 read_bytes
unfolding read_bytes
Ends-bytes = search integer_rules

pub Ends-tagged_fields : Ends 0 read_tagged_fields
unfolding read_tagged_fields
Ends-tagged_fields = search integer_rules

pub Ends-api_key : Ends 0 read_api_key
unfolding read_api_key
Ends-api_key = Ends-int16

module _ {T : Type 0} (m : Io Bytes T) (h : Ends 0 m) where
  pub Ends-array : Ends 0 (read_array m)
  unfolding read_array
  Ends-array =
      Ends-bind _ _ Ends-int32
        (λ n. Ends-if (is_negative 32 n) _ _ (Ends-pure []) (Ends-objects m n h))

  pub Ends-compact_array : Ends 0 (read_compact_array m)
  unfolding read_compact_array
  Ends-compact_array =
      Ends-bind _ _ Ends-unsigned_varint
        (λ n. Ends-if (n == 0) _ _ (Ends-pure []) (Ends-objects m _ h))
