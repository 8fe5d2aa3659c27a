-- ===== src/Protocol/Appends.antt =====
-- Writing to a WritableBuffer: every writer of Writing appends some bytes to what the buffer holds,
-- and never fails.
use kafka_cpp_server.Prelude.{
  ℕ, zero, suc, ◌+◌, ◌*◌, ◌/◌, ◌%◌, ◌^◌, ◌<◌, ◌≡◌, refl, sym, ap, List, [], ◌∷◌, ◌++◌, append_assoc,
  append-nil, Bool, true, false, ltb, length, le→ltb, lt→leb, le→leb, if◌then◌else◌, arith,
}
use native.Mathlib.Nat.{pow-suc}
use native.Mathlib.Decide.{dec_lt}
use kafka_cpp_server.Prelude.Bits.{bit_xor-zero, bit_xor_ones}
use kafka_cpp_server.Protocol.Types.{Bytes}
use kafka_cpp_server.Protocol.Outcome.{Io, ok, ◌>>=◌, ◌>>◌, pure}
use kafka_cpp_server.Protocol.Stream.{bytes_writable, write}
use kafka_cpp_server.Protocol.Buffers.{WritableBuffer, write_buffer, buffer_writable}
use kafka_cpp_server.Protocol.Writing.{
  write_byte, write_boolean, write_int8, write_int16, write_uint32, write_int32, write_int64,
  write_unsigned_varlong_loop, write_unsigned_varlong, write_unsigned_varint, write_varint,
  write_varlong, write_uuid, write_compact_nullable_string, write_tagged_fields, write_api_key,
  write_error_code, write_objects, write_array, write_compact_array, zigzag,
}

-- A writer appends the same bytes to a buffer and to a list of bytes.
pub record Appends (writer : Io WritableBuffer (Unit {0})) (spec : Io Bytes (Unit {0}))
    : Type 0 where
  pub wire : Bytes
  pub writes : (wb : WritableBuffer) → writer wb ≡ ok (tt, record { bytes = wb.bytes ++ wire })
  pub writes_bytes : (s : Bytes) → spec s ≡ ok (tt, s ++ wire)

pub Appends-write : (bs : Bytes) → Appends (write bs) (write bs)
unfolding write_buffer
Appends-write bs = record { wire = bs; writes = λ wb. refl; writes_bytes = λ s. refl }

pub Appends-pure : Appends (pure tt) (pure tt)
unfolding pure
Appends-pure = record {
  wire = [];
  writes = λ wb. ap (λ (l : Bytes). ok (tt, record { bytes = l })) (sym (append-nil wb.bytes));
  writes_bytes = λ s. ap (λ (l : Bytes). ok (tt, l)) (sym (append-nil s));
}

pub Appends-bind :
    (m k : Io WritableBuffer (Unit {0})) (x y : Io Bytes (Unit {0}))
    → Appends m x
    → Appends k y
    → Appends (m >> k) (x >> y)
unfolding ◌>>=◌
Appends-bind m k x y first second = record {
  wire = first.wire ++ second.wire;
  writes = λ wb. rw (first.writes wb, second.writes, append_assoc);
  writes_bytes = λ s. rw (first.writes_bytes s, second.writes_bytes, append_assoc);
}

pub Appends-if :
    (b : Bool) (m k : Io WritableBuffer (Unit {0})) (x y : Io Bytes (Unit {0}))
    → Appends m x
    → Appends k y
    → Appends (if b then m else k) (if b then x else y)
Appends-if true m k x y p q = p
Appends-if false m k x y p q = q

pub ruleset append_rules = (Appends-write, Appends-pure, Appends-bind, Appends-if)

pub Appends-byte : (n : ℕ) → Appends (write_byte n) (write_byte n)
unfolding write_byte
Appends-byte n = search append_rules

pub Appends-boolean : (b : Bool) → Appends (write_boolean b) (write_boolean b)
unfolding write_boolean
Appends-boolean b = search Appends-byte

pub Appends-int8 : (n : ℕ) → Appends (write_int8 n) (write_int8 n)
unfolding write_int8
Appends-int8 n = search append_rules

pub Appends-int16 : (n : ℕ) → Appends (write_int16 n) (write_int16 n)
unfolding write_int16
Appends-int16 n = search append_rules

pub Appends-uint32 : (n : ℕ) → Appends (write_uint32 n) (write_uint32 n)
unfolding write_uint32
Appends-uint32 n = search append_rules

pub Appends-int32 : (n : ℕ) → Appends (write_int32 n) (write_int32 n)
unfolding write_int32
Appends-int32 n = search append_rules

pub Appends-int64 : (n : ℕ) → Appends (write_int64 n) (write_int64 n)
unfolding write_int64
Appends-int64 n = search append_rules

pub Appends-uuid : (uuid : Bytes) → Appends (write_uuid uuid) (write_uuid uuid)
unfolding write_uuid
Appends-uuid uuid = search append_rules

pub Appends-tagged_fields : Appends write_tagged_fields write_tagged_fields
unfolding write_tagged_fields
Appends-tagged_fields = search Appends-byte

pub Appends-api_key : (n : ℕ) → Appends (write_api_key n) (write_api_key n)
unfolding write_api_key
Appends-api_key n = search Appends-int16

pub Appends-error_code : (n : ℕ) → Appends (write_error_code n) (write_error_code n)
unfolding write_error_code
Appends-error_code n = search Appends-int16

-- Rounds for all groups of seven bits are enough.
Appends-unsigned_varlong_loop :
    (k n : ℕ)
    → n < 128 ^ suc k
    → Appends (write_unsigned_varlong_loop (suc k) n) (write_unsigned_varlong_loop (suc k) n)
unfolding write_unsigned_varlong_loop
Appends-unsigned_varlong_loop zero n h =
    rw (le→ltb 0 (n / 2 ^ 7) (omega arith)) (search (append_rules, Appends-byte))
Appends-unsigned_varlong_loop (suc k) n h =
    let again : Appends (write_unsigned_varlong_loop (suc k) (n / 2 ^ 7))
        (write_unsigned_varlong_loop (suc k) (n / 2 ^ 7)) =
      Appends-unsigned_varlong_loop k (n / 2 ^ 7) (omega (arith, pow-suc 128 (suc k))) in
    Appends-bind _ _ _ _ (Appends-byte _)
      (Appends-if (ltb 0 (n / 2 ^ 7)) _ _ _ _ again Appends-pure)

pub Appends-unsigned_varlong :
    (n : ℕ) → n < 2 ^ 64 → Appends (write_unsigned_varlong n) (write_unsigned_varlong n)
unfolding write_unsigned_varlong
Appends-unsigned_varlong n h = Appends-unsigned_varlong_loop 9 n (omega arith)

-- A word for any count, since the prefix is cut to 32 bits.
Appends-count :
    (n : ℕ) → Appends (write_unsigned_varint (n % 2 ^ 32)) (write_unsigned_varint (n % 2 ^ 32))
unfolding write_unsigned_varint
Appends-count n = Appends-unsigned_varlong (n % 2 ^ 32) (omega arith)

zigzag32_fits : (n : ℕ) → zigzag 32 n < 2 ^ 64
unfolding zigzag
zigzag32_fits n = elim (dec_lt n (2 ^ 31)) [
  | yes h ↦ rw (lt→leb (2 ^ 31) n h, bit_xor-zero (n * 2 % 2 ^ 32)) (omega arith)
  | no h ↦
      rw (le→leb (2 ^ 31) n (omega arith), bit_xor_ones 32 (n * 2 % 2 ^ 32) (omega arith))
        (omega arith)
]

zigzag64_fits : (n : ℕ) → zigzag 64 n < 2 ^ 64
unfolding zigzag
zigzag64_fits n = elim (dec_lt n (2 ^ 63)) [
  | yes h ↦ rw (lt→leb (2 ^ 63) n h, bit_xor-zero (n * 2 % 2 ^ 64)) (omega arith)
  | no h ↦
      rw (le→leb (2 ^ 63) n (omega arith), bit_xor_ones 64 (n * 2 % 2 ^ 64) (omega arith))
        (omega arith)
]

pub Appends-varint : (n : ℕ) → Appends (write_varint n) (write_varint n)
unfolding write_varint write_unsigned_varint
Appends-varint n = Appends-unsigned_varlong (zigzag 32 n) (zigzag32_fits n)

pub Appends-varlong : (n : ℕ) → Appends (write_varlong n) (write_varlong n)
unfolding write_varlong
Appends-varlong n = Appends-unsigned_varlong (zigzag 64 n) (zigzag64_fits n)

pub Appends-compact_nullable_string :
    (str : Bytes) → Appends (write_compact_nullable_string str) (write_compact_nullable_string str)
unfolding write_compact_nullable_string
Appends-compact_nullable_string str =
    Appends-bind _ _ _ _ (Appends-count (length str + 1)) (Appends-write str)

module _ {T : Type 0} (writer : T → Io WritableBuffer (Unit {0})) (spec : T → Io Bytes (Unit {0}))
    (object : (t : T) → Appends (writer t) (spec t)) where
  Appends-objects : (ts : List T) → Appends (write_objects writer ts) (write_objects spec ts)
  unfolding write_objects
  Appends-objects [] = Appends-pure
  Appends-objects (t ∷ ts) = Appends-bind _ _ _ _ (object t) (Appends-objects ts)

  pub Appends-array : (ts : List T) → Appends (write_array writer ts) (write_array spec ts)
  unfolding write_array
  Appends-array ts = Appends-bind _ _ _ _ (Appends-int32 (length ts % 2 ^ 32)) (Appends-objects ts)

  pub Appends-compact_array :
      (ts : List T) → Appends (write_compact_array writer ts) (write_compact_array spec ts)
  unfolding write_compact_array
  Appends-compact_array ts =
      Appends-bind _ _ _ _ (Appends-count (length ts + 1)) (Appends-objects ts)

pub ruleset appends_rules = (
  append_rules, Appends-byte, Appends-boolean, Appends-int8, Appends-int16, Appends-uint32,
  Appends-int32, Appends-int64, Appends-uuid, Appends-tagged_fields, Appends-api_key,
  Appends-error_code, Appends-varint, Appends-varlong, Appends-compact_nullable_string,
  Appends-array, Appends-compact_array,
)
