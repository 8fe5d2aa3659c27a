-- ===== src/Protocol/Sequences.antt =====
-- Strings, byte vectors, arrays and tagged fields: each is read back as it was written, within the
-- range of its length prefix.
use kafka_cpp_server.Prelude.{
  ℕ, ◌+◌, ◌-◌, ◌%◌, ◌^◌, ◌<◌, ◌≡◌, refl, List, length, lt→leb, ne→==, All, arith,
}
use mathlib.Core.Path.{subst}
use kafka_cpp_server.Protocol.Types.{Bytes, Uuid}
use kafka_cpp_server.Protocol.Outcome.{Io}
use kafka_cpp_server.Protocol.Stream.{bytes_readable, bytes_writable, read, write}
use kafka_cpp_server.Protocol.Reading.{
  read_uuid, read_compact_string, read_bytes, read_tagged_fields, read_array, read_compact_array,
}
use kafka_cpp_server.Protocol.Writing.{
  write_uuid, write_compact_nullable_string, write_bytes, write_tagged_fields, write_array,
  write_compact_array,
}
use kafka_cpp_server.Protocol.RoundTrip.{
  RoundTrip, RoundTrip-bind, RoundTrip-read, RoundTrip-objects, RoundTrip-accept,
}
use kafka_cpp_server.Protocol.Integers.{RoundTrip-byte, RoundTrip-int32}
use kafka_cpp_server.Protocol.VarInts.{RoundTrip-unsigned_varint}

pub RoundTrip-uuid : (uuid : Uuid) → length uuid ≡ 16 → RoundTrip read_uuid (write_uuid uuid) uuid
unfolding read_uuid write_uuid
RoundTrip-uuid uuid h = subst (λ n. RoundTrip (read n) (write uuid) uuid) h (RoundTrip-read uuid)

pub RoundTrip-tagged_fields : RoundTrip read_tagged_fields write_tagged_fields tt
unfolding read_tagged_fields write_tagged_fields
RoundTrip-tagged_fields = RoundTrip-accept _ (RoundTrip-byte 0 (omega arith)) refl

-- A count that fits its prefix is not changed by it.
count_prefix : (n : ℕ) → n < 2 ^ 32 - 1 → (n + 1) % 2 ^ 32 ≡ n + 1
count_prefix n h = omega arith

size_prefix : (n : ℕ) → n < 2 ^ 31 → n % 2 ^ 32 ≡ n
size_prefix n h = omega arith

one_less : (n : ℕ) → n + 1 - 1 ≡ n
one_less n = omega arith

-- A byte vector of less than 2 ^ 31 bytes is read back from what `write_bytes` has appended, and what
-- follows it is left unread.
pub RoundTrip-bytes :
    (bytes : Bytes) → length bytes < 2 ^ 31 → RoundTrip read_bytes (write_bytes bytes) bytes
unfolding read_bytes write_bytes
RoundTrip-bytes bytes h = rw (size_prefix (length bytes) h) (
    RoundTrip-bind _ (RoundTrip-int32 (length bytes) (omega arith))
      (rw (lt→leb (2 ^ 31) (length bytes) h) (RoundTrip-read bytes)))

-- A string of less than 2 ^ 32 - 1 bytes, written by `write_compact_nullable_string`, is read back by
-- `read_compact_string`, and what follows it is left unread.
pub RoundTrip-compact_string :
    (str : Bytes)
    → length str < 2 ^ 32 - 1
    → RoundTrip read_compact_string (write_compact_nullable_string str) str
unfolding read_compact_string write_compact_nullable_string
RoundTrip-compact_string str h = rw (count_prefix (length str) h) (
    RoundTrip-bind _ (RoundTrip-unsigned_varint (length str + 1) (omega arith))
      (rw (ne→== (length str + 1) 0 (omega arith), one_less (length str)) (RoundTrip-read str)))

module _ {ℓ} {T : Type 0} (P : T → Type ℓ) {reader : Io Bytes T} {writer : T → Io Bytes (Unit {0})}
    (object : (t : T) → P t → RoundTrip reader (writer t) t) where
  -- If each object with `P` is read back by `reader` as `writer` has written it, then so is an ARRAY
  -- of less than 2 ^ 31 such objects.
  pub RoundTrip-array :
      (ts : List T)
      → length ts < 2 ^ 31
      → All P ts
      → RoundTrip (read_array reader) (write_array writer ts) ts
  unfolding read_array write_array
  RoundTrip-array ts h all = rw (size_prefix (length ts) h) (
      RoundTrip-bind _ (RoundTrip-int32 (length ts) (omega arith))
        (rw (lt→leb (2 ^ 31) (length ts) h) (RoundTrip-objects P object ts all)))

  -- If each object with `P` is read back by `reader` as `writer` has written it, then so is a
  -- COMPACT_ARRAY of less than 2 ^ 32 - 1 such objects.
  pub RoundTrip-compact_array :
      (ts : List T)
      → length ts < 2 ^ 32 - 1
      → All P ts
      → RoundTrip (read_compact_array reader) (write_compact_array writer ts) ts
  unfolding read_compact_array write_compact_array
  RoundTrip-compact_array ts h all = rw (count_prefix (length ts) h) (
      RoundTrip-bind _ (RoundTrip-unsigned_varint (length ts + 1) (omega arith)) (
        rw (ne→== (length ts + 1) 0 (omega arith), one_less (length ts))
          (RoundTrip-objects P object ts all)))
