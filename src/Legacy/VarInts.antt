-- ===== src/Legacy/VarInts.antt =====
-- `appendVarInt` of the first server, compared with `write_unsigned_varint` of src/protocol/iwritable.cpp.
use kafka_cpp_server.Prelude.{
  ℕ, zero, suc, ◌+◌, ◌/◌, ◌%◌, ◌^◌, ◌≤◌, ◌<◌, ◌≡◌, refl, ap, ◌∙◌, [], ◌∷◌, ◌++◌, append_assoc, leb,
  lt→ltb, le→ltb, le→leb, lt→leb, if◌then◌else◌, arith,
}
use kafka_cpp_server.Prelude.Bits.{set_top_bit, bit_and_ones}
use native.Mathlib.Nat.{pow-suc}
use native.Mathlib.Decide.{dec_lt}
use kafka_cpp_server.Protocol.Types.{Bytes, Int32}
use kafka_cpp_server.Protocol.Outcome.{ok, ◌>>=◌, pure}
use kafka_cpp_server.Protocol.Stream.{bytes_writable}
use kafka_cpp_server.Protocol.ByteOrder.{store, le_bytes}
use kafka_cpp_server.Protocol.Writing.{
  write_byte, write_unsigned_varlong_loop, write_unsigned_varlong, write_unsigned_varint,
}
use kafka_cpp_server.Protocol.VarInts.{last_byte, inner_byte}
use kafka_cpp_server.Legacy.KafkaResponse.{
  KafkaResponse, append_bytes, append_var_int_loop, append_var_int,
}

-- The groups of seven bits of a number, with `more` groups after the first at most.
abbrev groups : ℕ → ℕ → Bytes
groups zero n = n ∷ []
groups (suc more) n = if leb 128 n then (n % 128 + 128) ∷ groups more (n / 128) else n ∷ []

few_groups : (more n : ℕ) → n < 128 → groups more n ≡ n ∷ []
few_groups zero n h = refl
few_groups (suc more) n h = rw (lt→leb 128 n h)

more_groups : (more n : ℕ) → 128 ≤ n → groups (suc more) n ≡ (n % 128 + 128) ∷ groups more (n / 128)
more_groups more n h = rw (le→leb 128 n h)

append_last :
    (rounds value : ℕ) (r : KafkaResponse)
    → value < 128
    → append_var_int_loop (suc rounds) value r ≡ ok (tt, record r { body = r.body ++ value ∷ [] })
unfolding append_var_int_loop append_bytes
append_last rounds value r h = rw (lt→leb 128 value h)

append_inner :
    (rounds value : ℕ) (r : KafkaResponse)
    → 128 ≤ value
    → append_var_int_loop (suc rounds) value r
      ≡ append_var_int_loop rounds
          (value / 128)
          (record r { body = r.body ++ (value % 128 + 128) ∷ [] })
unfolding append_var_int_loop append_bytes ◌>>=◌
append_inner rounds value r h =
    rw (le→leb 128 value h, bit_and_ones 7 value, set_top_bit (value % 128) (omega arith))

append_var_int_loop-groups :
    (more value : ℕ) (r : KafkaResponse)
    → value < 128 ^ suc more
    → append_var_int_loop (suc more) value r
      ≡ ok (tt, record r { body = r.body ++ groups more value })
append_var_int_loop-groups zero value r h = append_last zero value r (omega arith)
append_var_int_loop-groups (suc more) value r h = elim (dec_lt value 128) [
  | yes small ↦ rw (few_groups (suc more) value small) (append_last (suc more) value r small)
  | no large ↦
      append_inner (suc more) value r (omega arith)
      ∙ append_var_int_loop-groups more (value / 128) _ (omega (arith, pow-suc 128 (suc more)))
      ∙ rw (more_groups more value (omega arith), append_assoc) refl
]

byte_written : (c : ℕ) (s : Bytes) → c < 256 → write_byte c s ≡ ok (tt, s ++ c ∷ [])
unfolding write_byte store le_bytes
byte_written c s h = ap (λ (x : ℕ). ok (tt, s ++ x ∷ [])) (omega arith)

write_last :
    (rounds value : ℕ) (s : Bytes)
    → value < 128
    → write_unsigned_varlong_loop (suc rounds) value s ≡ ok (tt, s ++ value ∷ [])
unfolding write_unsigned_varlong_loop ◌>>=◌ pure
write_last rounds value s h =
    rw (
      last_byte value h,
      le→ltb 0 (value / 2 ^ 7) (omega arith),
      byte_written value s (omega arith),
    )

write_inner :
    (rounds value : ℕ) (s : Bytes)
    → 128 ≤ value
    → write_unsigned_varlong_loop (suc rounds) value s
      ≡ write_unsigned_varlong_loop rounds (value / 128) (s ++ (value % 128 + 128) ∷ [])
unfolding write_unsigned_varlong_loop ◌>>=◌
write_inner rounds value s h = rw (
  inner_byte value h,
  lt→ltb 0 (value / 2 ^ 7) (omega arith),
  byte_written (value % 128 + 128) s (omega arith),
)

write_unsigned_varlong_loop-groups :
    (more rounds value : ℕ) (s : Bytes)
    → more ≤ rounds
    → value < 128 ^ suc more
    → write_unsigned_varlong_loop (suc rounds) value s ≡ ok (tt, s ++ groups more value)
write_unsigned_varlong_loop-groups zero rounds value s k h = write_last rounds value s (omega arith)
write_unsigned_varlong_loop-groups (suc more) zero value s k h = absurd (omega arith)
write_unsigned_varlong_loop-groups (suc more) (suc rounds) value s k h = elim (dec_lt value 128) [
  | yes small ↦ rw (few_groups (suc more) value small) (write_last (suc rounds) value s small)
  | no large ↦
      write_inner (suc rounds) value s (omega arith)
      ∙ write_unsigned_varlong_loop-groups more rounds (value / 128) _ (omega arith)
          (omega (arith, pow-suc 128 (suc more)))
      ∙ rw (more_groups more value (omega arith), append_assoc) refl
]

-- An INT32 that is not negative is appended to the body of a response as just the bytes that
-- `write_unsigned_varint` writes for it.
pub append_var_int-write_unsigned_varint :
    (value : Int32) (r : KafkaResponse)
    → value < 2 ^ 31
    → (wire : Bytes) × (append_var_int value r ≡ ok (tt, record r { body = r.body ++ wire }))
      × (write_unsigned_varint value r.body ≡ ok (tt, r.body ++ wire))
unfolding append_var_int write_unsigned_varint write_unsigned_varlong
append_var_int-write_unsigned_varint value r h = (
  groups 4 value,
  rw (lt→leb (2 ^ 31) value h) (append_var_int_loop-groups 4 value r (omega arith)),
  write_unsigned_varlong_loop-groups 4 9 value r.body (omega arith) (omega arith),
)
