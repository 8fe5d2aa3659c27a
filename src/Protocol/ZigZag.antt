-- ===== src/Protocol/ZigZag.antt =====
-- The signed variable length integers: the zigzag order, which `write_varint` and `write_varlong`
-- put between a signed integer and an unsigned one.
use kafka_cpp_server.Prelude.{
  ℕ, sym, ◌∙◌, true, false, inl, inr, Bool-cases, ◌==◌, if◌then◌else◌, ◌+◌, ◌-◌, ◌*◌, ◌/◌, ◌%◌, ◌^◌,
  ◌≤◌, ◌<◌, ◌≡◌, ◌≢◌, refl, lt→leb, le→leb, eq→==, ne→==, arith,
}
use kafka_cpp_server.Prelude.Bits.{bit_and_ones, bit_xor-zero, bit_xor_ones}
use mathlib.Core.Path.{subst}
use native.Mathlib.Decide.{dec_lt}
use kafka_cpp_server.Protocol.Stream.{bytes_readable, bytes_writable}
use kafka_cpp_server.Protocol.Reading.{read_varlong, read_varint, unzigzag}
use kafka_cpp_server.Protocol.Writing.{write_varlong, write_varint, write_unsigned_varint, zigzag}
use kafka_cpp_server.Protocol.RoundTrip.{RoundTrip, RoundTrip-last}
use kafka_cpp_server.Protocol.VarInts.{RoundTrip-unsigned_varlong}

-- The order of the zigzag: 0, -1, 1, -2, 2, …
pub zigzag64_nonneg : (n : ℕ) → n < 2 ^ 63 → zigzag 64 n ≡ 2 * n
unfolding zigzag
zigzag64_nonneg n h = rw (lt→leb (2 ^ 63) n h, bit_xor-zero (n * 2 % 2 ^ 64)) (omega arith)

pub zigzag64_neg : (n : ℕ) → 2 ^ 63 ≤ n → n < 2 ^ 64 → zigzag 64 n ≡ 2 ^ 65 - 1 - 2 * n
unfolding zigzag
zigzag64_neg n h k =
    rw (le→leb (2 ^ 63) n h, bit_xor_ones 64 (n * 2 % 2 ^ 64) (omega arith)) (omega arith)

pub zigzag32_nonneg : (n : ℕ) → n < 2 ^ 31 → zigzag 32 n ≡ 2 * n
unfolding zigzag
zigzag32_nonneg n h = rw (lt→leb (2 ^ 31) n h, bit_xor-zero (n * 2 % 2 ^ 32)) (omega arith)

pub zigzag32_neg : (n : ℕ) → 2 ^ 31 ≤ n → n < 2 ^ 32 → zigzag 32 n ≡ 2 ^ 33 - 1 - 2 * n
unfolding zigzag
zigzag32_neg n h k =
    rw (le→leb (2 ^ 31) n h, bit_xor_ones 32 (n * 2 % 2 ^ 32) (omega arith)) (omega arith)

unzigzag_even : (m : ℕ) → m % 2 ≡ 0 → unzigzag m ≡ m / 2
unfolding unzigzag
unzigzag_even m h = rw (bit_and_ones 1 m, eq→== (m % 2) 0 h) refl

unzigzag_odd : (m : ℕ) → m % 2 ≡ 1 → unzigzag m ≡ (2 ^ 64 - (m + 1) % 2 ^ 64 / 2) % 2 ^ 64
unfolding unzigzag
unzigzag_odd m h = rw (bit_and_ones 1 m, ne→== (m % 2) 0 (omega arith)) refl

zigzag64-lt : (n : ℕ) → n < 2 ^ 64 → zigzag 64 n < 2 ^ 64
zigzag64-lt n h = elim (dec_lt n (2 ^ 63)) [
  | yes p ↦ omega (arith, zigzag64_nonneg n p)
  | no p ↦ omega (arith, zigzag64_neg n (omega arith) h)
]

zigzag32-lt : (n : ℕ) → n < 2 ^ 32 → zigzag 32 n < 2 ^ 32
zigzag32-lt n h = elim (dec_lt n (2 ^ 31)) [
  | yes p ↦ omega (arith, zigzag32_nonneg n p)
  | no p ↦ omega (arith, zigzag32_neg n (omega arith) h)
]

pub unzigzag-zigzag64 : (n : ℕ) → n < 2 ^ 64 → n ≢ 2 ^ 63 → unzigzag (zigzag 64 n) ≡ n
unzigzag-zigzag64 n h ne = elim (dec_lt n (2 ^ 63)) [
  | yes p ↦ rw (zigzag64_nonneg n p, unzigzag_even (2 * n) (omega arith)) (omega arith)
  | no p ↦
      rw (zigzag64_neg n (omega arith) h, unzigzag_odd (2 ^ 65 - 1 - 2 * n) (omega arith))
        (omega arith)
]

pub unzigzag-zigzag32 : (n : ℕ) → n < 2 ^ 32 → unzigzag (zigzag 32 n) % 2 ^ 32 ≡ n
unzigzag-zigzag32 n h = elim (dec_lt n (2 ^ 31)) [
  | yes p ↦ rw (zigzag32_nonneg n p, unzigzag_even (2 * n) (omega arith)) (omega arith)
  | no p ↦
      rw (zigzag32_neg n (omega arith) h, unzigzag_odd (2 ^ 33 - 1 - 2 * n) (omega arith))
        (omega arith)
]

pub RoundTrip-varlong :
    (n : ℕ) → n < 2 ^ 64 → n ≢ 2 ^ 63 → RoundTrip read_varlong (write_varlong n) n
unfolding read_varlong write_varlong
RoundTrip-varlong n h ne =
    subst (RoundTrip _ _) (unzigzag-zigzag64 n h ne)
      (RoundTrip-last unzigzag (RoundTrip-unsigned_varlong (zigzag 64 n) (zigzag64-lt n h)))

RoundTrip-varlong_min : RoundTrip read_varlong (write_varlong (2 ^ 63)) 0
unfolding read_varlong write_varlong zigzag unzigzag
RoundTrip-varlong_min =
    RoundTrip-last unzigzag (RoundTrip-unsigned_varlong (2 ^ 64 - 1) (omega arith))

-- Every VARLONG is read back from what `write_varlong` has appended: as it was written, except that
-- the smallest, -2 ^ 63, comes back as 0. What follows is left unread.
pub RoundTrip-varlong_any :
    (n : ℕ) → n < 2 ^ 64 → RoundTrip read_varlong (write_varlong n) (if n == 2 ^ 63 then 0 else n)
RoundTrip-varlong_any n h = elim (Bool-cases (n == 2 ^ 63)) [
  | inl e ↦ rw (e, ==→eq n (2 ^ 63) e) RoundTrip-varlong_min
  | inr e ↦ rw e (RoundTrip-varlong n h (λ k. true≢false (sym (eq→== n (2 ^ 63) k) ∙ e)))
]
  where
    true≢false : true ≢ false
    true≢false k = cc

    ==→eq : (a b : ℕ) → a == b ≡ true → a ≡ b
    ==→eq a b k = ground arith

-- Every VARINT, as a pattern of 32 bits, is read back from what `write_varint` has appended, and what
-- follows it is left unread.
pub RoundTrip-varint : (n : ℕ) → n < 2 ^ 32 → RoundTrip read_varint (write_varint n) n
unfolding read_varint write_varint read_varlong write_unsigned_varint
RoundTrip-varint n h = subst (RoundTrip _ _) (unzigzag-zigzag32 n h) (
    RoundTrip-last (λ m. m % 2 ^ 32)
      (RoundTrip-last unzigzag
        (RoundTrip-unsigned_varlong (zigzag 32 n) (omega (arith, zigzag32-lt n h)))))
