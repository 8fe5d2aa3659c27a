-- ===== src/Protocol/VarInts.antt =====
-- The variable length integers: groups of seven bits, lowest first, and the zigzag order of signs.
use kafka_cpp_server.Prelude.{
  ℕ, zero, suc, ◌+◌, ◌*◌, ◌/◌, ◌%◌, ◌^◌, ◌≤◌, ◌<◌, ◌≡◌, ap, bit_and, bit_or, ltb, ◌==◌, lt→ltb,
  le→ltb, eq→==, ne→==, if◌then◌else◌, true, false, arith,
}
use kafka_cpp_server.Prelude.Bits.{low_bits, top_bit, set_top_bit, bit_and_ones}
use native.Mathlib.Nat.{pow-suc, div-add-mod, add_assoc}
use native.Mathlib.Decide.{dec_lt}
use mathlib.Core.Path.{subst}
use native.Mathlib.Numerals.{towards_suc}
use kafka_cpp_server.Protocol.Stream.{bytes_readable, bytes_writable}
use kafka_cpp_server.Protocol.Reading.{
  read_unsigned_varlong_loop, read_unsigned_varlong, read_unsigned_varint,
}
use kafka_cpp_server.Protocol.Writing.{
  write_unsigned_varlong_loop, write_unsigned_varlong, write_unsigned_varint,
}
use kafka_cpp_server.Protocol.RoundTrip.{RoundTrip, RoundTrip-bind, RoundTrip-pure, RoundTrip-last}
use kafka_cpp_server.Protocol.Integers.{RoundTrip-byte}

-- What a round of the reader does with the byte `c`.
abbrev absorb : ℕ → ℕ → ℕ → ℕ
absorb acc c i = (acc + bit_and c 0x7F * 2 ^ i % 2 ^ 64) % 2 ^ 64

pub last_byte :
    (n : ℕ)
    → n < 128
    → (if ltb 0 (n / 2 ^ 7) then bit_or (bit_and n 0x7F) 0x80 else bit_and n 0x7F) ≡ n
last_byte n h = rw (le→ltb 0 (n / 2 ^ 7) (omega arith), bit_and_ones 7 n) (omega arith)

pub inner_byte :
    (n : ℕ)
    → 128 ≤ n
    → (if ltb 0 (n / 2 ^ 7) then bit_or (bit_and n 0x7F) 0x80 else bit_and n 0x7F) ≡ n % 128 + 128
inner_byte n h =
    rw (lt→ltb 0 (n / 2 ^ 7) (omega arith), bit_and_ones 7 n) (set_top_bit (n % 128) (omega arith))

absorb_last : (acc n i : ℕ) → n < 128 → acc + n * 2 ^ i < 2 ^ 64 → absorb acc n i ≡ acc + n * 2 ^ i
absorb_last acc n i h fits = rw (low_bits n (omega arith)) (ground arith)

absorb_inner :
    (acc g i : ℕ) → g < 128 → acc + g * 2 ^ i < 2 ^ 64 → absorb acc (g + 128) i ≡ acc + g * 2 ^ i
absorb_inner acc g i h fits = rw (low_bits (g + 128) (omega arith)) (ground arith)

stop_bit : (n : ℕ) → n < 128 → (bit_and n 0x80 == 0) ≡ true
stop_bit n h = rw (top_bit n (omega arith)) (eq→== _ _ (omega arith))

more_bit : (g : ℕ) → g < 128 → (bit_and (g + 128) 0x80 == 0) ≡ false
more_bit g h = rw (top_bit (g + 128) (omega arith)) (ne→== _ _ (omega arith))

shift_seven : (i : ℕ) → 2 ^ (i + 7) ≡ 128 * 2 ^ i
shift_seven i = simp towards_suc (omega arith)

-- The lowest group of `n`, and the rest of it seven bits higher.
split_group : (n i : ℕ) → n * 2 ^ i ≡ n % 128 * 2 ^ i + n / 2 ^ 7 * 2 ^ (i + 7)
split_group n i = omega (
  arith,
  ap (λ (t : ℕ). t * 2 ^ i) (div-add-mod n 128),
  ap (λ (t : ℕ). n / 128 * t) (shift_seven i),
)

-- One round of the reader, on a last byte and on one with more behind it.
RoundTrip-last_round :
    (k r acc i n : ℕ)
    → n < 128
    → i < 64
    → acc + n * 2 ^ i < 2 ^ 64
    → RoundTrip
        (read_unsigned_varlong_loop (suc r) acc i)
        (write_unsigned_varlong_loop (suc k) n)
        (acc + n * 2 ^ i)
unfolding read_unsigned_varlong_loop write_unsigned_varlong_loop
RoundTrip-last_round k r acc i n h hi fits =
    rw (last_byte n h, le→ltb 0 (n / 2 ^ 7) (omega arith))
      (RoundTrip-bind _ (RoundTrip-byte n (omega arith))
        (rw (lt→ltb i 64 hi, stop_bit n h, absorb_last acc n i h fits) (RoundTrip-pure _)))

RoundTrip-inner_round :
    (k r acc i n : ℕ) {v : ℕ}
    → 128 ≤ n
    → i < 57
    → acc + n % 128 * 2 ^ i < 2 ^ 64
    → RoundTrip
        (read_unsigned_varlong_loop r (acc + n % 128 * 2 ^ i) (i + 7))
        (write_unsigned_varlong_loop k (n / 2 ^ 7))
        v
    → RoundTrip (read_unsigned_varlong_loop (suc r) acc i) (write_unsigned_varlong_loop (suc k) n) v
unfolding read_unsigned_varlong_loop write_unsigned_varlong_loop
RoundTrip-inner_round k r acc i n h hi fits rest =
    rw (inner_byte n h, lt→ltb 0 (n / 2 ^ 7) (omega arith))
      (RoundTrip-bind _ (RoundTrip-byte (n % 128 + 128) (omega arith)) (
        rw
          (
            lt→ltb i 64 (omega arith),
            more_bit (n % 128) (omega arith),
            absorb_inner acc (n % 128) i (omega arith) fits,
            small_shift i hi,
          )
          rest))
  where
    small_shift : (i : ℕ) → i < 57 → (i + 7) % 256 ≡ i + 7
    small_shift i hi = omega arith

-- `k + 1` groups hold `n`, and start at bit `i`.
RoundTrip-rounds :
    (k r acc i n : ℕ)
    → k ≤ r
    → i + 7 * k < 64
    → n < 128 ^ suc k
    → acc + n * 2 ^ i < 2 ^ 64
    → RoundTrip
        (read_unsigned_varlong_loop (suc r) acc i)
        (write_unsigned_varlong_loop (suc k) n)
        (acc + n * 2 ^ i)
RoundTrip-rounds zero r acc i n hr hi hn fits =
    RoundTrip-last_round zero r acc i n (omega arith) (omega arith) fits
RoundTrip-rounds (suc k) zero acc i n hr hi hn fits = absurd (omega arith)
RoundTrip-rounds (suc k) (suc r) acc i n hr hi hn fits = elim (dec_lt n 128) [
  | yes h ↦ RoundTrip-last_round (suc k) (suc r) acc i n h (omega arith) fits
  | no h ↦
      RoundTrip-inner_round (suc k) (suc r) acc i n (omega arith) (omega arith)
        (omega (arith, split_group n i))
        (rw (split_group n i, ← add_assoc)
          (RoundTrip-rounds k r (acc + n % 128 * 2 ^ i) (i + 7) (n / 2 ^ 7) (omega arith)
            (omega arith) (omega (arith, pow-suc 128 (suc k))) (omega (arith, split_group n i))))
]

-- Every UNSIGNED_VARLONG is read back from what `write_unsigned_varlong` has appended, without undefined
-- behaviour and within the fuel of both loops, and what follows it is left unread.
pub RoundTrip-unsigned_varlong :
    (n : ℕ) → n < 2 ^ 64 → RoundTrip read_unsigned_varlong (write_unsigned_varlong n) n
unfolding read_unsigned_varlong write_unsigned_varlong
RoundTrip-unsigned_varlong n h =
    subst (λ v. RoundTrip (read_unsigned_varlong_loop 11 0 0) (write_unsigned_varlong_loop 10 n) v)
      (whole n)
      (RoundTrip-rounds 9 10 0 0 n (omega arith) (omega arith) (omega arith) (omega arith))
  where
    whole : (n : ℕ) → 0 + n * 2 ^ 0 ≡ n
    whole n = omega arith

-- Every UNSIGNED_VARINT is read back from what `write_unsigned_varint` has appended, and what follows
-- it is left unread.
pub RoundTrip-unsigned_varint :
    (n : ℕ) → n < 2 ^ 32 → RoundTrip read_unsigned_varint (write_unsigned_varint n) n
unfolding read_unsigned_varint write_unsigned_varint
RoundTrip-unsigned_varint n h =
    subst (RoundTrip _ _) (in_range n h)
      (RoundTrip-last (λ m. m % 2 ^ 32) (RoundTrip-unsigned_varlong n (omega arith)))
  where
    in_range : (n : ℕ) → n < 2 ^ 32 → n % 2 ^ 32 ≡ n
    in_range n h = omega arith
