-- ===== src/Prelude/Bits.antt =====
-- `&`, `|` and `^` as arithmetic: masks of one byte by a table of its values, and the exclusive or
-- with a word of ones at every width by recursion on the bits.
use Prim.Native.Nat.{ℕ, zero, suc, ◌+◌, ◌-◌, ◌*◌, ◌/◌, ◌%◌, ◌^◌, ◌≤◌, ◌<◌, bit_and, bit_or, bit_xor}
use Prim.Native.Nat.{digits, bitwise, differ, bit_and-bitwise, bit_xor-bitwise, min}
use native.Mathlib.Nat.{pow-suc, one-le-pow, le_refl, mod-lt, div-add-mod}
use native.Mathlib.Nat.{add-mul-mod_self_left, mod-eq_of_lt}
use mathlib.Core.Path.{◌≡◌, refl, ap}
use mathlib.Core.Bool.{Bool, true, false}
use native.Mathlib.Decide.{ℕ_discrete}
use native.Mathlib.Omega.{arith}

module _ (spec code : ℕ → ℕ) where
  same_below : ℕ → Bool
  unfolding ℕ_discrete
  same_below zero = true
  same_below (suc k) = elim (ℕ_discrete (code k) (spec k)) [ yes e ↦ same_below k | no e ↦ false ]

  by_table : (k : ℕ) → same_below k ≡ true → (x : ℕ) → x < k → spec x ≡ code x
  unfolding same_below
  by_table zero t x below = absurd (omega arith)
  by_table (suc k) t x below = ground (arith, by_table k (ground arith) x)

pub low_bits : (b : ℕ) → b < 256 → bit_and b 0x7f ≡ b % 128
unfolding same_below
low_bits = by_table _ _ 256 refl

pub top_bit : (b : ℕ) → b < 256 → bit_and b 0x80 ≡ b / 128 * 128
unfolding same_below
top_bit = by_table _ _ 256 refl

pub set_top_bit : (b : ℕ) → b < 128 → bit_or b 0x80 ≡ b + 128
unfolding same_below
set_top_bit = by_table _ _ 128 refl

-- The fuel of `digits` is of no account once it covers the first number.
module _ (z : ℕ → ℕ) (f : ℕ → ℕ → ℕ) where
  enough_digits :
      (x y fuel more : ℕ) → x ≤ fuel → x ≤ more → digits z f more x y ≡ digits z f fuel x y
  enough_digits zero y zero zero h k = refl
  enough_digits zero y zero (suc more) h k = refl
  enough_digits zero y (suc fuel) zero h k = refl
  enough_digits zero y (suc fuel) (suc more) h k = refl
  enough_digits (suc x) y zero more h k = absurd (omega arith)
  enough_digits (suc x) y (suc fuel) zero h k = absurd (omega arith)
  enough_digits (suc x) y (suc fuel) (suc more) h k =
      rw (enough_digits (suc x / 2) (y / 2) fuel more (omega arith) (omega arith))

  lowest_digit :
      (x y : ℕ)
      → f (suc x % 2) (y % 2) + bitwise z f (suc x / 2) (y / 2) * 2 ≡ bitwise z f (suc x) y
  lowest_digit x y =
      omega (arith, enough_digits (suc x / 2) (y / 2) (suc x / 2) x (le_refl _) (omega arith))

pub bit_and_step : (x y : ℕ) → min (x % 2) (y % 2) + bit_and (x / 2) (y / 2) * 2 ≡ bit_and x y
bit_and_step zero y = simp bit_and-bitwise (omega arith)
bit_and_step (suc x) y = simp bit_and-bitwise (lowest_digit (λ t. 0) min x y)

zero-bit_xor : (b : ℕ) → bit_xor 0 b ≡ b
zero-bit_xor b = bit_xor-bitwise 0 b

pub bit_xor_step : (x y : ℕ) → differ (x % 2) (y % 2) + bit_xor (x / 2) (y / 2) * 2 ≡ bit_xor x y
bit_xor_step zero y = simp bit_xor-bitwise (omega arith)
bit_xor_step (suc x) y = simp bit_xor-bitwise (lowest_digit (λ t. t) differ x y)

differ-zero : (x : ℕ) → differ x 0 ≡ x
differ-zero zero = refl
differ-zero (suc x) = refl

differ_one : (x : ℕ) → x < 2 → differ x 1 ≡ 1 - x
differ_one zero h = refl
differ_one (suc zero) h = refl
differ_one (suc (suc x)) h = absurd (omega arith)

bit_xor-zero_fuel : (n a : ℕ) → a ≤ n → bit_xor a 0 ≡ a
bit_xor-zero_fuel n zero h = zero-bit_xor 0
bit_xor-zero_fuel zero (suc a) h = absurd (omega arith)
bit_xor-zero_fuel (suc n) (suc a) h = omega (
  arith,
  bit_xor_step (suc a) 0,
  differ-zero (suc a % 2),
  bit_xor-zero_fuel n (suc a / 2) (omega arith),
)

pub bit_xor-zero : (a : ℕ) → bit_xor a 0 ≡ a
bit_xor-zero a = bit_xor-zero_fuel a a (le_refl a)

ones_digits : (k : ℕ) → ((2 ^ suc k - 1) / 2 ≡ 2 ^ k - 1) × ((2 ^ suc k - 1) % 2 ≡ 1)
ones_digits k = (
  omega (arith, pow-suc 2 k, one-le-pow k 2 (omega arith)),
  omega (arith, pow-suc 2 k, one-le-pow k 2 (omega arith)),
)

-- The exclusive or with `k` ones complements a word of `k` bits.
pub bit_xor_ones : (k a : ℕ) → a < 2 ^ k → bit_xor a (2 ^ k - 1) ≡ 2 ^ k - 1 - a
bit_xor_ones zero a h = omega (arith, bit_xor-zero a)
bit_xor_ones (suc k) a h =
    rw (← bit_xor_step a (2 ^ suc k - 1), (ones_digits k).0, (ones_digits k).1)
      (omega (
        arith,
        bit_xor_ones k (a / 2) (omega (arith, pow-suc 2 k)),
        differ_one (a % 2) (omega arith),
        pow-suc 2 k,
        one-le-pow k 2 (omega arith),
      ))

bit_and-zero_fuel : (fuel x : ℕ) → x ≤ fuel → bit_and x 0 ≡ 0
bit_and-zero_fuel fuel zero enough = bit_and-bitwise 0 0
bit_and-zero_fuel zero (suc x) enough = absurd (omega arith)
bit_and-zero_fuel (suc fuel) (suc x) enough =
    omega (arith, bit_and-zero_fuel fuel (suc x / 2) (omega arith), bit_and_step (suc x) 0)

-- The remainder by `2 ^ suc k` is that of the half by `2 ^ k`, with the lowest bit.
halves_mod : (k a : ℕ) → min (a % 2) 1 + a / 2 % 2 ^ k * 2 ≡ a % 2 ^ suc k
halves_mod k a =
    let s : ℕ = a / 2 % 2 ^ k * 2 + a % 2 in
    let q : ℕ = a / 2 / 2 ^ k in
    let small : s < 2 ^ suc k =
      omega (arith, pow-suc 2 k, mod-lt (a / 2) (one-le-pow k 2 (omega arith))) in
    let split : a ≡ s + 2 ^ suc k * q =
      omega (arith, ap (λ (t : ℕ). t * q) (pow-suc 2 k), div-add-mod (a / 2) (2 ^ k)) in
    omega (
      arith,
      add-mul-mod_self_left s (2 ^ suc k) q,
      ap (λ (t : ℕ). t % 2 ^ suc k) split,
      mod-eq_of_lt small,
    )

-- The mask of `k` low ones is the remainder.
pub bit_and_ones : (k a : ℕ) → bit_and a (2 ^ k - 1) ≡ a % 2 ^ k
bit_and_ones zero a = omega (arith, bit_and-zero_fuel a a (le_refl a))
bit_and_ones (suc k) a =
    rw
      (
        ← bit_and_step a (2 ^ suc k - 1),
        (ones_digits k).0,
        (ones_digits k).1,
        bit_and_ones k (a / 2),
      )
      (halves_mod k a)
