-- ===== src/Protocol/VarIntEnds.antt =====
-- The loop of `read_unsigned_varlong` comes to an end, and where it is undefined.
use kafka_cpp_server.Prelude.{
  ℕ, zero, suc, ◌+◌, ◌*◌, ◌^◌, ◌%◌, ◌≤◌, ◌<◌, ◌≡◌, ◌≢◌, refl, ap, sym, ◌∙◌, [], ◌∷◌, ◌++◌, Bool,
  true, false, ltb, ◌==◌, if◌then◌else◌, bit_and, length, All, lt→ltb, le→ltb, arith, ne→==, le→leb,
}
use kafka_cpp_server.Prelude.Bits.{top_bit}
use kafka_cpp_server.Protocol.ByteOrder.{load, le_value}
use kafka_cpp_server.Protocol.Types.{Bytes}
use kafka_cpp_server.Protocol.Outcome.{
  Outcome, Io, ok, throw, undefined, unfinished, then_run, ◌>>=◌, pure, undefined_behaviour,
}
use kafka_cpp_server.Protocol.Stream.{Readable, bytes_readable}
use kafka_cpp_server.Protocol.Reading.{read_byte, read_unsigned_varlong_loop, read_unsigned_varlong}

module _ {S A B : Type 0} where
  bind-finished :
      (m : Io S A) (f : A → Io S B) (s : S)
      → m s ≢ unfinished
      → ((a : A) (t : S) → f a t ≢ unfinished)
      → (m >>= f) s ≢ unfinished
  unfolding ◌>>=◌
  bind-finished m f s h k = go (m s) h
    where
      go : (o : Outcome (A × S)) → o ≢ unfinished → then_run f o ≢ unfinished
      go (ok (a, t)) ne = k a t
      go (throw e) ne = λ q. cc
      go undefined ne = λ q. cc
      go unfinished ne = λ q. ne refl

module _ {S A : Type 0} where
  if-finished :
      (b : Bool) (m n : Io S A) (t : S)
      → (b ≡ true → m t ≢ unfinished)
      → (b ≡ false → n t ≢ unfinished)
      → (if b then m else n) t ≢ unfinished
  if-finished true m n t h k = h refl
  if-finished false m n t h k = k refl

below_64 : (i : ℕ) → ltb i 64 ≡ true → 64 ≤ i + 7 * 0 → ⊥
below_64 i h k = ground arith

module _ {S : Type 0} ⦃r : Readable S⦄ (bytes : (s : S) → read_byte s ≢ unfinished) where
  loop-finished :
      (rounds n i : ℕ) (s : S)
      → i < 71
      → 64 ≤ i + 7 * rounds
      → read_unsigned_varlong_loop (suc rounds) n i s ≢ unfinished
  unfolding read_unsigned_varlong_loop pure undefined_behaviour
  loop-finished zero n i s small enough = bind-finished read_byte _ s (bytes s) (λ c t.
      if-finished (ltb i 64) _ _ t (λ below. absurd (below_64 i below enough)) (λ above q. cc))
  loop-finished (suc rounds) n i s small enough = bind-finished read_byte _ s (bytes s) (λ c t.
      if-finished (ltb i 64) _ _ t
        (λ below.
          if-finished (bit_and c 0x80 == 0) _ _ t (λ e q. cc)
            (λ e.
              loop-finished rounds _ ((i + 7) % 256) t (next_small i below)
                (next_enough i below enough)))
        (λ above q. cc))
    where
      next_small : (i : ℕ) → ltb i 64 ≡ true → (i + 7) % 256 < 71
      next_small i h = ground arith

      next_enough :
          (i : ℕ) → ltb i 64 ≡ true → 64 ≤ i + 7 * suc rounds → 64 ≤ (i + 7) % 256 + 7 * rounds
      next_enough i h k = ground arith

  -- On a stream on which reading a byte comes to an end, so does reading an UNSIGNED_VARLONG,
  -- whatever the bytes are: the eleven rounds of the fuel are not used up.
  pub read_unsigned_varlong_finished : (s : S) → read_unsigned_varlong s ≢ unfinished
  unfolding read_unsigned_varlong
  read_unsigned_varlong_finished s = loop-finished 10 0 0 s (omega arith) (omega arith)

-- A byte with its high bit set.
abbrev pub IsContinued : ℕ → Type 0
IsContinued c = (128 ≤ c) × (c < 256)

high_bit : (c : ℕ) → IsContinued c → bit_and c 0x80 == 0 ≡ false
high_bit c (h, k) = ne→== (bit_and c 0x80) 0 (omega (arith, top_bit c k))

read_byte-cons : (c : ℕ) (s : Bytes) → read_byte (c ∷ s) ≡ ok (c, s)
unfolding read_byte load le_value pure ◌>>=◌
read_byte-cons c s =
    rw (le→leb 1 (length (c ∷ s)) (omega arith)) (ap (λ (x : ℕ). ok (x, s)) (omega arith))

pub bytes_finished : (s : Bytes) → read_byte s ≢ unfinished
unfolding read_byte ◌>>=◌
bytes_finished [] = λ q. cc
bytes_finished (c ∷ s) = λ q. ok≢unfinished (sym (read_byte-cons c s) ∙ q)
  where
    ok≢unfinished : {x : ℕ × Bytes} → ok x ≢ unfinished
    ok≢unfinished q = cc

overlong_loop :
    (cs : Bytes) (n i c : ℕ) (rest : Bytes)
    → All IsContinued cs
    → i + 7 * length cs ≡ 70
    → read_unsigned_varlong_loop (suc (length cs)) n i (cs ++ c ∷ rest) ≡ undefined
unfolding read_unsigned_varlong_loop ◌>>=◌ undefined_behaviour
overlong_loop [] n i c rest h e = rw (read_byte-cons c rest, le→ltb i 64 (omega arith))
overlong_loop (b ∷ cs) n i c rest (p, h) e = rw (
  read_byte-cons b (cs ++ c ∷ rest),
  lt→ltb i 64 (omega arith),
  high_bit b p,
  overlong_loop cs ((n + bit_and b 0x7F * 2 ^ i % 2 ^ 64) % 2 ^ 64) ((i + 7) % 256) c rest h
      (omega arith),
)

-- Ten bytes with their high bits set and any byte more make the reading of an UNSIGNED_VARLONG
-- undefined behaviour.
pub read_unsigned_varlong_overlong :
    (cs : Bytes) (c : ℕ) (rest : Bytes)
    → length cs ≡ 10
    → All IsContinued cs
    → read_unsigned_varlong (cs ++ c ∷ rest) ≡ undefined
unfolding read_unsigned_varlong
read_unsigned_varlong_overlong cs c rest ten h =
    ap (λ (k : ℕ). read_unsigned_varlong_loop (suc k) 0 0 (cs ++ c ∷ rest)) (sym ten)
    ∙ overlong_loop cs 0 0 c rest h (omega arith)
