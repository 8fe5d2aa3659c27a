-- ===== src/Protocol/Progress.antt =====
-- Readers come to an end: on the bytes of a stream they return, throw or are undefined, and do not use
-- up the fuel of a loop. `Ends k m` says besides that `m` takes `k` bytes at least if it returns.
use kafka_cpp_server.Prelude.{
  ℕ, zero, suc, ◌+◌, ◌≤◌, ◌≡◌, ◌≢◌, refl, [], ◌∷◌, Bool, true, false, leb, if◌then◌else◌, length,
  take, drop, length-drop, arith,
}
use kafka_cpp_server.Protocol.Types.{Bytes}
use kafka_cpp_server.Protocol.Outcome.{
  Exception, Outcome, Io, ok, throw, undefined, unfinished, then_run, ◌>>=◌, pure, raise,
  undefined_behaviour,
}
use kafka_cpp_server.Protocol.Simulation.{Refines}
use kafka_cpp_server.Protocol.Stream.{bytes_readable, read}
use kafka_cpp_server.Protocol.Reading.{read_objects}

abbrev pub Consumes : {A : Type 0} → ℕ → Bytes → Outcome (A × Bytes) → Type 0
Consumes k s (ok (a, t)) = length t + k ≤ length s
Consumes k s (throw e) = Unit
Consumes k s undefined = Unit
Consumes k s unfinished = ⊥

pub record Ends {A : Type 0} (k : ℕ) (m : Io Bytes A) : Type 0 where
  pub at : (s : Bytes) → Consumes k s (m s)

fewer :
    {A : Type 0} (k j : ℕ) (s t : Bytes) (o : Outcome (A × Bytes))
    → length t + j ≤ length s
    → Consumes k t o
    → Consumes j s o
fewer k j s t (ok (a, u)) h c = omega arith
fewer k j s t (throw e) h c = tt
fewer k j s t undefined h c = tt
fewer k j s t unfinished h c = c

module _ {A : Type 0} where
  pub Ends-pure : (a : A) → Ends 0 (pure a)
  unfolding pure
  Ends-pure a = record { at = λ s. omega arith }

  pub Ends-raise : (e : Exception) → Ends {A = A} 0 (raise e)
  unfolding raise
  Ends-raise e = record { at = λ s. tt }

  pub Ends-undefined : Ends {A = A} 0 undefined_behaviour
  unfolding undefined_behaviour
  Ends-undefined = record { at = λ s. tt }

  pub Ends-if_known :
      (b : Bool) (m n : Io Bytes A)
      → (b ≡ true → Ends 0 m)
      → (b ≡ false → Ends 0 n)
      → Ends 0 (if b then m else n)
  Ends-if_known true m n h k = h refl
  Ends-if_known false m n h k = k refl

  pub Ends-if : (b : Bool) (m n : Io Bytes A) → Ends 0 m → Ends 0 n → Ends 0 (if b then m else n)
  Ends-if b m n h k = Ends-if_known b m n (λ _. h) (λ _. k)

  pub Ends-some : (k : ℕ) (m : Io Bytes A) → Ends k m → Ends 0 m
  Ends-some k m h = record { at = λ s. fewer_at s (m s) (h.at s) }
    where
      fewer_at : (s : Bytes) (o : Outcome (A × Bytes)) → Consumes k s o → Consumes 0 s o
      fewer_at s (ok (a, t)) c = omega arith
      fewer_at s (throw e) c = tt
      fewer_at s undefined c = tt
      fewer_at s unfinished c = c

module _ {A B : Type 0} where
  then_run-Consumes :
      (j : ℕ) (f : A → Io Bytes B) (s : Bytes) (o : Outcome (A × Bytes))
      → ((a : A) → Ends 0 (f a))
      → Consumes j s o
      → Consumes j s (then_run f o)
  then_run-Consumes j f s (ok (a, t)) h c = fewer 0 j s t (f a t) c ((h a).at t)
  then_run-Consumes j f s (throw e) h c = tt
  then_run-Consumes j f s undefined h c = tt
  then_run-Consumes j f s unfinished h c = c

  pub Ends-bind :
      {j : ℕ} (m : Io Bytes A) (f : A → Io Bytes B)
      → Ends j m
      → ((a : A) → Ends 0 (f a))
      → Ends j (m >>= f)
  unfolding ◌>>=◌
  Ends-bind {j} m f h k = record { at = λ s. then_run-Consumes j f s (m s) k (h.at s) }

within : (n k : ℕ) → leb n k ≡ true → n ≤ k
within n k h = ground arith

pub Ends-read : (n : ℕ) → Ends n (read n)
Ends-read n = record { at = λ s. taken (leb n (length s)) s _ (within n (length s)) }
  where
    taken :
        (b : Bool) (s : Bytes) (e : Exception)
        → (b ≡ true → n ≤ length s)
        → Consumes n s (if b then ok (take n s, drop n s) else throw e)
    taken true s e h = omega (arith, h refl, length-drop n s)
    taken false s e h = tt

pub Ends-take : (n : ℕ) → Ends 0 (read n)
Ends-take n = Ends-some n (read n) (Ends-read n)

pub Ends-objects : {T : Type 0} (m : Io Bytes T) (n : ℕ) → Ends 0 m → Ends 0 (read_objects m n)
unfolding read_objects
Ends-objects m zero h = Ends-pure []
Ends-objects m (suc n) h =
    Ends-bind m _ h (λ t. Ends-bind _ _ (Ends-objects m n h) (λ ts. Ends-pure (t ∷ ts)))

pub ruleset end_rules =
    (Ends-pure, Ends-raise, Ends-undefined, Ends-if, Ends-bind, Ends-take, Ends-objects)

-- A reader of a stream that behaves as its bytes comes to an end as on the bytes.
pub Refines-end :
    {S A : Type 0} (valid : S → Type 0) (view : S → Bytes) (k : ℕ) (bytes : Bytes)
    (o : Outcome (A × S)) (p : Outcome (A × Bytes))
    → Refines valid view o p
    → Consumes k bytes p
    → o ≢ unfinished
Refines-end valid view k bytes (ok x) p r c = λ q. cc
Refines-end valid view k bytes (throw e) p r c = λ q. cc
Refines-end valid view k bytes undefined p r c = λ q. cc
Refines-end valid view k bytes unfinished unfinished r c = absurd c
Refines-end valid view k bytes unfinished _ r c = absurd r
