-- ===== src/Protocol/Simulation.antt =====
-- When a stream of the program behaves as the abstract stream of its bytes: `Refines` compares the
-- outcomes, `Simulates` two readers, and there is a rule for each way to build a reader.
use kafka_cpp_server.Prelude.{ℕ, zero, suc, ◌≡◌, refl, [], ◌∷◌, Bool, true, false, if◌then◌else◌}
use mathlib.Core.Path.{subst}
use kafka_cpp_server.Protocol.Types.{Bytes}
use kafka_cpp_server.Protocol.Outcome.{
  Exception, Outcome, Io, ok, throw, undefined, unfinished, then_run, ◌>>=◌, pure, raise,
  undefined_behaviour, out_of_fuel,
}
use kafka_cpp_server.Protocol.Stream.{Readable, read, bytes_readable}
use kafka_cpp_server.Protocol.Reading.{read_objects}

-- `valid` is the stream's invariant, and `view` the bytes that it has left.
module _ {S : Type 0} (valid : S → Type 0) (view : S → Bytes) where
  -- The same result with the same bytes left and the invariant kept, or an exception on both sides. Which exception it is
  -- no handler of the program can tell, since each catches all.
  abbrev pub Refines : {A : Type 0} → Outcome (A × S) → Outcome (A × Bytes) → Type 0
  Refines (ok (a, s)) (ok (b, t)) = (a ≡ b) × (view s ≡ t) × valid s
  Refines (throw e) (throw x) = Unit
  Refines undefined undefined = Unit
  Refines unfinished unfinished = Unit
  Refines _ _ = ⊥

  pub record Simulates {A : Type 0} (m : Io S A) (spec : Io Bytes A) : Type 0 where
    pub at : (s : S) → valid s → Refines (m s) (spec (view s))

  -- A stream that behaves as its bytes.
  pub record IsStream ⦃r : Readable S⦄ : Type 0 where
    pub read_refines : (n : ℕ) → Simulates (read n) (read n)

module _ {S : Type 0} {valid : S → Type 0} {view : S → Bytes} where
  module _ {A : Type 0} where
    pub Simulates-pure : (a : A) → Simulates valid view (pure a) (pure a)
    unfolding pure
    Simulates-pure a = record { at = λ s h. (refl, refl, h) }

    pub Simulates-raise : (e : Exception) → Simulates valid view (raise {A = A} e) (raise e)
    unfolding raise
    Simulates-raise e = record { at = λ s h. tt }

    pub Simulates-undefined : Simulates valid view (undefined_behaviour {A = A}) undefined_behaviour
    unfolding undefined_behaviour
    Simulates-undefined = record { at = λ s h. tt }

    pub Simulates-fuel : Simulates valid view (out_of_fuel {A = A}) out_of_fuel
    unfolding out_of_fuel
    Simulates-fuel = record { at = λ s h. tt }

    pub Simulates-if :
        (b : Bool) (m n : Io S A) (x y : Io Bytes A)
        → Simulates valid view m x
        → Simulates valid view n y
        → Simulates valid view (if b then m else n) (if b then x else y)
    Simulates-if true m n x y p q = p
    Simulates-if false m n x y p q = q

  module _ {A B : Type 0} where
    then_run-Refines :
        (f : A → Io S B) (g : A → Io Bytes B)
        → ((a : A) → Simulates valid view (f a) (g a))
        → (o : Outcome (A × S)) (p : Outcome (A × Bytes)) → Refines valid view o p
        → Refines valid view (then_run f o) (then_run g p)
    then_run-Refines f g h (ok (a, s)) (ok (b, t)) (e, v, k) =
        subst (λ c. Refines valid view (f a s) (g c t)) e
          (subst (λ u. Refines valid view (f a s) (g a u)) v ((h a).at s k))
    then_run-Refines f g h (throw e) (throw x) r = tt
    then_run-Refines f g h undefined undefined r = tt
    then_run-Refines f g h unfinished unfinished r = tt
    then_run-Refines f g h _ _ r = absurd r

    pub Simulates-bind :
        (m : Io S A) (x : Io Bytes A) (f : A → Io S B) (g : A → Io Bytes B)
        → Simulates valid view m x
        → ((a : A) → Simulates valid view (f a) (g a))
        → Simulates valid view (m >>= f) (x >>= g)
    unfolding ◌>>=◌
    Simulates-bind m x f g p q = record {
      at = λ s h. then_run-Refines f g q (m s) (x (view s)) (p.at s h);
    }

  pub Simulates-objects :
      {T : Type 0} (m : Io S T) (x : Io Bytes T)
      → Simulates valid view m x
      → (n : ℕ) → Simulates valid view (read_objects m n) (read_objects x n)
  unfolding read_objects
  Simulates-objects m x p zero = Simulates-pure []
  Simulates-objects m x p (suc n) =
      Simulates-bind m x _ _ p
        (λ t. Simulates-bind _ _ _ _ (Simulates-objects m x p n) (λ ts. Simulates-pure (t ∷ ts)))

pub ruleset simulation_rules = (
  Simulates-pure, Simulates-raise, Simulates-undefined, Simulates-fuel, Simulates-if,
  Simulates-bind, Simulates-objects,
)
