-- ===== src/Protocol/Gives.antt =====
-- What code returns satisfies a predicate, and its state keeps one.
use kafka_cpp_server.Prelude.{◌≡◌, refl, Bool, true, false, if◌then◌else◌}
use mathlib.Core.Path.{subst}
use kafka_cpp_server.Protocol.Outcome.{
  Exception, Outcome, Io, ok, ◌>>=◌, pure, raise, undefined_behaviour, out_of_fuel, from_outcome,
  >>=-eq-ok, from_outcome-eq-ok,
}

-- From a state that satisfies `I`, whatever the code returns satisfies `P`, and its state `I` again.
pub record Gives {S A : Type 0} (I : S → Type 0) (P : A → Type 0) (m : Io S A) : Type 0 where
  pub gives : (s : S) (a : A) (t : S) → I s → m s ≡ ok (a, t) → P a × I t

pub returned :
    {S A : Type 0} {a b : A} {s t : S}
    → ◌≡◌ {A = Outcome (A × S)} (ok (a, s)) (ok (b, t))
    → (a ≡ b) × (s ≡ t)
returned h = (cc, cc)

module _ {S A : Type 0} {I : S → Type 0} (P : A → Type 0) where
  pub Gives-pure : (a : A) → P a → Gives I P (pure a)
  unfolding pure
  Gives-pure a p = record {
    gives = λ s b t h e. let (same, left) = returned e in (subst P same p, subst I left h);
  }

  pub Gives-raise : (e : Exception) → Gives I P (raise e)
  unfolding raise
  Gives-raise x = record { gives = λ s b t h e. cc }

  pub Gives-undefined : Gives I P undefined_behaviour
  unfolding undefined_behaviour
  Gives-undefined = record { gives = λ s b t h e. cc }

  pub Gives-out_of_fuel : Gives I P out_of_fuel
  unfolding out_of_fuel
  Gives-out_of_fuel = record { gives = λ s b t h e. cc }

  pub Gives-if :
      (b : Bool) (m n : Io S A)
      → (b ≡ true → Gives I P m)
      → (b ≡ false → Gives I P n)
      → Gives I P (if b then m else n)
  Gives-if true m n h k = h refl
  Gives-if false m n h k = k refl

pub Gives-bind :
    {S A B : Type 0} {I : S → Type 0} (P : A → Type 0) (Q : B → Type 0) (m : Io S A)
    (f : A → Io S B)
    → Gives I P m
    → ((a : A) → P a → Gives I Q (f a))
    → Gives I Q (m >>= f)
Gives-bind P Q m f h k = record {
  gives = λ s b t v e.
      let (a, u, first, second) = >>=-eq-ok m f s e in
      let (p, w) = h.gives s a u v first in (k a p).gives u b t w second;
}

-- The part of a reader that puts its result together.
pub Gives-map :
    {S A B : Type 0} {I : S → Type 0} (P : A → Type 0) (Q : B → Type 0) (m : Io S A) (g : A → B)
    → Gives I P m
    → ((a : A) → P a → Q (g a))
    → Gives I Q (m >>= λ a. pure (g a))
Gives-map P Q m g h k = Gives-bind P Q m _ h (λ a p. Gives-pure Q (g a) (k a p))

pub Gives-weaken :
    {S A : Type 0} {I : S → Type 0} (P Q : A → Type 0) (m : Io S A)
    → Gives I P m
    → ((a : A) → P a → Q a)
    → Gives I Q m
Gives-weaken P Q m h k = record {
  gives = λ s a t v e. let (p, w) = h.gives s a t v e in (k a p, w);
}

pub Gives-from_outcome :
    {S A : Type 0} {I : S → Type 0} (P : A → Type 0) (o : Outcome A)
    → ((a : A) → o ≡ ok a → P a)
    → Gives I P (from_outcome o)
Gives-from_outcome {I = I} P o h = record {
  gives = λ s a t v e. let (same, left) = from_outcome-eq-ok o s e in (h a same, subst I left v);
}
