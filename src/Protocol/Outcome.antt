-- ===== src/Protocol/Outcome.antt =====
-- What running C++ code comes to, and the monad of code that works on a stream of type `S`.
-- The stream after a throw is not kept: no handler of the program goes on reading from it.
use Prim.Native.String.{String}
use mathlib.Core.Path.{◌≡◌, refl}

-- `throw_runtime_error` and `throw_system_error` of utils.hpp, and the `length_error` of a
-- container that is asked for a negative size.
pub data Exception : Type 0 where
  runtime_error : String → Exception
  system_error : String → Exception
  length_error : Exception

-- `undefined` is undefined behaviour, and `unfinished` a loop that has used up its fuel.
pub data Outcome {ℓ} (A : Type ℓ) : Type ℓ where
  ok : A → Outcome A
  throw : Exception → Outcome A
  undefined : Outcome A
  unfinished : Outcome A

abbrev pub Io : Type 0 → Type 0 → Type 0
Io S A = S → Outcome (A × S)

abbrev pub then_run : {S A B : Type 0} → (A → Io S B) → Outcome (A × S) → Outcome (B × S)
then_run f (ok (a, s)) = f a s
then_run f (throw e) = throw e
then_run f undefined = undefined
then_run f unfinished = unfinished

module _ {S : Type 0} where
  infixl 5 ◌>>=◌ ◌>>◌
  unfoldable pub ◌>>=◌ : {A B : Type 0} → Io S A → (A → Io S B) → Io S B
  ◌>>=◌ m f s = then_run f (m s)

  abbrev pub ◌>>◌ : {B : Type 0} → Io S (Unit {0}) → Io S B → Io S B
  m >> k = m >>= λ _. k

  unfoldable pub pure : {A : Type 0} → A → Io S A
  pure a s = ok (a, s)

  unfoldable pub raise : {A : Type 0} → Exception → Io S A
  raise e s = throw e

  unfoldable pub undefined_behaviour : {A : Type 0} → Io S A
  undefined_behaviour s = undefined

  unfoldable pub out_of_fuel : {A : Type 0} → Io S A
  out_of_fuel s = unfinished

  unfoldable pub from_outcome : {A : Type 0} → Outcome A → Io S A
  from_outcome (ok a) s = ok (a, s)
  from_outcome (throw e) s = throw e
  from_outcome undefined s = undefined
  from_outcome unfinished s = unfinished

-- Inversion of a successful sequence.
pub >>=-eq-ok :
    {S A B : Type 0} (m : Io S A) (f : A → Io S B) (s : S) {b : B} {t : S}
    → (m >>= f) s ≡ ok (b, t)
    → (a : A) × (u : S) × (m s ≡ ok (a, u)) × (f a u ≡ ok (b, t))
unfolding ◌>>=◌
>>=-eq-ok {S} {A} {B} m f s {b} {t} h = go (m s) refl h
  where
    go :
        (o : Outcome (A × S))
        → m s ≡ o
        → then_run f o ≡ ok (b, t)
        → (a : A) × (u : S) × (m s ≡ ok (a, u)) × (f a u ≡ ok (b, t))
    go (ok (a, u)) e k = (a, u, e, k)
    go (throw x) e k = cc
    go undefined e k = cc
    go unfinished e k = cc

pub from_outcome-eq-ok :
    {S A : Type 0} (o : Outcome A) (s : S) {a : A} {t : S}
    → from_outcome o s ≡ ok (a, t)
    → (o ≡ ok a) × (s ≡ t)
unfolding from_outcome
from_outcome-eq-ok (ok x) s h = (cc, cc)
from_outcome-eq-ok (throw e) s h = cc
from_outcome-eq-ok undefined s h = cc
from_outcome-eq-ok unfinished s h = cc
