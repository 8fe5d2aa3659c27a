-- ===== src/Protocol/Owners.antt =====
-- Objects that own a descriptor each, or none, and the sequences of operations that a program runs on
-- them: constructions, moves, assignments and destructions.
use kafka_cpp_server.Prelude.{
  ℕ, ◌+◌, ◌≤◌, ◌≡◌, refl, ap, ◌∙◌, eq→==, ne→==, List, [], ◌∷◌, ◌++◌, Option, none, some, ◌==◌,
  if◌then◌else◌, arith,
}
use mathlib.Core.Path.{subst}
use native.Mathlib.Decide.{ℕ_discrete}

-- A descriptor below 0 is `none`.
abbrev pub Owned : Type 0
Owned = Option ℕ

-- What the destructor of an owner has to close.
abbrev pub to_close : Owned → List ℕ
to_close none = []
to_close (some fd) = fd ∷ []

-- A class of owners: its operations, and what each does with the descriptors.
pub record Owner (H : Type 0) : Type 1 where
  -- A constructor has made the object of a descriptor from the kernel.
  pub Makes : ℕ → H → Type 0
  -- The new object and what is left of the other.
  pub moved : H → H × H
  pub assigned : H → H → H × H
  pub closes : H → List ℕ
  pub owned : H → Owned
  pub makes_owner : (fd : ℕ) (h : H) → Makes fd h → owned h ≡ some fd
  pub moved_owner : (h : H) → (owned (moved h).0 ≡ owned h) × (owned (moved h).1 ≡ none)
  pub assigned_owner :
      (this other : H)
      → (owned (assigned this other).0 ≡ owned other) × (owned (assigned this other).1 ≡ owned this)
  pub closes_owned : (h : H) → closes h ≡ to_close (owned h)

-- The live objects, and the descriptors that were handed over by the kernel and closed so far.
pub record Objects (H : Type 0) : Type 0 where
  pub live : List H
  pub opened : List ℕ
  pub closed : List ℕ

-- How often a descriptor is in a list, and whether an object owns it.
abbrev pub count : ℕ → List ℕ → ℕ
count n [] = 0
count n (x ∷ xs) = (if x == n then 1 else 0) + count n xs

abbrev pub owns : ℕ → Owned → ℕ
owns n none = 0
owns n (some fd) = if fd == n then 1 else 0

-- The descriptor is not open: it was closed as often as it was handed over.
abbrev pub IsFree : ℕ → {H : Type 0} → Objects H → Type 0
IsFree fd s = count fd s.opened ≡ count fd s.closed

-- What the program does with the objects, one operation at a time and on any of them. An exchange
-- by `assign` is the same from either side; that of an object with itself changes nothing. The kernel
-- hands over a descriptor that is not open.
pub data Life {H : Type 0} (owner : Owner H) (s : Objects H) : Objects H → Type 0 where
  construct :
      (fd : ℕ) (object : H)
      → owner.Makes fd object
      → IsFree fd s
      → Life owner s (record s { live = object ∷ s.live; opened = fd ∷ s.opened })
  move :
      (before after : List H) (other : H)
      → s.live ≡ before ++ other ∷ after
      → Life owner s
          (record s { live = (owner.moved other).0 ∷ (before ++ (owner.moved other).1 ∷ after) })
  assign :
      (before between after : List H) (this other : H)
      → s.live ≡ before ++ this ∷ (between ++ other ∷ after)
      → Life owner s (record s {
        live =
            before
            ++ (owner.assigned this other).0 ∷ (between ++ (owner.assigned this other).1 ∷ after);
      })
  destruct :
      (before after : List H) (this : H)
      → s.live ≡ before ++ this ∷ after
      → Life owner s (record s { live = before ++ after; closed = owner.closes this ++ s.closed })

pub data Lives {H : Type 0} (owner : Owner H) : Objects H → Type 0 where
  born : Lives owner (record { live = []; opened = []; closed = [] })
  goes_on : {s t : Objects H} → Lives owner s → Life owner s t → Lives owner t

count-append : (n : ℕ) (xs ys : List ℕ) → count n (xs ++ ys) ≡ count n xs + count n ys
count-append n [] ys = omega arith
count-append n (x ∷ xs) ys = omega (arith, count-append n xs ys)

count-to_close : (n : ℕ) (o : Owned) → count n (to_close o) ≡ owns n o
count-to_close n none = refl
count-to_close n (some fd) = omega arith

module _ {H : Type 0} (owner : Owner H) (n : ℕ) where
  abbrev pub owners : List H → ℕ
  owners [] = 0
  owners (h ∷ hs) = owns n (owner.owned h) + owners hs

  owners-append : (xs ys : List H) → owners (xs ++ ys) ≡ owners xs + owners ys
  owners-append [] ys = omega arith
  owners-append (x ∷ xs) ys = omega (arith, owners-append xs ys)

  abbrev Counted : Objects H → Type 0
  Counted s = owners s.live + count n s.closed ≡ count n s.opened

  -- The descriptor was closed once for each time that it was handed over, but for the last if an
  -- object owns it; and no two objects own it.
  abbrev pub Balanced : Objects H → Type 0
  Balanced s = Counted s × (owners s.live ≤ 1)

  count-closes : (h : H) → count n (owner.closes h) ≡ owns n (owner.owned h)
  count-closes h = ap (count n) (owner.closes_owned h) ∙ count-to_close n (owner.owned h)

  Life-Counted : {s t : Objects H} → Life owner s t → Counted s → Counted t
  Life-Counted (construct fd object made free) h =
      omega (arith, ap (owns n) (owner.makes_owner fd object made))
  Life-Counted (move before after other e) h = omega (
    arith,
    ap owners e,
    owners-append before (other ∷ after),
    owners-append before ((owner.moved other).1 ∷ after),
    ap (owns n) (owner.moved_owner other).0,
    ap (owns n) (owner.moved_owner other).1,
  )
  Life-Counted (assign before between after this other e) h = omega (
    arith,
    ap owners e,
    owners-append before (this ∷ (between ++ other ∷ after)),
    owners-append between (other ∷ after),
    owners-append before
        ((owner.assigned this other).0 ∷ (between ++ (owner.assigned this other).1 ∷ after)),
    owners-append between ((owner.assigned this other).1 ∷ after),
    ap (owns n) (owner.assigned_owner this other).0,
    ap (owns n) (owner.assigned_owner this other).1,
  )
  Life-Counted {s} (destruct before after this e) h = omega (
    arith,
    ap owners e,
    owners-append before (this ∷ after),
    owners-append before after,
    count-append n (owner.closes this) s.closed,
    count-closes this,
  )

  new_owner :
      (s : Objects H) (fd : ℕ)
      → IsFree fd s
      → Counted s
      → owners s.live ≤ 1
      → owns n (some fd) + owners s.live ≤ 1
  new_owner s fd free h k = elim (ℕ_discrete fd n) [
    | yes e ↦
        let closed : count n s.opened ≡ count n s.closed = subst (λ x. IsFree x s) e free in
        rw (eq→== fd n e) (omega (arith, closed, h))
    | no e ↦ rw (ne→== fd n e) (omega arith)
  ]

  Life-one_owner : {s t : Objects H} → Life owner s t → Balanced s → owners t.live ≤ 1
  Life-one_owner {s} (construct fd object made free) (h, k) =
      omega (arith, ap (owns n) (owner.makes_owner fd object made), new_owner s fd free h k)
  Life-one_owner (move before after other e) (h, k) = omega (
    arith,
    ap owners e,
    owners-append before (other ∷ after),
    owners-append before ((owner.moved other).1 ∷ after),
    ap (owns n) (owner.moved_owner other).0,
    ap (owns n) (owner.moved_owner other).1,
  )
  Life-one_owner (assign before between after this other e) (h, k) = omega (
    arith,
    ap owners e,
    owners-append before (this ∷ (between ++ other ∷ after)),
    owners-append between (other ∷ after),
    owners-append before
        ((owner.assigned this other).0 ∷ (between ++ (owner.assigned this other).1 ∷ after)),
    owners-append between ((owner.assigned this other).1 ∷ after),
    ap (owns n) (owner.assigned_owner this other).0,
    ap (owns n) (owner.assigned_owner this other).1,
  )
  Life-one_owner (destruct before after this e) (h, k) =
      omega (arith, ap owners e, owners-append before (this ∷ after), owners-append before after)

  pub life_balance : {s : Objects H} → Lives owner s → Balanced s
  life_balance born = (refl, omega arith)
  life_balance (goes_on lives life) =
      let (h, k) = life_balance lives in (Life-Counted life h, Life-one_owner life (h, k))
