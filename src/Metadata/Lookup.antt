-- ===== src/Metadata/Lookup.antt =====
-- The maps of Maps: their keys are compared for equality, and what is assigned is found.
use kafka_cpp_server.Prelude.{
  ℕ, ◌≡◌, ◌≢◌, refl, ap, sym, ◌∙◌, [], ◌∷◌, some, true, false, if◌then◌else◌, le→ltb, lt→ltb, eq→==,
  ne→==, Bool-cases, inl, inr, ◌↔◌, arith,
}
use native.Mathlib.Decide.{dec_lt}
use kafka_cpp_server.Protocol.Types.{Bytes, bytes_lt}
use kafka_cpp_server.Metadata.Maps.{equivalent, Map, find, assign}

bytes_lt_irrefl : (a : Bytes) → bytes_lt a a ≡ false
unfolding bytes_lt
bytes_lt_irrefl [] = refl
bytes_lt_irrefl (x ∷ xs) = rw (le→ltb x x (omega arith), eq→== x x refl, bytes_lt_irrefl xs)

equivalent_refl : (a : Bytes) → equivalent a a ≡ true
unfolding equivalent
equivalent_refl a = rw (bytes_lt_irrefl a)

-- The first bytes of two keys that compare alike.
heads_differ : (x y : ℕ) (xs ys : Bytes) → x ≢ y → equivalent (x ∷ xs) (y ∷ ys) ≡ false
unfolding equivalent bytes_lt
heads_differ x y xs ys h = elim (dec_lt x y) [
  | yes p ↦ rw (lt→ltb x y p)
  | no p ↦ rw (lt→ltb y x (omega arith), le→ltb x y (omega arith), ne→== x y h)
]

heads_agree : (x : ℕ) (xs ys : Bytes) → equivalent (x ∷ xs) (x ∷ ys) ≡ equivalent xs ys
unfolding equivalent bytes_lt
heads_agree x xs ys = rw (le→ltb x x (omega arith), eq→== x x refl)

true≢false : true ≢ false
true≢false h = cc

same_head :
    (x y : ℕ) (xs ys : Bytes)
    → equivalent (x ∷ xs) (y ∷ ys) ≡ true
    → (x ≡ y) × (equivalent xs ys ≡ true)
same_head x y xs ys h = elim (dec_lt x y) [
  | yes p ↦ absurd (true≢false (sym h ∙ heads_differ x y xs ys (omega arith)))
  | no p ↦ elim (dec_lt y x) [
    | yes q ↦ absurd (true≢false (sym h ∙ heads_differ x y xs ys (omega arith)))
    | no q ↦
        let e : x ≡ y = omega arith in
        (e, sym (heads_agree y xs ys) ∙ ap (λ z. equivalent (z ∷ xs) (y ∷ ys)) (sym e) ∙ h)
  ]
]

-- Two keys that compare alike are equal.
equivalent-eq : (a b : Bytes) → equivalent a b ≡ true → a ≡ b
unfolding equivalent bytes_lt
equivalent-eq [] [] h = refl
equivalent-eq [] (y ∷ ys) h = cc
equivalent-eq (x ∷ xs) [] h = cc
equivalent-eq (x ∷ xs) (y ∷ ys) h =
    let (e, k) = same_head x y xs ys h in rw (e, equivalent-eq xs ys k) refl

equivalent-ne : (a b : Bytes) → a ≢ b → equivalent a b ≡ false
equivalent-ne a b h = elim (Bool-cases (equivalent a b)) [
  | inl e ↦ absurd (h (equivalent-eq a b e))
  | inr e ↦ e
]

module _ {V : Type 0} where
  find-assign_same : (k : Bytes) (v : V) (m : Map V) → find k (assign k v m) ≡ some v
  unfolding find assign
  find-assign_same k v [] = rw (equivalent_refl k)
  find-assign_same k v ((j, w) ∷ m) = elim (Bool-cases (equivalent j k)) [
    | inl e ↦ rw (assign, e, find, e)
    | inr e ↦ rw (assign, e, find, e, find-assign_same k v m)
  ]

  find-assign_other : (k l : Bytes) (v : V) (m : Map V) → l ≢ k → find l (assign k v m) ≡ find l m
  unfolding find assign
  find-assign_other k l v [] h = rw (equivalent-ne k l (λ e. h (sym e)))
  find-assign_other k l v ((j, w) ∷ m) h = elim (Bool-cases (equivalent j k)) [
    | inl e ↦ rw (equivalent-eq j k e, equivalent_refl k, equivalent-ne k l (λ e. h (sym e)))
    | inr e ↦ rw (assign, e, find, find-assign_other k l v m h)
  ]

  -- After `m[k] = v` the key `k` is found with `v`, and each other key as before. Keys are one for the
  -- map just when they are equal byte for byte.
  pub find-assign :
      (k l : Bytes) (v : V) (m : Map V)
      → (find l (assign k v m) ≡ (if equivalent k l then some v else find l m))
        × ((equivalent k l ≡ true) ↔ (k ≡ l))
  find-assign k l v m = (
    elim (Bool-cases (equivalent k l)) [
      | inl e ↦ rw (e, ← equivalent-eq k l e, find-assign_same k v m)
      | inr e ↦ rw (e, find-assign_other k l v m (differs e))
    ],
    (equivalent-eq k l, λ e. ap (λ j. equivalent k j) (sym e) ∙ equivalent_refl k),
  )
    where
      differs : equivalent k l ≡ false → l ≢ k
      differs e h = true≢false (sym (equivalent_refl k) ∙ ap (λ j. equivalent k j) (sym h) ∙ e)
