-- ===== src/Metadata/LogPaths.antt =====
-- The path of a partition's log: the topic's name and the partition's number can be told from it.
use kafka_cpp_server.Prelude.{
  ℕ, zero, suc, ◌+◌, ◌-◌, ◌*◌, ◌/◌, ◌%◌, ◌^◌, ◌≤◌, ◌<◌, ◌≡◌, refl, ap, sym, ◌∙◌, [], ◌∷◌, ◌++◌,
  append_assoc, reverse, reverse-reverse, length, drop, drop-append, All, All-append, All-reverse,
  lt→ltb, le→ltb, lt→leb, arith,
}
use mathlib.Core.List.{reverse-append}
use native.Mathlib.Nat.{pow-suc}
use native.Mathlib.Decide.{dec_lt}
use kafka_cpp_server.Protocol.Types.{Bytes, Int32}
use kafka_cpp_server.Metadata.Log.{codes, decimal, decimal_int32, log_file_path}

abbrev IsDigit : ℕ → Type 0
IsDigit c = 48 ≤ c

decimal-IsDigit : (fuel n : ℕ) → All IsDigit (decimal fuel n)
unfolding decimal
decimal-IsDigit zero n = (omega arith, tt)
decimal-IsDigit (suc fuel) n = elim (dec_lt n 10) [
  | yes small ↦ rw (lt→ltb n 10 small) (omega arith, tt)
  | no large ↦ rw (le→ltb n 10 (omega arith)) (
      All-append IsDigit (decimal fuel (n / 10)) _ (decimal-IsDigit fuel (n / 10))
        (omega arith, tt))
]

-- The number of some digits, the lowest first.
abbrev value : Bytes → ℕ
value [] = 0
value (c ∷ cs) = (c - 48) + 10 * value cs

reverse-snoc : (cs : Bytes) (c : ℕ) → reverse (cs ++ c ∷ []) ≡ c ∷ reverse cs
reverse-snoc cs c = reverse-append cs (c ∷ [])

value-decimal : (fuel n : ℕ) → n < 10 ^ suc fuel → value (reverse (decimal fuel n)) ≡ n
unfolding decimal
value-decimal zero n h = omega arith
value-decimal (suc fuel) n h = elim (dec_lt n 10) [
  | yes small ↦ rw (lt→ltb n 10 small) (omega arith)
  | no large ↦
      rw (le→ltb n 10 (omega arith), reverse-snoc (decimal fuel (n / 10)) (48 + n % 10))
        (omega (arith, value-decimal fuel (n / 10) (omega (arith, pow-suc 10 (suc fuel)))))
]

same_rest : (p x y : Bytes) → p ++ x ≡ p ++ y → x ≡ y
same_rest p x y e = sym (drop-append p x) ∙ ap (drop (length p)) e ∙ drop-append p y

abbrev first_byte : Bytes → ℕ
first_byte [] = 0
first_byte (c ∷ cs) = c

-- Digits end at the first hyphen.
at_hyphen :
    (xs ys u v : Bytes)
    → All IsDigit xs
    → All IsDigit ys
    → xs ++ 45 ∷ u ≡ ys ++ 45 ∷ v
    → (xs ≡ ys) × (u ≡ v)
at_hyphen [] [] u v h k e = (refl, ap (drop 1) e)
at_hyphen [] (y ∷ ys) u v h (p, k) e = absurd (omega (arith, ap first_byte e))
at_hyphen (x ∷ xs) [] u v (p, h) k e = absurd (omega (arith, ap first_byte e))
at_hyphen (x ∷ xs) (y ∷ ys) u v (p, h) (q, k) e =
    let (same, rest) = at_hyphen xs ys u v h k (ap (drop 1) e) in
    (rw (same, ap first_byte e) refl, rest)

decimal_int32-decimal : (n : Int32) → n < 2 ^ 31 → decimal_int32 n ≡ decimal 9 n
unfolding decimal_int32
decimal_int32-decimal n h = rw (lt→leb (2 ^ 31) n h) refl

-- The end of a path, read from behind.
backwards :
    (name digits end : Bytes)
    → reverse (name ++ 45 ∷ [] ++ digits ++ end)
      ≡ reverse end ++ (reverse digits ++ 45 ∷ reverse name)
backwards name digits end =
    reverse-append (name ++ 45 ∷ [] ++ digits) end
    ∙ ap (λ l. reverse end ++ l)
        (reverse-append (name ++ 45 ∷ []) digits
          ∙ ap (λ l. reverse digits ++ l) (reverse-append name (45 ∷ [])))

behind_directory :
    (p name hyphen digits end : Bytes)
    → p ++ name ++ hyphen ++ digits ++ end ≡ p ++ (name ++ hyphen ++ digits ++ end)
behind_directory p name hyphen digits end = simp append_assoc refl

parts :
    (p end name name' digits digits' : Bytes)
    → All IsDigit digits
    → All IsDigit digits'
    → p ++ name ++ 45 ∷ [] ++ digits ++ end ≡ p ++ name' ++ 45 ∷ [] ++ digits' ++ end
    → (reverse digits ≡ reverse digits') × (name ≡ name')
parts p end name name' digits digits' h h' e =
    let tails = same_rest p _ _ (
      sym (behind_directory p name (45 ∷ []) digits end)
      ∙ e
      ∙ behind_directory p name' (45 ∷ []) digits' end) in
    let turned =
      same_rest (reverse end) _ _
        (sym (backwards name digits end) ∙ ap reverse tails ∙ backwards name' digits' end) in
    let (numbers, names) =
      at_hyphen (reverse digits) (reverse digits') (reverse name) (reverse name')
        (All-reverse IsDigit digits h) (All-reverse IsDigit digits' h') turned in
    (numbers, sym (reverse-reverse name) ∙ ap reverse names ∙ reverse-reverse name')

-- Two paths of logs, for numbers of partitions that are not negative, are the same only if the topics'
-- names and the numbers are the same.
pub log_file_path-injective :
    (name name' : Bytes) (n n' : Int32)
    → n < 2 ^ 31
    → n' < 2 ^ 31
    → log_file_path name n ≡ log_file_path name' n'
    → (name ≡ name') × (n ≡ n')
unfolding log_file_path
log_file_path-injective name name' n n' h h' e =
    let (numbers, names) =
      parts (codes "/tmp/kraft-combined-logs/") (codes "/00000000000000000000.log") name name'
        (decimal 9 n) (decimal 9 n') (decimal-IsDigit 9 n) (decimal-IsDigit 9 n')
        (rw (← decimal_int32-decimal n h, ← decimal_int32-decimal n' h') e) in
    (
      names,
      sym (value-decimal 9 n (omega arith)) ∙ ap value numbers ∙ value-decimal 9 n' (omega arith),
    )
