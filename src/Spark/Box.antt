-- ===== src/Spark/Box.antt =====
-- The points of a spark stay in its box.
use mathlib.Core.Path.{subst}
use native.Mathlib.Decide.{dec_lt}
use zhici_photo_upload_platf.Prelude.{
  All, List, [], arith, length, ℕ, ◌*◌, ◌+◌, ◌∷◌, ◌≤◌, Any, Bool-cases, false, inl, inr, ltb, refl,
  sym, true, ◌≡◌, ◌⊎◌,
}
use zhici_photo_upload_platf.Spark.{max_val, spark_from}

max_val-cons : (c : ℕ) (cs : List ℕ) → (c ≤ max_val (c ∷ cs)) × (max_val cs ≤ max_val (c ∷ cs))
unfolding max_val
max_val-cons c cs = ground arith

pub counts_below : (cs : List ℕ) (m : ℕ) → max_val cs ≤ m → All (λ c. c ≤ m) cs
counts_below [] m h = tt
counts_below (c ∷ cs) m h =
    let k = max_val-cons c cs in (omega (arith, h, k.0), counts_below cs m (omega (arith, h, k.1)))

within : (width i n : ℕ) → i ≤ n → i * width ≤ width * n
within width i n h = grind (arith, h)

-- A point of a spark in its box, the width by 18, in parts.
abbrev pub IsInBox : ℕ → ℕ → ℕ → ℕ × ℕ → Type 0
IsInBox width n m p = (p.0 ≤ width * n) × (2 * m ≤ p.1) × (p.1 ≤ 18 * m)

pub spark_from-IsInBox :
    (width n m i : ℕ) (vs : List ℕ)
    → i + length vs ≤ n + 1
    → All (λ v. v ≤ m) vs
    → All (IsInBox width n m) (spark_from width n m i vs)
unfolding spark_from
spark_from-IsInBox width n m i [] h a = tt
spark_from-IsInBox width n m i (v ∷ vs) h a = (
  (within width i n (omega (arith, h)), omega (arith, a.0), omega arith),
  spark_from-IsInBox width n m (i + 1) vs (omega (arith, h)) a.1,
)

max_val-zero : (cs : List ℕ) → All (λ c. c ≡ 0) cs → max_val cs ≡ 1
unfolding max_val
max_val-zero [] h = refl
max_val-zero (c ∷ cs) h = let k = max_val-zero cs h.1 in ground (arith, h, k)

max_val-later : (c : ℕ) (cs : List ℕ) → ltb (max_val cs) c ≡ false → max_val (c ∷ cs) ≡ max_val cs
unfolding max_val
max_val-later c cs e = rw (e, max_val) refl

max_val-first : (c : ℕ) (cs : List ℕ) → ltb (max_val cs) c ≡ true → c ≡ max_val (c ∷ cs)
unfolding max_val
max_val-first c cs e = rw (e, max_val) refl

one_or_none :
    (c : ℕ) (cs : List ℕ)
    → ltb (max_val cs) c ≡ false
    → All (λ d. d ≡ 0) cs
    → (c ≡ 0) ⊎ (c ≡ max_val (c ∷ cs))
one_or_none c cs e z =
    let one = max_val-zero cs z in
    let same = max_val-later c cs e in
    let le : c ≤ max_val cs = ground (arith, e) in
    elim (dec_lt 0 c) [
      | yes h ↦ inr (omega (arith, one, same, le, h))
      | no h ↦ inl (omega (arith, h))
    ]

-- The greatest number is one of them, unless they are all 0.
pub max_val-reached : (cs : List ℕ) → All (λ c. c ≡ 0) cs ⊎ Any (λ c. c ≡ max_val cs) cs
max_val-reached [] = inl tt
max_val-reached (c ∷ cs) = elim (Bool-cases (ltb (max_val cs) c)) [
  | inl e ↦ inr (inl (max_val-first c cs e))
  | inr e ↦ elim (max_val-reached cs) [
    | inl z ↦ elim (one_or_none c cs e z) [ inl k ↦ inl (k, z) | inr k ↦ inr (inl k) ]
    | inr a ↦ inr (inr (subst (λ m. Any (λ d. d ≡ m) cs) (sym (max_val-later c cs e)) a))
  ]
]
