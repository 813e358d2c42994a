-- ===== src/Profile/Types.antt =====
-- The file types that the profile shows, against the images that they count.
use mathlib.Core.Path.{subst}
use zhici_photo_upload_platf.Media.{Image}
use zhici_photo_upload_platf.Prelude.{
  All, Bool, Bool-cases, List, Text, [], ap, arith, eq_of_text_eq, false, if◌then◌else◌, inl, inr,
  keep, refl, text_eq, ℕ, ◌+◌, ◌||◌, ◌∙◌, ◌∷◌, ◌≡◌, text_eq_refl, true, length, sym,
}
use zhici_photo_upload_platf.Profile.{TypeStat, add_to, ext_of, group}

-- The images of a type, and the sum of the sizes.
abbrev pub files_of : Text → List Image → List Image
files_of e is = keep (λ (i : Image). text_eq (ext_of i.mime_type) e) is

pub total_size : List Image → ℕ
total_size [] = 0
total_size (i ∷ is) = i.file_size + total_size is

abbrev pub has : Text → List TypeStat → Bool
has e [] = false
has e (g ∷ gs) = text_eq g.ext e || has e gs

abbrev plus_if : Text → Text → ℕ → ℕ → ℕ
plus_if x e n k = if text_eq x e then k + n else k

abbrev pub Apart : List TypeStat → Type 0
Apart [] = Unit
Apart (g ∷ gs) = (has g.ext gs ≡ false) × Apart gs

text_eq_sym : (a b : Text) → text_eq a b ≡ text_eq b a
text_eq_sym [] [] = refl
text_eq_sym [] (x ∷ b) = refl
text_eq_sym (x ∷ a) [] = refl
text_eq_sym (x ∷ a) (y ∷ b) = ground (arith, text_eq_sym a b)

has-add_to :
    (e x : Text) (n : ℕ) (gs : List TypeStat) → has e (add_to x n gs) ≡ (text_eq x e || has e gs)
unfolding add_to
has-add_to e x n [] = refl
has-add_to e x n (g ∷ gs) = elim (Bool-cases (text_eq g.ext x)) [
  | inl p ↦
      let q : text_eq g.ext e ≡ text_eq x e = ap (λ t. text_eq t e) (eq_of_text_eq g.ext x p) in
      rw p (ground (arith, q))
  | inr p ↦ let h = has-add_to e x n gs in rw p (ground (arith, h))
]

Apart-add_to : (x : Text) (n : ℕ) (gs : List TypeStat) → Apart gs → Apart (add_to x n gs)
unfolding add_to
Apart-add_to x n [] h = (refl, tt)
Apart-add_to x n (g ∷ gs) h = elim (Bool-cases (text_eq g.ext x)) [
  | inl p ↦ rw p h
  | inr p ↦ rw p (
    has-add_to g.ext x n gs ∙ ground (arith, h.0, text_eq_sym x g.ext ∙ p),
    Apart-add_to x n gs h.1,
  )
]

module _ (c s : Text → ℕ) (x : Text) (n : ℕ) where
  -- A group is exact before the file, and after it.
  abbrev Before : TypeStat → Type 0
  Before g = (g.count ≡ c g.ext) × (g.size ≡ s g.ext)

  abbrev Behind : TypeStat → Type 0
  Behind g = (g.count ≡ plus_if x g.ext 1 (c g.ext)) × (g.size ≡ plus_if x g.ext n (s g.ext))

  each_other : (gs : List TypeStat) → has x gs ≡ false → All Before gs → All Behind gs
  each_other [] h a = tt
  each_other (g ∷ gs) h a =
      let k : text_eq x g.ext ≡ false = text_eq_sym x g.ext ∙ ground (arith, h) in
      (rw k a.0, each_other gs (ground (arith, h)) a.1)

  each-add_to :
      (gs : List TypeStat)
      → All Before gs
      → (has x gs ≡ false → (c x ≡ 0) × (s x ≡ 0))
      → Apart gs
      → All Behind (add_to x n gs)
  unfolding add_to
  each-add_to [] a r d = let z = r refl in (ground (arith, text_eq_refl x, z), tt)
  each-add_to (g ∷ gs) a r d = elim (Bool-cases (text_eq g.ext x)) [
    | inl p ↦
        let k : text_eq x g.ext ≡ true = text_eq_sym x g.ext ∙ p in
        rw (p, k)
          (
            (omega (arith, a.0), omega (arith, a.0)),
            each_other gs (subst (λ t. has t gs ≡ false) (eq_of_text_eq g.ext x p) d.0) a.1,
          )
    | inr p ↦
        let k : text_eq x g.ext ≡ false = text_eq_sym x g.ext ∙ p in
        rw (p, k) (a.0, each-add_to gs a.1 (λ e. r (rw p e)) d.1)
  ]

-- The groups tell the counts and the sizes of two functions, each type once.
pub record ExactBy (c s : Text → ℕ) (gs : List TypeStat) : Type 0 where
  pub each : All (λ (g : TypeStat). (g.count ≡ c g.ext) × (g.size ≡ s g.ext)) gs
  pub rest : (e : Text) → has e gs ≡ false → (c e ≡ 0) × (s e ≡ 0)
  pub apart : Apart gs

ExactBy-add_to :
    (c s : Text → ℕ) (x : Text) (n : ℕ) (gs : List TypeStat)
    → ExactBy c s gs
    → ExactBy (λ e. plus_if x e 1 (c e)) (λ e. plus_if x e n (s e)) (add_to x n gs)
ExactBy-add_to c s x n gs h = record {
  each = each-add_to c s x n gs h.each (h.rest x) h.apart;
  rest = λ e p.
      let q = sym (has-add_to e x n gs) ∙ p in
      let k : text_eq x e ≡ false = ground (arith, q) in rw k (h.rest e (ground (arith, q)));
  apart = Apart-add_to x n gs h.apart;
}

All-same :
    (c s c' s' : Text → ℕ) (gs : List TypeStat)
    → ((e : Text) → c e ≡ c' e)
    → ((e : Text) → s e ≡ s' e)
    → All (λ (g : TypeStat). (g.count ≡ c g.ext) × (g.size ≡ s g.ext)) gs
    → All (λ (g : TypeStat). (g.count ≡ c' g.ext) × (g.size ≡ s' g.ext)) gs
All-same c s c' s' [] p q a = tt
All-same c s c' s' (g ∷ gs) p q a =
    ((a.0.0 ∙ p g.ext, a.0.1 ∙ q g.ext), All-same c s c' s' gs p q a.1)

ExactBy-same :
    (c s c' s' : Text → ℕ) (gs : List TypeStat)
    → ((e : Text) → c e ≡ c' e)
    → ((e : Text) → s e ≡ s' e)
    → ExactBy c s gs
    → ExactBy c' s' gs
ExactBy-same c s c' s' gs p q h = record {
  each = All-same c s c' s' gs p q h.each;
  rest = λ e k. (sym (p e) ∙ (h.rest e k).0, sym (q e) ∙ (h.rest e k).1);
  apart = h.apart;
}

-- One image more or less among the files of a type.
count-cons :
    (i : Image) (is : List Image) (e : Text) (k : ℕ)
    → plus_if (ext_of i.mime_type) e 1 k + length (files_of e is) ≡ k + length (files_of e (i ∷ is))
count-cons i is e k = elim (Bool-cases (text_eq (ext_of i.mime_type) e)) [
  | inl p ↦ rw p (omega arith)
  | inr p ↦ rw p refl
]

size-cons :
    (i : Image) (is : List Image) (e : Text) (k : ℕ)
    → plus_if (ext_of i.mime_type) e i.file_size k + total_size (files_of e is)
      ≡ k + total_size (files_of e (i ∷ is))
unfolding total_size
size-cons i is e k = elim (Bool-cases (text_eq (ext_of i.mime_type) e)) [
  | inl p ↦ rw p (omega arith)
  | inr p ↦ rw p refl
]

group-ExactBy :
    (is : List Image) (c s : Text → ℕ) (gs : List TypeStat)
    → ExactBy c s gs
    → ExactBy
        (λ e. c e + length (files_of e is))
        (λ e. s e + total_size (files_of e is))
        (group is gs)
unfolding group total_size
group-ExactBy [] c s gs h = ExactBy-same c s _ _ gs (λ e. omega arith) (λ e. omega arith) h
group-ExactBy (i ∷ is) c s gs h =
    ExactBy-same _ _ _ _ _ (λ e. count-cons i is e (c e)) (λ e. size-cons i is e (s e))
      (group-ExactBy is _ _ (add_to (ext_of i.mime_type) i.file_size gs)
        (ExactBy-add_to c s (ext_of i.mime_type) i.file_size gs h))

-- The groups of all images tell the number and the size of the files of each type.
pub groups-ExactBy :
    (is : List Image)
    → ExactBy (λ e. length (files_of e is)) (λ e. total_size (files_of e is)) (group is [])
groups-ExactBy is =
    ExactBy-same (λ e. 0 + length (files_of e is)) (λ e. 0 + total_size (files_of e is)) _ _ _
      (λ e. omega arith) (λ e. omega arith)
      (group-ExactBy is (λ e. 0) (λ e. 0) []
        (record { each = tt; rest = λ e h. (refl, refl); apart = tt }))
