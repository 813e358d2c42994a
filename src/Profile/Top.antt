-- ===== src/Profile/Top.antt =====
-- The four file types that the profile shows are the largest ones.
use zhici_photo_upload_platf.Media.{Image}
use zhici_photo_upload_platf.Prelude.{
  All, Bool-cases, List, Text, [], ap, arith, inl, inr, length, ltb, refl, suc, take, text_eq, true,
  zero, ℕ, ◌||◌, ◌∙◌, ◌∷◌, ◌≡◌, ◌≤◌, ◌⊎◌, eq_of_text_eq, sym, All-weaken,
}
use zhici_photo_upload_platf.Profile.{TypeStat, insert_stat, sort_stats, group, type_stats}
use zhici_photo_upload_platf.Profile.Types.{files_of, has, total_size, groups-ExactBy}

-- The largest size comes first.
abbrev pub Sorted : List TypeStat → Type 0
Sorted [] = Unit
Sorted (g ∷ gs) = All (λ (h : TypeStat). h.size ≤ g.size) gs × Sorted gs

-- The count and the size of a type are those of its images.
abbrev pub Exact : List Image → TypeStat → Type 0
Exact is g = (g.count ≡ length (files_of g.ext is)) × (g.size ≡ total_size (files_of g.ext is))

All-insert_stat :
    (P : TypeStat → Type 0) (g : TypeStat) (gs : List TypeStat)
    → P g
    → All P gs
    → All P (insert_stat g gs)
unfolding insert_stat
All-insert_stat P g [] p a = (p, tt)
All-insert_stat P g (h ∷ gs) p a = elim (Bool-cases (ltb g.size h.size)) [
  | inl e ↦ rw e (a.0, All-insert_stat P g gs p a.1)
  | inr e ↦ rw e (p, a)
]

insert_stat-Sorted : (g : TypeStat) (gs : List TypeStat) → Sorted gs → Sorted (insert_stat g gs)
unfolding insert_stat
insert_stat-Sorted g [] s = (tt, tt)
insert_stat-Sorted g (h ∷ gs) s = elim (Bool-cases (ltb g.size h.size)) [
  | inl e ↦ rw e (All-insert_stat _ g gs (ground (arith, e)) s.0, insert_stat-Sorted g gs s.1)
  | inr e ↦
      let l : h.size ≤ g.size = ground (arith, e) in
      rw e ((l, All-weaken _ _ gs (λ k q. omega (arith, q, l)) s.0), s)
]

sort_stats-Sorted : (gs : List TypeStat) → Sorted (sort_stats gs)
unfolding sort_stats
sort_stats-Sorted [] = tt
sort_stats-Sorted (g ∷ gs) = insert_stat-Sorted g (sort_stats gs) (sort_stats-Sorted gs)

All-sort_stats : (P : TypeStat → Type 0) (gs : List TypeStat) → All P gs → All P (sort_stats gs)
unfolding sort_stats
All-sort_stats P [] a = tt
All-sort_stats P (g ∷ gs) a = All-insert_stat P g (sort_stats gs) a.0 (All-sort_stats P gs a.1)

has-insert_stat :
    (e : Text) (g : TypeStat) (gs : List TypeStat)
    → has e (insert_stat g gs) ≡ (text_eq g.ext e || has e gs)
unfolding insert_stat
has-insert_stat e g [] = refl
has-insert_stat e g (h ∷ gs) = elim (Bool-cases (ltb g.size h.size)) [
  | inl p ↦ let q = has-insert_stat e g gs in rw p (ground (arith, q))
  | inr p ↦ rw p refl
]

has-sort_stats : (e : Text) (gs : List TypeStat) → has e (sort_stats gs) ≡ has e gs
unfolding sort_stats
has-sort_stats e [] = refl
has-sort_stats e (g ∷ gs) =
    has-insert_stat e g (sort_stats gs) ∙ ap (λ b. text_eq g.ext e || b) (has-sort_stats e gs)

All-take : (P : TypeStat → Type 0) (n : ℕ) (gs : List TypeStat) → All P gs → All P (take n gs)
All-take P zero gs a = tt
All-take P (suc n) [] a = tt
All-take P (suc n) (g ∷ gs) a = (a.0, All-take P n gs a.1)

take-Sorted : (n : ℕ) (gs : List TypeStat) → Sorted gs → Sorted (take n gs)
take-Sorted zero gs s = tt
take-Sorted (suc n) [] s = tt
take-Sorted (suc n) (g ∷ gs) s = (All-take _ n gs s.0, take-Sorted n gs s.1)

length-take-le : (n : ℕ) (gs : List TypeStat) → length (take n gs) ≤ n
length-take-le zero gs = omega arith
length-take-le (suc n) [] = omega arith
length-take-le (suc n) (g ∷ gs) = omega (arith, length-take-le n gs)

bound_le :
    (bound : ℕ) (e : Text) (m : ℕ) (gs : List TypeStat)
    → has e gs ≡ true
    → All (λ (g : TypeStat). (text_eq g.ext e ≡ true → bound ≡ g.size)) gs
    → All (λ (g : TypeStat). g.size ≤ m) gs
    → bound ≤ m
bound_le bound e m [] h a l = absurd (cc)
bound_le bound e m (g ∷ gs) h a l = elim (Bool-cases (text_eq g.ext e)) [
  | inl p ↦ omega (arith, a.0 p, l.0)
  | inr p ↦ bound_le bound e m gs (ground (arith, p, h)) a.1 l.1
]

-- A group that is not among the first ones is no larger than any of them.
left_out :
    (bound : ℕ) (e : Text) (n : ℕ) (gs : List TypeStat)
    → Sorted gs
    → has e gs ≡ true
    → All (λ (g : TypeStat). (text_eq g.ext e ≡ true → bound ≡ g.size)) gs
    → (has e (take n gs) ≡ true) ⊎ All (λ (g : TypeStat). bound ≤ g.size) (take n gs)
left_out bound e zero gs s h a = inr tt
left_out bound e (suc n) [] s h a = inr tt
left_out bound e (suc n) (g ∷ gs) s h a = elim (Bool-cases (text_eq g.ext e)) [
  | inl p ↦ inl (ground (arith, p))
  | inr p ↦
      let k : has e gs ≡ true = ground (arith, p, h) in
      elim (left_out bound e n gs s.1 k a.1) [
        | inl q ↦ inl (ground (arith, q))
        | inr q ↦ inr (bound_le bound e g.size gs k a.1 s.0, q)
      ]
]

All-any_le : (n : ℕ) (gs : List TypeStat) → n ≡ 0 → All (λ (g : TypeStat). n ≤ g.size) gs
All-any_le n [] e = tt
All-any_le n (g ∷ gs) e = (omega (arith, e), All-any_le n gs e)

-- The breakdown has at most four file types, the largest first. Each has the number and the total
-- size of exactly the images of that type; and a type that it leaves out is no larger than any that
-- it shows.
pub type_stats_lem :
    (is : List Image)
    → (length (type_stats is) ≤ 4)
      × Sorted (type_stats is)
      × All (Exact is) (type_stats is)
      × ((e : Text)
          → (has e (type_stats is) ≡ true)
            ⊎ All (λ (g : TypeStat). total_size (files_of e is) ≤ g.size) (type_stats is))
unfolding type_stats
type_stats_lem is =
    let gs = group is [] in
    let x = groups-ExactBy is in
    let l = sort_stats gs in
    let s = sort_stats-Sorted gs in
    (
      length-take-le 4 l,
      take-Sorted 4 l s,
      All-take (Exact is) 4 l (All-sort_stats (Exact is) gs x.each),
      λ e. elim (Bool-cases (has e l)) [
        | inl p ↦ left_out (total_size (files_of e is)) e 4 l s p (
            All-weaken _ _ l
              (λ g q k.
                ap (λ t. total_size (files_of t is)) (sym (eq_of_text_eq g.ext e k)) ∙ sym q.1)
              (All-sort_stats (Exact is) gs x.each))
        | inr p ↦ inr (
            All-take _ 4 l (
              All-any_le (total_size (files_of e is)) l
                (x.rest e (sym (has-sort_stats e gs) ∙ p)).1))
      ],
    )
