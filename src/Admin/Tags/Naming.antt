-- ===== src/Admin/Tags/Naming.antt =====
-- Which names the page for tags gives.
use zhici_photo_upload_platf.Admin.Tags.{
  Msg, State, active_color, color_dot, create, create_answer, create_form, create_named, created,
  max_count, preset_colors, set_name, tag_list, tag_row, update, view_page,
}
use zhici_photo_upload_platf.Api.{create_tag}
use zhici_photo_upload_platf.Media.{Tag, call}
use zhici_photo_upload_platf.Prelude.{
  Any, Bool, List, Offers, Offers-append, Offers-flat_map, Option, Text, [], arith, false, flat_map,
  inl, inr, length, refl, trim, true, truthy, ℕ, ◌∷◌, ◌≡◌, ◌≢◌, ◌≤◌, length-trim, truthy-≢,
}

-- The field holds no more than its limit.
abbrev pub IsShort : State → Type 0
IsShort s = length s.new_name ≤ 32

set_name-dots :
    (t : Text) (s : State) (cs : List Text) → ¬ Any (λ c. Offers (set_name t) (color_dot s c)) cs
unfolding color_dot
set_name-dots t s [] o = o
set_name-dots t s (c ∷ cs) (inl o) = ground arith
set_name-dots t s (c ∷ cs) (inr o) = set_name-dots t s cs o

set_name-form : (t : Text) (s : State) → Offers (set_name t) (create_form s) → length t ≤ 32
unfolding create_form
set_name-form t s (inl o) = absurd o
set_name-form t s (inr (inl o)) = absurd o
set_name-form t s (inr (inr (inl (u, l, e)))) = ground arith
set_name-form t s (inr (inr (inr (inl o)))) = absurd o
set_name-form t s (inr (inr (inr (inr o)))) =
    elim (Offers-append (set_name t) (flat_map (color_dot s) preset_colors) _ o) [
      | inl k ↦ absurd (
          set_name-dots t s preset_colors
            (Offers-flat_map (set_name t) (color_dot s) preset_colors k))
      | inr k ↦ absurd (ground arith)
    ]

set_name-rows :
    (t : Text) (most : ℕ) (ts : List Tag) → ¬ Any (λ x. Offers (set_name t) (tag_row most x)) ts
unfolding tag_row
set_name-rows t most [] o = o
set_name-rows t most (x ∷ ts) (inl o) = ground arith
set_name-rows t most (x ∷ ts) (inr o) = set_name-rows t most ts o

set_name-list : (t : Text) (b : Bool) (ts : List Tag) → ¬ Offers (set_name t) (tag_list b ts)
unfolding tag_list
set_name-list t true ts o = ground arith
set_name-list t false ts o =
    elim (Offers-append (set_name t) (flat_map (tag_row (max_count ts)) ts) _ o) [
      | inl k ↦
          set_name-rows t (max_count ts) ts
            (Offers-flat_map (set_name t) (tag_row (max_count ts)) ts k)
      | inr k ↦ ground arith
    ]

set_name-page :
    (t : Text) (b : Bool) (ts : List Tag) (s : State)
    → Offers (set_name t) (view_page b ts s)
    → length t ≤ 32
unfolding view_page
set_name-page t b ts s (inl o) = absurd o
set_name-page t b ts s (inr (inl o)) = absurd o
set_name-page t b ts s (inr (inr (inl o))) = absurd o
set_name-page t b ts s (inr (inr (inr o))) = elim (Offers-append (set_name t) (create_form s) _ o) [
  | inl k ↦ set_name-form t s k
  | inr (inl k) ↦ absurd k
  | inr (inr k) ↦ absurd (set_name-list t b ts k)
]

created-IsShort :
    (ok : Bool) (m : Option Text) (s : State) → IsShort s → IsShort (create_answer ok m s).0
created-IsShort true m s h = omega arith
created-IsShort false m s h = h

create_named-IsShort : (t : Text) (s : State) → IsShort s → IsShort (create_named t s).0
unfolding create_named
create_named-IsShort [] s h = h
create_named-IsShort (c ∷ t) s h = h

-- What the user can do on the page keeps the name within 32 code units.
pub offered-IsShort :
    (m : Msg) (is_loading : Bool) (tags : List Tag) (s : State)
    → IsShort s
    → Offers m (view_page is_loading tags s)
    → IsShort (update m s).0
unfolding update
offered-IsShort (set_name t) b ts s h o = set_name-page t b ts s o
offered-IsShort create b ts s h o = create_named-IsShort (trim s.new_name) s h
offered-IsShort (created ok m) b ts s h o = created-IsShort ok m s h
offered-IsShort m b ts s h o = h

create_named_lem :
    (t : Text) (s : State)
    → truthy t ≡ true
    → create_named t s ≡ (record s { pending = true }, call (create_tag t (active_color s)) ∷ [])
unfolding create_named
create_named_lem [] s h = absurd (cc)
create_named_lem (c ∷ t) s h = refl

create-dots : (s : State) (cs : List Text) → ¬ Any (λ c. Offers create (color_dot s c)) cs
unfolding color_dot
create-dots s [] o = o
create-dots s (c ∷ cs) (inl o) = ground arith
create-dots s (c ∷ cs) (inr o) = create-dots s cs o

create_form-create :
    (s : State)
    → Offers create (create_form s)
    → (s.pending ≡ false) × (truthy (trim s.new_name) ≡ true)
unfolding create_form
create_form-create s (inl o) = absurd o
create_form-create s (inr (inl o)) = absurd o
create_form-create s (inr (inr (inl o))) = absurd (ground arith)
create_form-create s (inr (inr (inr (inl o)))) = absurd o
create_form-create s (inr (inr (inr (inr o)))) =
    elim (Offers-append create (flat_map (color_dot s) preset_colors) _ o) [
      | inl k ↦
          absurd
            (create-dots s preset_colors (Offers-flat_map create (color_dot s) preset_colors k))
      | inr k ↦ ground arith
    ]

-- Where the page offers to create a tag, no other is being created, and the one call that is made
-- gives a name that is not empty and has at most 32 code units: the entered one without the white
-- space around it, with the custom color if there is one and else the picked one.
pub create_tag_lem :
    (s : State)
    → IsShort s
    → Offers create (create_form s)
    → (s.pending ≡ false)
      × (trim s.new_name ≢ [])
      × (length (trim s.new_name) ≤ 32)
      × (update create s ≡ (
        record s { pending = true },
        call (create_tag (trim s.new_name) (active_color s)) ∷ [],
      ))
unfolding update
create_tag_lem s h o =
    let (p, q) = create_form-create s o in
    (
      p,
      truthy-≢ (trim s.new_name) q,
      omega (arith, length-trim s.new_name, h),
      create_named_lem (trim s.new_name) s q,
    )
