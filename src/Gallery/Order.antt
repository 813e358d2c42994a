-- ===== src/Gallery/Order.antt =====
-- Dragging a card, and the order that the page keeps from it.
use mathlib.Core.Path.{subst}
use mathlib.Core.List.{Perm, filter_map-cons-some}
use mathlib.Core.List.Perm
use zhici_photo_upload_platf.Gallery.{
  image_of, State, images, Env, drag_end, dragged, next_page, previous_page, update,
}
use zhici_photo_upload_platf.Gallery.Selection.{Distinct}
use zhici_photo_upload_platf.Media.{Image}
use zhici_photo_upload_platf.Prelude.{
  All, List, Option-cases, [], arith, elem, false, filter_map, inl, inr, map, none, refl, some, sym,
  true, ℕ, ◌∷◌, ◌≡◌, Option, Bool-cases, ◌==◌, ap, ◌∙◌,
}

abbrev pub ids_of : List Image → List ℕ
ids_of raw = map (λ (i : Image). i.id) raw

image_of-elem :
    (raw : List Image) (id : ℕ)
    → elem id (ids_of raw) ≡ true
    → (i : Image) × (image_of raw id ≡ some i)
unfolding image_of
image_of-elem [] id e = absurd (cc)
image_of-elem (i ∷ raw) id e = elim (Option-cases (image_of raw id)) [
  | inr (j, p) ↦ (j, rw (p, image_of))
  | inl p ↦ (i, ground (arith, image_of-elem raw id))
]

image_of-not_elem :
    (raw : List Image) (id : ℕ) → elem id (ids_of raw) ≡ false → image_of raw id ≡ none
unfolding image_of
image_of-not_elem [] id e = refl
image_of-not_elem (i ∷ raw) id e = ground (arith, image_of-not_elem raw id)

image_of-cons :
    (i : Image) (raw : List Image) (id : ℕ)
    → elem id (ids_of raw) ≡ true
    → image_of (i ∷ raw) id ≡ image_of raw id
unfolding image_of
image_of-cons i raw id e = let (j, p) = image_of-elem raw id e in rw (p, image_of)

shown_ids-cons :
    (i : Image) (raw : List Image) (ids : List ℕ)
    → All (λ id. elem id (ids_of raw) ≡ true) ids
    → filter_map (image_of (i ∷ raw)) ids ≡ filter_map (image_of raw) ids
unfolding filter_map
shown_ids-cons i raw [] h = refl
shown_ids-cons i raw (id ∷ ids) h =
    let (j, p) = image_of-elem raw id h.0 in
    filter_map-cons-some (image_of (i ∷ raw)) id ids (image_of-cons i raw id h.0 ∙ p)
    ∙ ap (◌∷◌ j) (shown_ids-cons i raw ids h.1)
    ∙ sym (filter_map-cons-some (image_of raw) id ids p)

All-elem_weaken :
    (x : ℕ) (xs ys : List ℕ) → All (λ y. elem y xs ≡ true) ys → All (λ y. elem y (x ∷ xs) ≡ true) ys
All-elem_weaken x xs [] h = tt
All-elem_weaken x xs (y ∷ ys) h = (ground arith, All-elem_weaken x xs ys h.1)

All-elem_self : (xs : List ℕ) → All (λ y. elem y xs ≡ true) xs
All-elem_self [] = tt
All-elem_self (x ∷ xs) = (ground arith, All-elem_weaken x xs xs (All-elem_self xs))

image_of_head :
    (i : Image) (raw : List Image)
    → elem i.id (ids_of raw) ≡ false
    → image_of (i ∷ raw) i.id ≡ some i
unfolding image_of
image_of_head i raw e = rw (image_of-not_elem raw i.id e, image_of) (ground arith)

-- Without equal ids, the ids in their own order show the images themselves.
shown_ids_self :
    (raw : List Image) → Distinct (ids_of raw) → filter_map (image_of raw) (ids_of raw) ≡ raw
unfolding filter_map
shown_ids_self [] d = refl
shown_ids_self (i ∷ raw) d = cc (
  image_of_head i raw d.0,
  shown_ids-cons i raw (ids_of raw) (All-elem_self (ids_of raw)),
  shown_ids_self raw d.1,
)

-- The kept order is one of the loaded images.
abbrev pub IsOrderOf : List Image → Option (List ℕ) → Type 0
IsOrderOf raw none = Unit
IsOrderOf raw (some ids) = Perm ids (ids_of raw)

images-perm :
    (raw : List Image) (s : State) (o : Option (List ℕ))
    → s.order_override ≡ o
    → Distinct (ids_of raw)
    → IsOrderOf raw o
    → Perm (images s raw) raw
unfolding images
images-perm raw s none e d h = rw (e, images) (Perm.refl raw)
images-perm raw s (some ids) e d h =
    rw (e, images)
      (subst (Perm (filter_map (image_of raw) ids)) (shown_ids_self raw d)
        (Perm.filter_map (image_of raw) h))

-- `arrayMove` of @dnd-kit/sortable moves one item of a list to another place.
module _ (array_move : List ℕ → Option ℕ → Option ℕ → List ℕ)
    (moves : (l : List ℕ) (i j : Option ℕ) → Perm (array_move l i j) l) where
  dragged-IsOrderOf :
      (env : Env) (active : ℕ) (over : Option ℕ) (s : State)
      → Distinct (ids_of env.raw_images)
      → IsOrderOf env.raw_images s.order_override
      → IsOrderOf env.raw_images (dragged array_move env active over s).order_override
  unfolding dragged
  dragged-IsOrderOf env active none s d h = h
  dragged-IsOrderOf env active (some over) s d h = elim (Bool-cases (active == over)) [
    | inl e ↦ rw (e, dragged) h
    | inr e ↦
        rw (e, dragged)
          (Perm.trans (moves _ _ _)
            (Perm.map (λ (i : Image). i.id) (images-perm env.raw_images s _ refl d h)))
  ]

  -- Dropping a card, wherever, shows the same images as were loaded, each as often, in some order,
  -- provided that the order kept so far was one of these images and that their ids are distinct; and
  -- the order that is then kept is again one of these images.
  pub dragged-perm :
      (env : Env) (active : ℕ) (over : Option ℕ) (s : State)
      → Distinct (ids_of env.raw_images)
      → IsOrderOf env.raw_images s.order_override
      → let s' = (update array_move env (drag_end active over) s).0 in
        Perm (images s' env.raw_images) env.raw_images × IsOrderOf env.raw_images s'.order_override
  unfolding update
  dragged-perm env active over s d h =
      let k = dragged-IsOrderOf env active over s d h in
      (images-perm env.raw_images _ _ refl d k, k)

not_in_order :
    (raw : List Image) (ids : List ℕ)
    → All (λ id. elem id (ids_of raw) ≡ false) ids
    → filter_map (image_of raw) ids ≡ []
unfolding filter_map
not_in_order raw [] h = refl
not_in_order raw (id ∷ ids) h =
    ground (arith, image_of-not_elem raw id h.0, not_in_order raw ids h.1)

-- An order that was kept from another page hides this page: after any message that only turns the
-- page, no image of the new page is shown if none of them is in the kept order.
pub stale_order_hides_page :
    (array_move : List ℕ → Option ℕ → Option ℕ → List ℕ) (env : Env) (s : State) (ids : List ℕ)
    (raw : List Image)
    → s.order_override ≡ some ids
    → All (λ id. elem id (ids_of raw) ≡ false) ids
    → (images (update array_move env next_page s).0 raw ≡ [])
      × (images (update array_move env previous_page s).0 raw ≡ [])
unfolding update images
stale_order_hides_page f env s ids raw e h =
    (rw e (not_in_order raw ids h), rw e (not_in_order raw ids h))
