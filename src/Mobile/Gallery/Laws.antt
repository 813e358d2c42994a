-- ===== src/Mobile/Gallery/Laws.antt =====
-- Whose images the screen offers to delete and to give another name.
use mathlib.Core.Path.{subst}
use zhici_photo_upload_platf.Media.{Image, ImageTag, Tag}
use zhici_photo_upload_platf.Mobile.Card.{
  action_buttons, image_card, uploader_badge, empty_state, tag_chip,
}
use zhici_photo_upload_platf.Mobile.Gallery.{
  Msg, Env, card, delete_one, deleted, is_filter, open_image, own_actions, press_tag, pull_down,
  reach_end, rename, renamed, set_search, view,
}
use zhici_photo_upload_platf.Prelude.{
  Bool, List, Node, Offers, Offers-append, Option, Text, [], false, inl, inr, label, map, none,
  some, take, true, txt, ◌∷◌, ◌≡◌, ◌⊎◌, Any, String, button, flat_map, if◌then◌else◌, is_empty, not,
  refl, when, ℕ, ◌&&◌, ◌++◌,
}
use zhici_photo_upload_platf.Mobile.Feed.{State, is_refreshing}

tag_labels-silent :
    (m : Msg) (ts : List ImageTag)
    → Offers m (map (λ (t : ImageTag). label "tag" (txt t.name ∷ [])) ts)
    → ⊥
tag_labels-silent m [] o = o
tag_labels-silent m (t ∷ ts) (inl o) = o
tag_labels-silent m (t ∷ ts) (inr o) = tag_labels-silent m ts o

uploader_badge-silent : (m : Msg) (b : Bool) (o : Option Text) → Offers m (uploader_badge b o) → ⊥
uploader_badge-silent m b none o = o
uploader_badge-silent m b (some []) o = o
uploader_badge-silent m true (some (c ∷ t)) (inl o) = o
uploader_badge-silent m true (some (c ∷ t)) (inr o) = o
uploader_badge-silent m false (some (c ∷ t)) o = o

-- What a card offers is to open the image, or stands behind one of its two buttons.
image_card-Offers :
    (m : Msg) (b : Bool) (acts : Option (Node Msg × Node Msg)) (go : Msg) (img : Image)
    → Offers m (image_card b acts go img)
    → (m ≡ go) ⊎ Offers m (action_buttons acts)
unfolding image_card
image_card-Offers m b acts go img (inl o) = inl o.1
image_card-Offers m b acts go img (inr (inl o)) = absurd o
image_card-Offers m b acts go img (inr (inr o)) =
    elim (Offers-append m (uploader_badge b img.username) _ o) [
      | inl o' ↦ absurd (uploader_badge-silent m b img.username o')
      | inr (inl o') ↦ absurd o'
      | inr (inr (inl o')) ↦ absurd o'
      | inr (inr (inr o')) ↦
          elim (Offers-append m (map _ (take 2 img.tags)) (action_buttons acts) o') [
            | inl o'' ↦ absurd (tag_labels-silent m (take 2 img.tags) o'')
            | inr o'' ↦ inr o''
          ]
    ]

-- A message that changes an image.
abbrev pub Changes : ℕ → Msg → Type 0
Changes id (delete_one i) = i ≡ id
Changes id (rename i o) = i ≡ id
Changes id (set_search t) = ⊥
Changes id (press_tag t) = ⊥
Changes id pull_down = ⊥
Changes id reach_end = ⊥
Changes id (open_image i) = ⊥
Changes id (deleted ok) = ⊥
Changes id (renamed ok) = ⊥

own_actions-Offers :
    (m : Msg) (id : ℕ) (b : Bool) (img : Image)
    → Changes id m
    → Offers m (action_buttons (own_actions b img))
    → (b ≡ true) × (img.id ≡ id)
own_actions-Offers m id false img c o = absurd o
own_actions-Offers m id true img c (inl (o, e)) = (refl, subst (Changes id) e c)
own_actions-Offers m id true img c (inr (inl e)) = (refl, subst (Changes id) e c)
own_actions-Offers m id true img c (inr (inr o)) = absurd o

card-Offers :
    (m : Msg) (id : ℕ) (env : Env) (img : Image)
    → Changes id m
    → Offers m (card env img)
    → (env.mine ≡ true) × (img.id ≡ id)
card-Offers m id env img c o =
    elim (image_card-Offers m (not env.mine) (own_actions env.mine img) (open_image img.id) img o) [
      | inl e ↦ absurd (subst (Changes id) e c)
      | inr o' ↦ own_actions-Offers m id env.mine img c o'
    ]

cards-Offers :
    (m : Msg) (id : ℕ) (env : Env) (imgs : List Image)
    → Changes id m
    → Offers m (flat_map (card env) imgs)
    → (env.mine ≡ true) × Any (λ (img : Image). img.id ≡ id) imgs
unfolding flat_map
cards-Offers m id env [] c o = absurd o
cards-Offers m id env (img ∷ imgs) c o =
    elim (Offers-append m (card env img) (flat_map (card env) imgs) o) [
      | inl o' ↦ let (h, e) = card-Offers m id env img c o' in (h, inl e)
      | inr o' ↦ let (h, e) = cards-Offers m id env imgs c o' in (h, inr e)
    ]

tag_chips-Offers :
    (m : Msg) (id : ℕ) (f : Option Text) (ts : List Tag)
    → Changes id m
    → Offers m (map (λ (t : Tag). tag_chip (is_filter f t.name) t.name (press_tag t.name)) ts)
    → ⊥
tag_chips-Offers m id f [] c o = o
tag_chips-Offers m id f (t ∷ ts) c (inl (o, e)) = subst (Changes id) e c
tag_chips-Offers m id f (t ∷ ts) c (inr o) = tag_chips-Offers m id f ts c o

rest-Offers :
    (m : Msg) (id : ℕ) (b : Bool) (message : String)
    → Changes id m
    → Offers m (
        when b (empty_state message)
        ++ button "refresh" true [] pull_down ∷ button "end" true [] reach_end ∷ [])
    → ⊥
rest-Offers m id true message c (inl o) = o
rest-Offers m id true message c (inr (inl o)) = o
rest-Offers m id true message c (inr (inr (inl (o, e)))) = subst (Changes id) e c
rest-Offers m id true message c (inr (inr (inr (inl (o, e))))) = subst (Changes id) e c
rest-Offers m id true message c (inr (inr (inr (inr o)))) = o
rest-Offers m id false message c (inl (o, e)) = subst (Changes id) e c
rest-Offers m id false message c (inr (inl (o, e))) = subst (Changes id) e c
rest-Offers m id false message c (inr (inr o)) = o

-- The screen offers to delete an image or to give it another name only on `MyUploads`, and only for an
-- image that it shows.
pub changes_own_only :
    (m : Msg) (id : ℕ) (env : Env) (s : State)
    → Changes id m
    → Offers m (view env s)
    → (env.mine ≡ true) × Any (λ (img : Image). img.id ≡ id) s.all_images
unfolding view
changes_own_only m id env s c (inl (t, e)) = absurd (subst (Changes id) e c)
changes_own_only m id env s c (inr o) =
    elim (Offers-append m
      (map (λ (t : Tag). tag_chip (is_filter s.tag_filter t.name) t.name (press_tag t.name))
        env.tags)
      _ o) [
        | inl o' ↦ absurd (tag_chips-Offers m id s.tag_filter env.tags c o')
        | inr o' ↦ elim (Offers-append m (flat_map (card env) s.all_images) _ o') [
          | inl o'' ↦ cards-Offers m id env s.all_images c o''
          | inr o'' ↦ absurd (
              rest-Offers m id (is_empty s.all_images && not (is_refreshing env.is_loading s))
                (if env.mine then "你还没有上传图片" else "暂无图片") c o'')
        ]
      ]
