-- ===== src/Gallery/Controls.antt =====
-- The controls of the gallery page that do not turn its pages: all but those of the pager.
use zhici_photo_upload_platf.Auth.{User}
use zhici_photo_upload_platf.Gallery.{
  Env, Msg, State, ViewMode, grid, list_rows, masonry, next_page, previous_page,
}
use zhici_photo_upload_platf.Gallery.Card.{
  CardProps, actions, card, card_meta, grid_card, list_row, tag_labels, uploader,
}
use zhici_photo_upload_platf.Gallery.View.{
  content, card_props, cards, selection_bar, sidebar, skeleton, tag_item, toolbar, user_item,
}
use zhici_photo_upload_platf.Media.{Image, ImageTag}
use zhici_photo_upload_platf.Prelude.{
  All, All-append, Bool, Bool-cases, List, Node, Offers, Option, Sends, String, Text, [], arith,
  ask, box, button, confirm, false, flat_map, flatten, image, inl, input, inr, label, none, refl,
  some, suc, take, true, when, zero, ℕ, ◌∷◌, ◌≡◌,
}

abbrev pub turns_page : Msg → Bool
turns_page previous_page = true
turns_page next_page = true
turns_page _ = false

-- A node that never turns the page.
abbrev pub Quiet : Node Msg → Type 0
Quiet (label c t) = Unit
Quiet (box c) = Unit
Quiet (image c s t) = Unit
Quiet (button c e t m) = turns_page m ≡ false
Quiet (confirm c t m) = turns_page m ≡ false
Quiet (ask c t v f) = (o : Option Text) → turns_page (f o) ≡ false
Quiet (input c v f) = (t : Text) → turns_page (f t) ≡ false
Quiet n = (m : Msg) → Sends m n → turns_page m ≡ false

pub Quiet-Sends : (m : Msg) (n : Node Msg) → Quiet n → Sends m n → turns_page m ≡ false
Quiet-Sends m (label c t) q h = absurd h
Quiet-Sends m (box c) q h = absurd h
Quiet-Sends m (image c s t) q h = absurd h
Quiet-Sends m (button c e t n) q h = rw h.1 q
Quiet-Sends m (confirm c t n) q h = rw h q
Quiet-Sends m (ask c t v f) q h = rw h.1 (q h.0)
Quiet-Sends m (input c v f) q h = rw h.1 (q h.0)
Quiet-Sends m n q h = q m h

pub Quiet-Offers :
    (m : Msg) (ns : List (Node Msg)) → All Quiet ns → Offers m ns → turns_page m ≡ false
Quiet-Offers m [] q h = absurd h
Quiet-Offers m (n ∷ ns) q (inl h) = Quiet-Sends m n q.0 h
Quiet-Offers m (n ∷ ns) q (inr h) = Quiet-Offers m ns q.1 h

pub All-flat_map {ℓ} :
    {A : Type ℓ} (f : A → List (Node Msg)) (xs : List A)
    → ((x : A) → All Quiet (f x))
    → All Quiet (flat_map f xs)
unfolding flat_map flatten
All-flat_map f [] h = tt
All-flat_map f (x ∷ xs) h = All-append Quiet (f x) (flat_map f xs) (h x) (All-flat_map f xs h)

pub All-when : (b : Bool) (ns : List (Node Msg)) → All Quiet ns → All Quiet (when b ns)
All-when true ns h = h
All-when false ns h = tt

tag_labels-Quiet : (ts : List ImageTag) → All Quiet (tag_labels ts)
tag_labels-Quiet [] = tt
tag_labels-Quiet (t ∷ ts) = (tt, tag_labels-Quiet ts)

uploader-Quiet : (c : String) (b : Bool) (o : Option Text) → All Quiet (uploader c b o)
uploader-Quiet c b none = tt
uploader-Quiet c b (some []) = tt
uploader-Quiet c true (some (x ∷ t)) = (tt, tt)
uploader-Quiet c false (some (x ∷ t)) = tt

actions-Quiet : (c : String) (p : CardProps) → All Quiet (actions c p)
actions-Quiet c p = (refl, All-append Quiet _ _ (All-when p.is_mine _ ((λ o. refl), tt)) (refl, tt))

list_row-Quiet : (p : CardProps) → All Quiet (list_row p)
unfolding list_row
list_row-Quiet p = (
  tt,
  (
    refl,
    (
      refl,
      (
        tt,
        (
          tt,
          (
            tt,
            All-append Quiet _ _ (uploader-Quiet "gp-list-uploader" p.show_uploader p.img.username)
                (All-append Quiet _ _ (tag_labels-Quiet (take 3 p.img.tags))
                  (actions-Quiet "gp-icon-btn" p)),
          ),
        ),
      ),
    ),
  ),
)

grid_card-Quiet : (p : CardProps) → All Quiet (grid_card p)
unfolding grid_card
grid_card-Quiet p = (
  tt,
  (
    refl,
    (
      tt,
      (
        refl,
        All-append Quiet _ _ (uploader-Quiet "gp-card-uploader" p.show_uploader p.img.username) (
          tt,
          All-append Quiet (actions "gp-mini-btn" p) (card_meta p.img)
              (actions-Quiet "gp-mini-btn" p) (tt, (tt, tag_labels-Quiet (take 3 p.img.tags))),
        ),
      ),
    ),
  ),
)

card-Quiet : (p : CardProps) (v : ViewMode) → p.view ≡ v → All Quiet (card p)
unfolding card
card-Quiet p list_rows e = rw (e, card) (list_row-Quiet p)
card-Quiet p grid e = rw (e, card) (grid_card-Quiet p)
card-Quiet p masonry e = rw (e, card) (grid_card-Quiet p)

cards-Quiet :
    (env : Env) (s : State) (d : ℕ → Bool) (is : List Image) → All Quiet (cards env s d is)
unfolding cards
cards-Quiet env s d [] = (tt, (refl, tt))
cards-Quiet env s d (i ∷ is) =
    All-flat_map (λ j. card (card_props env s d j)) (i ∷ is)
      (λ j. card-Quiet (card_props env s d j) s.view refl)

skeleton-Quiet : (v : ViewMode) (n : ℕ) → All Quiet (skeleton v n)
unfolding skeleton
skeleton-Quiet v zero = tt
skeleton-Quiet v (suc n) = (tt, skeleton-Quiet v n)

pub content-Quiet : (env : Env) (s : State) (d : ℕ → Bool) → All Quiet (content env s d)
unfolding content
content-Quiet env s d = elim (Bool-cases env.is_loading) [
  | inl e ↦ rw (e, content) (skeleton-Quiet s.view _)
  | inr e ↦ rw (e, content) (cards-Quiet env s d _)
]

user_item-Quiet : (u : Option User) → All Quiet (user_item u)
unfolding user_item
user_item-Quiet none = tt
user_item-Quiet (some u) = (refl, tt)

pub sidebar-Quiet : (env : Env) (s : State) → All Quiet (sidebar env s)
unfolding sidebar tag_item
sidebar-Quiet env s = (
  tt,
  (
    tt,
    (
      refl,
      (
        tt,
        (
          refl,
          All-append Quiet _ _
              (All-flat_map (tag_item s.tag_filter) (take 8 env.tags) (λ t. (tt, (refl, tt))))
              (user_item-Quiet env.user),
        ),
      ),
    ),
  ),
)

pub toolbar-Quiet : (env : Env) (s : State) → All Quiet (toolbar env s)
unfolding toolbar
toolbar-Quiet env s = ground arith

pub selection_bar-Quiet : (s : State) → All Quiet (selection_bar s)
unfolding selection_bar
selection_bar-Quiet s = All-when s.selection_mode _ (tt, (refl, (refl, tt)))
