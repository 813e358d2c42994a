-- ===== src/Gallery/Tests.antt =====
-- A page of the gallery, and the theorems at it.
use mathlib.Core.List.{Perm}
use mathlib.Core.List.Perm
use zhici_photo_upload_platf.Api.{batch_delete}
use zhici_photo_upload_platf.Gallery.{
  Env, State, batch_answered, batch_delete_selected, drag_end, grid, images, newest, next_page,
  oldest, pick_tag, previous_page, set_sort, toggle_select, update, Msg, set_search, show_mine,
}
use zhici_photo_upload_platf.Gallery.Order.{IsOrderOf, dragged-perm, stale_order_hides_page}
use zhici_photo_upload_platf.Gallery.Paging.{InRange, filtered_page_is_stuck, offered-InRange}
use zhici_photo_upload_platf.Gallery.Selection.{IsSelection, batch_delete_lem, update-IsSelection}
use zhici_photo_upload_platf.Gallery.View.{
  selection_bar, view_page, content, pager, sidebar, toolbar,
}
use zhici_photo_upload_platf.Media.{Image, call}
use zhici_photo_upload_platf.Prelude.{
  Bool, List, Offers, Option, [], arith, codes, false, inr, none, refl, some, true, ℕ, ◌∷◌, ◌≡◌,
  ◌≢◌, Offers-append_right, inl, Text, ◌⊎◌,
}

abbrev pub image_of_id : ℕ → Image
image_of_id i = record {
  id = i;
  filename = codes "a.png";
  url = codes "/a.png";
  thumbnail_url = none;
  download_url = none;
  alt_text = none;
  username = none;
  mime_type = none;
  file_size = 1;
  width = none;
  height = none;
  view_count = none;
  created_at = [];
  tags = [];
}

abbrev three_images : List Image
three_images = image_of_id 1 ∷ image_of_id 2 ∷ image_of_id 3 ∷ []

abbrev env_of : ℕ → Env
env_of total = record {
  mine = false;
  user = none;
  is_loading = false;
  raw_images = three_images;
  total = total;
  tags = [];
}

abbrev on_page : ℕ → State
on_page n = record {
  page = n;
  search = [];
  tag_filter = none;
  view = grid;
  sort = newest;
  selection_mode = false;
  selected = [];
  order_override = none;
}

abbrev two_selected : State
two_selected = record (on_page 1) { selection_mode = true; selected = 1 ∷ 3 ∷ [] }

-- In place of `arrayMove`: the first two items change places.
abbrev rotate : List ℕ → Option ℕ → Option ℕ → List ℕ
rotate [] i j = []
rotate (x ∷ []) i j = x ∷ []
rotate (x ∷ y ∷ l) i j = y ∷ x ∷ l

rotate-perm : (l : List ℕ) (i j : Option ℕ) → Perm (rotate l i j) l
rotate-perm [] i j = Perm.refl []
rotate-perm (x ∷ []) i j = Perm.refl (x ∷ [])
rotate-perm (x ∷ y ∷ l) i j = Perm.swap x y l

two_selected-IsSelection : IsSelection two_selected
two_selected-IsSelection = record { mode = refl; distinct = (refl, (refl, tt)) }

dragged_perm_example :
    let s' = (update rotate (env_of 3) (drag_end 1 (some 3)) (on_page 1)).0 in
    Perm (images s' three_images) three_images × IsOrderOf three_images s'.order_override
dragged_perm_example =
    dragged-perm rotate rotate-perm (env_of 3) 1 (some 3) (on_page 1) (refl, (refl, (refl, tt))) tt

toggled-IsSelection : IsSelection (update rotate (env_of 3) (toggle_select 3) two_selected).0
toggled-IsSelection =
    update-IsSelection rotate (env_of 3) (toggle_select 3) two_selected two_selected-IsSelection

Offers-batch_delete : Offers batch_delete_selected (selection_bar two_selected)
unfolding selection_bar
Offers-batch_delete = ground arith

batch_deleting :
    (two_selected.selected ≢ [])
    × (update rotate (env_of 3) batch_delete_selected two_selected
        ≡ (two_selected, call (batch_delete two_selected.selected) ∷ []))
    × ((update rotate (env_of 3) (batch_answered 2 true) two_selected).0.selected ≡ [])
    × ((update rotate (env_of 3) (batch_answered 2 false) two_selected).0 ≡ two_selected)
batch_deleting =
    batch_delete_lem rotate (env_of 3) two_selected 2 two_selected-IsSelection Offers-batch_delete

abbrev nothing_dragged : ℕ → Bool
nothing_dragged i = false

page_1-InRange : InRange (env_of 50) (on_page 1)
page_1-InRange = (omega arith, inr refl)

Offers-next_page : Offers next_page (view_page (env_of 50) (on_page 1) nothing_dragged)
unfolding view_page pager
Offers-next_page =
    let m : Msg = next_page in
    let e : Env = env_of 50 in
    let s : State = on_page 1 in
    Offers-append_right m (sidebar e s) _ (
      Offers-append_right m (toolbar e s) _ (
        Offers-append_right m (selection_bar s) _
          (Offers-append_right m (content e s nothing_dragged) _ (inr (inr (inl (refl, refl)))))))

turned-InRange : InRange (env_of 50) (update rotate (env_of 50) next_page (on_page 1)).0
turned-InRange =
    offered-InRange rotate (env_of 50) nothing_dragged next_page (on_page 1) page_1-InRange
      Offers-next_page

Offers-show_mine : Offers show_mine (view_page (env_of 3) (on_page 3) nothing_dragged)
unfolding view_page sidebar
Offers-show_mine = ground arith

stuck_on_page_3 :
    ((update rotate (env_of 3) (pick_tag (codes "sea")) (on_page 3)).0.page ≡ 3)
    × ((update rotate (env_of 3) (set_sort oldest) (on_page 3)).0.page ≡ 3)
    × (((update rotate (env_of 3) show_mine (on_page 3)).0.page ≡ 3)
        ⊎ ((q : Text) × (show_mine ≡ set_search q)))
stuck_on_page_3 =
    filtered_page_is_stuck rotate (env_of 3) nothing_dragged (codes "sea") oldest show_mine
      (on_page 3) (omega arith) Offers-show_mine

abbrev reordered : State
reordered = record (on_page 1) { order_override = some (7 ∷ 8 ∷ []) }

second_page_hidden :
    (images (update rotate (env_of 50) next_page reordered).0 three_images ≡ [])
    × (images (update rotate (env_of 50) previous_page reordered).0 three_images ≡ [])
second_page_hidden =
    stale_order_hides_page rotate (env_of 50) reordered (7 ∷ 8 ∷ []) three_images refl
      (refl, (refl, tt))
