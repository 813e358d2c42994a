-- ===== src/Gallery.antt =====
-- frontend/src/pages/gallery/GalleryPage.tsx: the state of the page and its handlers.
pub mod Card
pub mod View
pub mod Selection
pub mod Order
pub mod Controls
pub mod Paging
pub mod Tests
use zhici_photo_upload_platf.Api.{
  Call, batch_delete, delete_image, list, list_public, update_image, ListParams,
}
use zhici_photo_upload_platf.Auth.{User, user}
use zhici_photo_upload_platf.Auth.Laws.{next}
use zhici_photo_upload_platf.Media.{
  Effect, Image, Tag, call, copy_text, error, error_text, image_page, invalidate, navigate, page_at,
  success,
}
use zhici_photo_upload_platf.Prelude.{
  Bool, List, Option, String, Text, [], elem, false, filter_map, if◌then◌else◌, is_empty, keep, lit,
  map, none, not, num, some, suc, text_eq, trim, true, truthy, when, ℕ, ◌&&◌, ◌++◌, ◌+◌, ◌-◌, ◌==◌,
  ◌∷◌,
}

pub data ViewMode : Type 0 where
  grid masonry list_rows : ViewMode

pub data SortMode : Type 0 where
  newest oldest name : SortMode

-- The page's own state, one field for each `useState`.
pub record State : Type 0 where
  pub page : ℕ
  pub search : Text
  pub tag_filter : Option Text
  pub view : ViewMode
  pub sort : SortMode
  pub selection_mode : Bool
  -- a `Set`, in the order of insertion
  pub selected : List ℕ
  pub order_override : Option (List ℕ)

-- What the page reads from outside: the address, the session and the queries' results.
pub record Env : Type 0 where
  pub mine : Bool
  pub user : Option User
  pub is_loading : Bool
  pub raw_images : List Image
  pub total : ℕ
  pub tags : List Tag

pub data Msg : Type 0 where
  -- the card
  open_image toggle_select delete_one : ℕ → Msg
  copy_url : Text → Msg
  -- the answer to the prompt for a new name of an image with a name
  rename : (id : ℕ) (old : Text) (answer : Option Text) → Msg
  -- the side bar and the tool bar
  show_all show_mine open_profile open_upload : Msg
  pick_tag set_search : Text → Msg
  set_view : ViewMode → Msg
  set_sort : SortMode → Msg
  -- the selection bar, the pager and dragging
  batch_delete_selected clear_selection previous_page next_page : Msg
  drag_end : (active : ℕ) (over : Option ℕ) → Msg
  -- answers: whether it went well, and for a renaming the message of an error's response
  delete_answered : Bool → Msg
  rename_answered : Bool → Option Text → Msg
  batch_answered : (size : ℕ) → Bool → Msg
  copy_answered : (written copied : Bool) → Msg

unfoldable pub initial : State
initial = record {
  page = 1;
  search = [];
  tag_filter = none;
  view = grid;
  sort = newest;
  selection_mode = false;
  selected = [];
  order_override = none;
}

sort_name : SortMode → String
sort_name newest = "newest"
sort_name oldest = "oldest"
sort_name name = "name"

-- The query for the images.
unfoldable pub image_query : Bool → State → Call
unfolding sort_name
image_query mine s =
    let params : ListParams = record {
      page = s.page;
      limit = 24;
      tag = s.tag_filter;
      search = some s.search;
      sort = some (sort_name s.sort);
    } in
    if mine then list params else list_public params

abbrev pub image_key : Bool → String
image_key mine = if mine then "images" else "public-images"

-- `map.get(id)` of the map by id: the last image with the id.
unfoldable pub image_of : List Image → ℕ → Option Image
image_of [] id = none
image_of (i ∷ is) id = elim (image_of is id) [
  | some j ↦ some j
  | none ↦ if i.id == id then some i else none
]

-- The images in the order that they are shown in.
unfoldable pub images : State → List Image → List Image
images s raw = elim s.order_override [ none ↦ raw | some ids ↦ filter_map (image_of raw) ids ]

-- `ids.indexOf(id)`, with `none` for -1.
unfoldable pub index_of : ℕ → List ℕ → Option ℕ
index_of id [] = none
index_of id (x ∷ xs) =
    if x == id then some 0 else elim (index_of id xs) [ none ↦ none | some i ↦ some (suc i) ]

-- The set with the number taken out if it was in, and added last if it was not.
unfoldable pub toggled : ℕ → List ℕ → List ℕ
toggled id xs = if elem id xs then keep (λ x. not (x == id)) xs else xs ++ id ∷ []

unfoldable pub toggle_selected : ℕ → State → State
unfolding toggled
toggle_selected id s =
    let next = toggled id s.selected in
    record s { selected = next; selection_mode = not (is_empty next) }

unfoldable pub cleared : State → State
cleared s = record s { selected = []; selection_mode = false }

abbrev tag_picked : Text → Option Text → Option Text
tag_picked t none = some t
tag_picked t (some u) = if text_eq u t then none else some t

-- `prompt(…)?.trim()`, then the call if there is a new name.
rename_effects : ℕ → Text → Option Text → List Effect
rename_effects id old none = []
rename_effects id old (some answer) =
    let new = trim answer in
    when (truthy new && not (text_eq new old)) (call (update_image id (some new) none none) ∷ [])

copy_effects : Bool → Bool → List Effect
copy_effects true copied = success (lit "链接已复制" ∷ []) ∷ []
copy_effects false true = success (lit "链接已复制" ∷ []) ∷ []
copy_effects false false = error (lit "复制失败，请手动复制" ∷ []) ∷ []

-- `arrayMove` of @dnd-kit/sortable is a parameter.
module _ (array_move : List ℕ → Option ℕ → Option ℕ → List ℕ) (env : Env) where
  unfoldable pub dragged : ℕ → Option ℕ → State → State
  dragged active none s = s
  dragged active (some over) s =
      if active == over
      then s
      else let ids = map (λ (i : Image). i.id) (images s env.raw_images) in
        record s {
          order_override = some (array_move ids (index_of active ids) (index_of over ids));
        }

  unfoldable pub update : Msg → State → State × List Effect
  unfolding toggle_selected cleared dragged rename_effects copy_effects
  update (open_image id) s = (s, navigate (image_page id) ∷ [])
  update (toggle_select id) s = (toggle_selected id s, [])
  update (delete_one id) s = (s, call (delete_image id) ∷ [])
  update (copy_url url) s = (s, copy_text url ∷ [])
  update (rename id old answer) s = (s, rename_effects id old answer)
  update show_all s = (s, navigate (page_at "/gallery") ∷ [])
  update show_mine s = (s, navigate (page_at "/gallery?mine=1") ∷ [])
  update open_profile s = (s, navigate (page_at "/profile") ∷ [])
  update open_upload s = (s, navigate (page_at "/upload") ∷ [])
  update (pick_tag t) s = (record s { tag_filter = tag_picked t s.tag_filter }, [])
  update (set_search t) s = (record s { search = t; page = 1 }, [])
  update (set_view v) s = (record s { view = v }, [])
  update (set_sort m) s = (record s { sort = m }, [])
  update batch_delete_selected s =
      if is_empty s.selected then (s, []) else (s, call (batch_delete s.selected) ∷ [])
  update clear_selection s = (cleared s, [])
  update previous_page s = (record s { page = s.page - 1 }, [])
  update next_page s = (record s { page = s.page + 1 }, [])
  update (drag_end active over) s = (dragged active over s, [])
  update (delete_answered true) s =
      (s, success (lit "已删除" ∷ []) ∷ invalidate (image_key env.mine) none ∷ [])
  update (delete_answered false) s = (s, [])
  update (rename_answered true message) s =
      (s, success (lit "已重命名" ∷ []) ∷ invalidate (image_key env.mine) none ∷ [])
  update (rename_answered false message) s = (s, error (error_text message "重命名失败") ∷ [])
  update (batch_answered size true) s = (
    cleared s,
    success (lit "已删除 " ∷ num size ∷ lit " 张" ∷ []) ∷ invalidate (image_key env.mine) none ∷ [],
  )
  update (batch_answered size false) s = (s, error (lit "删除失败" ∷ []) ∷ [])
  update (copy_answered written copied) s = (s, copy_effects written copied)
