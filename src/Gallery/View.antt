-- ===== src/Gallery/View.antt =====
-- What GalleryPage renders, from the side bar to the pager. Which card is being dragged comes from
-- @dnd-kit/sortable.
use zhici_photo_upload_platf.Auth.{Role, User, admin, user}
use zhici_photo_upload_platf.Media.{Image, Tag, or_zero}
use zhici_photo_upload_platf.Prelude.{
  Bool, Inline, List, Node, Option, String, Text, [], box, button, confirm, elem, false, flat_map,
  if◌then◌else◌, input, label, leb, length, lit, ltb, none, not, num, some, suc, take, text_eq,
  true, txt, when, zero, ℕ, ◌*◌, ◌++◌, ◌+◌, ◌/◌, ◌==◌, ◌∷◌,
}
use zhici_photo_upload_platf.Gallery.{
  Env, Msg, State, ViewMode, batch_delete_selected, clear_selection, grid, images, list_rows,
  masonry, name, newest, next_page, oldest, open_profile, open_upload, pick_tag, previous_page,
  set_search, set_sort, set_view, show_all, show_mine,
}
use zhici_photo_upload_platf.Gallery.Card.{CardProps, card}

-- `Math.ceil(total / 24)`.
unfoldable pub page_count : ℕ → ℕ
page_count total = (total + 23) / 24

abbrev pub on_if : Bool → String → List (Node Msg)
on_if b cls = box (cls ∷ when b ("on" ∷ [])) ∷ []

abbrev pub count_text : Bool → ℕ → List Inline
count_text shown total = if shown then num total ∷ [] else lit "—" ∷ []

abbrev pub filter_is : Text → Option Text → Bool
filter_is t none = false
filter_is t (some u) = text_eq u t

unfoldable pub tag_item : Option Text → Tag → List (Node Msg)
tag_item chosen t =
    on_if (filter_is t.name chosen) "gp-sb-item"
    ++ button "gp-sb-item" true (lit "· " ∷ txt t.name ∷ num (or_zero t.count) ∷ [])
        (pick_tag t.name)
      ∷ []

abbrev pub role_text : Role → String
role_text user = "user"
role_text admin = "admin"

unfoldable pub user_item : Option User → List (Node Msg)
user_item none = []
user_item (some u) =
    button "gp-sb-user" true
      (txt (take 1 u.username) ∷ txt u.username ∷ lit (role_text u.role) ∷ []) open_profile
    ∷ []

unfoldable pub sidebar : Env → State → List (Node Msg)
unfolding tag_item user_item
sidebar env s =
    label "gp-sb-logo" (lit "赤子の相册" ∷ [])
    ∷ (on_if (not env.mine) "gp-sb-item"
        ++ button "gp-sb-item" true (lit "全部影像" ∷ count_text (not env.mine) env.total) show_all
          ∷ (on_if env.mine "gp-sb-item"
              ++ button "gp-sb-item" true (lit "我的上传" ∷ count_text env.mine env.total) show_mine
                ∷ (flat_map (tag_item s.tag_filter) (take 8 env.tags) ++ user_item env.user)))

abbrev pub is_view : ViewMode → ViewMode → Bool
is_view grid grid = true
is_view masonry masonry = true
is_view list_rows list_rows = true
is_view _ _ = false

abbrev pub title_filter : Option Text → List Inline
title_filter none = []
title_filter (some []) = []
title_filter (some (c ∷ t)) = lit "· #" ∷ txt (c ∷ t) ∷ []

abbrev pub view_button : ViewMode → ViewMode → String → List (Node Msg)
view_button current v caption =
    on_if (is_view current v) "gp-view-btn"
    ++ button "gp-view-btn" true (lit caption ∷ []) (set_view v) ∷ []

abbrev pub view_index : ViewMode → ℕ
view_index grid = 0
view_index masonry = 1
view_index list_rows = 2

unfoldable pub toolbar : Env → State → List (Node Msg)
toolbar env s =
    label "gp-bc" (lit (if env.mine then "my uploads" else "full archive") ∷ [])
    ∷ label "gp-title" (lit (if env.mine then "我的上传" else "全部影像") ∷ title_filter s.tag_filter)
    ∷ input "gp-search" s.search set_search
    ∷ label "gp-view-pill" (num (view_index s.view * 56) ∷ [])
    ∷ (view_button s.view grid "◫ grid"
        ++ (view_button s.view masonry "⊞ wall"
            ++ (view_button s.view list_rows "≡ list"
                ++ button "gp-sort" true (lit "newest ↓" ∷ []) (set_sort newest)
                  ∷ button "gp-sort" true (lit "oldest ↑" ∷ []) (set_sort oldest)
                  ∷ button "gp-sort" true (lit "name a-z" ∷ []) (set_sort name)
                  ∷ button "gp-upload-btn" true (lit "+ 上传" ∷ []) open_upload
                  ∷ [])))

unfoldable pub selection_bar : State → List (Node Msg)
selection_bar s = when s.selection_mode (
    label "gp-sel-count" (num (length s.selected) ∷ lit " selected" ∷ [])
    ∷ confirm "gp-sel-actions" (lit "删除选中的 " ∷ num (length s.selected) ∷ lit " 张？" ∷ [])
        batch_delete_selected
    ∷ button "gp-sel-close" true (lit "✕" ∷ []) clear_selection
    ∷ [])

-- `SkeletonGrid`: placeholders only.
unfoldable pub skeleton_count : ViewMode → ℕ
skeleton_count list_rows = 6
skeleton_count grid = 12
skeleton_count masonry = 12

unfoldable pub skeleton : ViewMode → ℕ → List (Node Msg)
skeleton v zero = []
skeleton v (suc n) =
    box ((if is_view v list_rows then "gp-list-skel" else "gp-card-skel") ∷ []) ∷ skeleton v n

unfoldable pub card_props : Env → State → (ℕ → Bool) → Image → CardProps
card_props env s is_dragging i = record {
  img = i;
  selected = elem i.id s.selected;
  selection_mode = s.selection_mode;
  view = s.view;
  show_uploader = not env.mine;
  is_mine = env.mine;
  is_dragging = is_dragging i.id;
}

-- The droppable ids of the cards; dropping one on another sends `drag_end`.
unfoldable pub cards : Env → State → (ℕ → Bool) → List Image → List (Node Msg)
unfolding card_props card
cards env s is_dragging [] =
    label "gp-empty" (lit "暂无影像" ∷ [])
    ∷ button "gp-empty-btn" true (lit "+ 上传第一张" ∷ []) open_upload
    ∷ []
cards env s is_dragging (i ∷ is) = flat_map (λ j. card (card_props env s is_dragging j)) (i ∷ is)

unfoldable pub content : Env → State → (ℕ → Bool) → List (Node Msg)
unfolding skeleton skeleton_count cards images
content env s is_dragging =
    if env.is_loading
    then skeleton s.view (skeleton_count s.view)
    else cards env s is_dragging (images s env.raw_images)

unfoldable pub pager : Env → State → List (Node Msg)
unfolding page_count
pager env s = when (ltb 24 env.total) (
    button "gp-page-btn" (not (s.page == 1)) (lit "‹" ∷ []) previous_page
    ∷ label "gp-page-info" (num s.page ∷ lit " / " ∷ num (page_count env.total) ∷ [])
    ∷ button "gp-page-btn" (not (leb (page_count env.total) s.page)) (lit "›" ∷ []) next_page
    ∷ label "gp-page-total" (lit "共 " ∷ num env.total ∷ lit " 张" ∷ [])
    ∷ [])

unfoldable pub view_page : Env → State → (ℕ → Bool) → List (Node Msg)
unfolding sidebar toolbar selection_bar content pager
view_page env s is_dragging =
    sidebar env s
    ++ (toolbar env s ++ (selection_bar s ++ (content env s is_dragging ++ pager env s)))
