-- ===== src/Gallery/Card.antt =====
-- The card of one image (`ImageCard` in GalleryPage.tsx), as a row of the list view and as a card of
-- the grid and masonry views. Whether the card is being dragged comes from @dnd-kit/sortable.
use zhici_photo_upload_platf.Media.{Image, ImageTag, strip_extension}
use zhici_photo_upload_platf.Prelude.{
  Bool, List, Node, Option, String, Text, [], ask, box, button, confirm, date, false, file_size,
  image, label, lit, map, none, not, or_else, some, take, true, txt, when, ◌++◌, ◌∷◌,
}
use zhici_photo_upload_platf.Gallery.{
  Msg, ViewMode, copy_url, delete_one, grid, list_rows, masonry, open_image, rename, toggle_select,
}

pub record CardProps : Type 0 where
  pub img : Image
  pub selected : Bool
  pub selection_mode : Bool
  pub view : ViewMode
  pub show_uploader : Bool
  pub is_mine : Bool
  pub is_dragging : Bool

abbrev pub is_masonry : ViewMode → Bool
is_masonry masonry = true
is_masonry _ = false

-- `showUploader && img.username && <span>`.
abbrev pub uploader : String → Bool → Option Text → List (Node Msg)
uploader cls shown none = []
uploader cls shown (some []) = []
uploader cls shown (some (c ∷ s)) = when shown (label cls (txt (c ∷ s) ∷ []) ∷ [])

abbrev pub tag_labels : List ImageTag → List (Node Msg)
tag_labels ts = map (λ (t : ImageTag). label "gp-tag-mini" (txt t.name ∷ [])) ts

-- The buttons of a card: copying, renaming for the owner's page, deleting.
abbrev pub actions : String → CardProps → List (Node Msg)
actions cls p =
    button cls true (lit "⎘" ∷ []) (copy_url p.img.url)
    ∷ (when p.is_mine (ask cls "输入新文件名" p.img.filename (rename p.img.id p.img.filename) ∷ [])
        ++ confirm cls (lit "确认删除？" ∷ []) (delete_one p.img.id) ∷ [])

abbrev pub state_classes : CardProps → List String
state_classes p = when p.selected ("sel" ∷ []) ++ when p.is_dragging ("dragging" ∷ [])

unfoldable pub list_row : CardProps → List (Node Msg)
list_row p =
    box ("gp-list-row" ∷ state_classes p)
    ∷ button "gp-list-row" (not p.selection_mode) [] (open_image p.img.id)
    ∷ button "gp-list-check" true [] (toggle_select p.img.id)
    ∷ image "gp-list-thumb" (or_else p.img.thumbnail_url p.img.url)
        (or_else p.img.alt_text p.img.filename)
    ∷ label "gp-list-name" (txt p.img.filename ∷ [])
    ∷ label "gp-list-meta" (file_size p.img.file_size ∷ lit "·" ∷ date p.img.created_at ∷ [])
    ∷ (uploader "gp-list-uploader" p.show_uploader p.img.username
        ++ (tag_labels (take 3 p.img.tags) ++ actions "gp-icon-btn" p))

-- The name, the size and the tags below the picture.
abbrev pub card_meta : Image → List (Node Msg)
card_meta img =
    label "gp-card-name" (txt (strip_extension img.filename) ∷ [])
    ∷ label "gp-card-size" (file_size img.file_size ∷ [])
    ∷ tag_labels (take 3 img.tags)

unfoldable pub grid_card : CardProps → List (Node Msg)
grid_card p =
    box ("gp-card" ∷ (state_classes p ++ when (is_masonry p.view) ("masonry" ∷ [])))
    ∷ button "gp-card" (not p.selection_mode) [] (open_image p.img.id)
    ∷ image "gp-card-img" (or_else p.img.thumbnail_url p.img.url)
        (or_else p.img.alt_text p.img.filename)
    ∷ button "gp-card-check" true [] (toggle_select p.img.id)
    ∷ (uploader "gp-card-uploader" p.show_uploader p.img.username
        ++ label "gp-card-date" (date p.img.created_at ∷ [])
          ∷ (actions "gp-mini-btn" p ++ card_meta p.img))

unfoldable pub card : CardProps → List (Node Msg)
unfolding list_row grid_card
card p = elim p.view [ list_rows ↦ list_row p | grid ↦ grid_card p | masonry ↦ grid_card p ]
