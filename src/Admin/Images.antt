-- ===== src/Admin/Images.antt =====
-- frontend/src/pages/admin/ImageManagementPage.tsx: all images, of every user.
use zhici_photo_upload_platf.Api.{Call, delete_any_image, list_all_images}
use zhici_photo_upload_platf.Gallery.{images}
use zhici_photo_upload_platf.Media.{Effect, Image, call, invalidate, success}
use zhici_photo_upload_platf.Prelude.{
  Bool, Inline, List, Node, Option, Text, [], confirm, date, false, file_size, flat_map, image,
  input, label, lit, none, num, pagination, some, true, txt, ℕ, ◌++◌, ◌∷◌,
}

pub record State : Type 0 where
  pub page : ℕ
  pub search : Text

pub data Msg : Type 0 where
  set_search : Text → Msg
  set_page : ℕ → Msg
  remove : ℕ → Msg
  removed : Bool → Msg

unfoldable pub initial : State
initial = record { page = 1; search = [] }

unfoldable pub images_query : State → Call
images_query s = list_all_images (some s.page) 20 (some s.search)

abbrev removed_effects : Bool → List Effect
removed_effects true = invalidate "admin-images" none ∷ success (lit "已删除" ∷ []) ∷ []
removed_effects false = []

unfoldable pub update : Msg → State → State × List Effect
update (set_search t) s = (record { page = 1; search = t }, [])
update (set_page p) s = (record s { page = p }, [])
update (remove id) s = (s, call (delete_any_image id) ∷ [])
update (removed ok) s = (s, removed_effects ok)

abbrev thumbnail : Option Text → Node Msg
thumbnail none = label "thumb" (lit "-" ∷ [])
thumbnail (some []) = label "thumb" (lit "-" ∷ [])
thumbnail (some (c ∷ s)) = image "thumb" (c ∷ s) []

abbrev text_of : Option Text → List Inline
text_of none = []
text_of (some t) = txt t ∷ []

unfoldable pub image_row : Image → List (Node Msg)
image_row i =
    label "id" (num i.id ∷ [])
    ∷ thumbnail i.thumbnail_url
    ∷ label "filename" (txt i.filename ∷ [])
    ∷ label "username" (text_of i.username)
    ∷ label "size" (file_size i.file_size ∷ [])
    ∷ label "mime" (text_of i.mime_type)
    ∷ label "created" (date i.created_at ∷ [])
    ∷ confirm "确认删除？" (lit "删除" ∷ []) (remove i.id)
    ∷ []

unfoldable pub view_page : List Image → ℕ → State → List (Node Msg)
unfolding image_row
view_page images total s =
    label "" (lit "图片管理" ∷ [])
    ∷ input "搜索文件名..." s.search set_search
    ∷ (flat_map image_row images ++ pagination s.page total 20 set_page ∷ [])
