-- ===== src/Detail/View.antt =====
-- What the page of one image shows.
use zhici_photo_upload_platf.Auth.{User}
use zhici_photo_upload_platf.Detail.{
  Color, Env, Msg, State, add_tags, color_text, copy_color, copy_link, flip, open_gallery, remove,
  toggle_tag,
}
use zhici_photo_upload_platf.Media.{Image, ImageTag, Tag, or_zero, strip_extension}
use zhici_photo_upload_platf.Prelude.{
  Bool, Inline, List, Node, Option, String, Text, [], box, button, codes, confirm, date_time, false,
  file_size, find, flat_map, if◌then◌else◌, image, keep, label, length, lit, ltb, map, none, num,
  or_else, outer_link, size_number, size_unit, some, suc, tag_field, take, true, txt, upper, when,
  zero, ℕ, ◌++◌, ◌==◌, ◌∷◌,
}

-- A pair of numbers that may be missing, as `width && height && …` renders it: a zero shows as 0.
abbrev dimensions : Option ℕ → Option ℕ → List Inline
dimensions none h = []
dimensions (some zero) h = num 0 ∷ []
dimensions (some (suc w)) none = []
dimensions (some (suc w)) (some zero) = num 0 ∷ []
dimensions (some (suc w)) (some (suc h)) = num (suc w) ∷ lit " × " ∷ num (suc h) ∷ []

-- The same pair as `width && height ? … : '—'` renders it.
abbrev dimensions_or_dash : Option ℕ → Option ℕ → List Inline
dimensions_or_dash (some (suc w)) (some (suc h)) = num (suc w) ∷ lit " × " ∷ num (suc h) ∷ []
dimensions_or_dash _ _ = lit "—" ∷ []

-- `t.split('/')[1]`: what stands between the first slash and the next.
unfoldable pub until_slash : Text → Text
until_slash [] = []
until_slash (c ∷ s) = let rest = until_slash s in if c == b'/' then [] else c ∷ rest

unfoldable pub second_part : Text → Option Text
unfolding until_slash
second_part [] = none
second_part (c ∷ s) = let rest = second_part s in if c == b'/' then some (until_slash s) else rest

abbrev subtype : Option Text → List Inline
subtype none = []
subtype (some m) = elim (second_part m) [ none ↦ [] | some t ↦ upper t ∷ [] ]

abbrev type_text : Option Text → List Inline
type_text none = lit "undefined" ∷ []
type_text (some m) = txt m ∷ []

exif_row : String → List Inline → List (Node Msg)
exif_row k v = label "dp-exif-k" (lit k ∷ []) ∷ label "dp-exif-v" v ∷ []

-- `FlipCard`: the front with the picture and the back with its metadata.
unfoldable pub flip_card : Image → State → List (Node Msg)
unfolding exif_row
flip_card img s =
    box ("dp-flip-card" ∷ when s.flipped ("flipped" ∷ []))
    ∷ button "dp-flip-scene" true [] flip
    ∷ image "dp-img" img.url (or_else img.alt_text img.filename)
    ∷ label "dp-flip-hint" (lit "↻" ∷ lit " click to flip · 翻面查看元数据" ∷ [])
    ∷ label "dp-exif-title" (lit "METADATA · 元 数 据" ∷ [])
    ∷ (exif_row "Filename" (txt img.filename ∷ [])
        ++ (exif_row "Dimensions" (dimensions_or_dash img.width img.height)
            ++ (exif_row "File size" (file_size img.file_size ∷ [])
                ++ (exif_row "Type" (type_text img.mime_type)
                    ++ (exif_row "Uploaded" (date_time img.created_at ∷ [])
                        ++ (exif_row "Views" (num (or_zero img.view_count) ∷ [])
                            ++ label "dp-flip-hint-back" (lit "↺ click to flip back" ∷ [])
                              ∷ []))))))

-- `img.tags?.find(it => it.id === t.id)`.
abbrev tag_state : ℕ → List ImageTag → Option ImageTag
tag_state id ts = find (λ (t : ImageTag). t.id == id) ts

abbrev tag_active : Option ImageTag → Bool
tag_active none = false
tag_active (some t) = t.active

abbrev tag_count : Option ImageTag → ℕ
tag_count none = 0
tag_count (some t) = t.count

-- `TagButton`.
unfoldable pub tag_button : List ImageTag → Tag → List (Node Msg)
tag_button ts t =
    let state = tag_state t.id ts in
    box ("dp-tag" ∷ when (tag_active state) ("on" ∷ []))
    ∷ button "dp-tag" true
        (when (tag_active state) (lit "✓" ∷ [])
          ++ txt t.name ∷ when (ltb 0 (tag_count state)) (num (tag_count state) ∷ []))
        (toggle_tag t.id)
    ∷ []

unfoldable pub top_bar : Image → List (Node Msg)
top_bar img =
    button "dp-bc-link" true (lit "赤子の相册" ∷ []) open_gallery
    ∷ label "dp-bc-sep" (lit "／" ∷ [])
    ∷ button "dp-bc-link" true (lit "全部影像" ∷ []) open_gallery
    ∷ label "dp-bc-sep" (lit "／" ∷ [])
    ∷ label "dp-bc-cur" (txt img.filename ∷ [])
    ∷ button "dp-icon-btn" true (lit "←" ∷ []) open_gallery
    ∷ button "dp-icon-btn" true (lit "↗" ∷ []) copy_link
    ∷ confirm "dp-icon-danger" (lit "确认删除这张图片？" ∷ []) remove
    ∷ []

abbrev username_of : Option User → Option Text
username_of none = none
username_of (some u) = some u.username

-- `img.username || user?.username`.
abbrev uploader : Option Text → Option User → Option Text
uploader (some (c ∷ s)) u = some (c ∷ s)
uploader _ u = username_of u

abbrev text_of : Option Text → List Inline
text_of none = []
text_of (some t) = txt t ∷ []

unfoldable pub palette : List Color → List (Node Msg)
palette [] = []
palette (c ∷ cs) =
    label "dp-sec-header" (lit "PALETTE" ∷ lit "extracted colors" ∷ [])
    ∷ map (λ k. button "dp-swatch" true (color_text k) (copy_color k)) (c ∷ cs)

-- The panel on the right, down to the tags.
unfoldable pub info_panel : Env → Image → List (Node Msg)
unfolding second_part tag_button
info_panel env img =
    label "dp-kana" (lit "影 像 · 档 案" ∷ [])
    ∷ label "dp-filename" (txt (strip_extension img.filename) ∷ [])
    ∷ label "dp-sub-meta" (
        dimensions img.width img.height
        ++ lit "·" ∷ file_size img.file_size ∷ lit "·" ∷ subtype img.mime_type)
    ∷ label "dp-avatar" (txt (take 1 (or_else (uploader img.username env.user) (codes "?"))) ∷ [])
    ∷ label "dp-up-name" (text_of (uploader img.username env.user))
    ∷ label "dp-up-time" (date_time img.created_at ∷ [])
    ∷ label "dp-sec-header" (lit "TAGS" ∷ lit "点击切换" ∷ [])
    ∷ (flat_map (tag_button img.tags) env.tags ++ tag_field "dp-tag-input" [] [] add_tags ∷ [])

unfoldable pub statistics : Image → List (Node Msg)
statistics img =
    label "dp-stat-n" (num (or_zero img.view_count) ∷ [])
    ∷ label "dp-stat-l" (lit "VIEWS" ∷ [])
    ∷ label "dp-stat-n" (num (length (keep (λ (t : ImageTag). t.active) img.tags)) ∷ [])
    ∷ label "dp-stat-l" (lit "TAGS" ∷ [])
    ∷ label "dp-stat-n" (size_number img.file_size ∷ [])
    ∷ label "dp-stat-l" (size_unit img.file_size ∷ [])
    ∷ outer_link "dp-btn-primary" (or_else img.download_url img.url) (lit "↓ 下载原图" ∷ [])
    ∷ button "dp-btn-secondary" true (lit "复制链接" ∷ []) copy_link
    ∷ label "dp-keyboard-hint" (lit "←" ∷ lit " 返回 · " ∷ lit "Esc" ∷ lit " 图库" ∷ [])
    ∷ []

-- The page without the comments below, which are a component of their own.
unfoldable pub view_image : Env → Image → State → List (Node Msg)
unfolding flip_card
view_image env img s =
    top_bar img ++ (flip_card img s ++ (info_panel env img ++ (palette s.colors ++ statistics img)))

abbrev view_loaded : Env → Option Image → State → List (Node Msg)
view_loaded env none s = []
view_loaded env (some img) s = view_image env img s

unfoldable pub view_page : Env → State → List (Node Msg)
view_page env s =
    if env.is_loading then label "dp-loading" (lit "○" ∷ []) ∷ [] else view_loaded env env.img s
