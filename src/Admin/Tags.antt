-- ===== src/Admin/Tags.antt =====
-- frontend/src/pages/admin/TagManagePage.tsx: making tags and deleting them.
pub mod Naming
use zhici_photo_upload_platf.Api.{create_tag, delete_tag}
use zhici_photo_upload_platf.Gallery.{name}
use zhici_photo_upload_platf.Media.{
  Effect, Tag, call, error, error_text, invalidate, or_zero, success, warning,
}
use zhici_photo_upload_platf.Prelude.{
  Bool, Inline, List, Node, Option, Text, [], box, button, codes, confirm, false, flat_map, gauge,
  if◌then◌else◌, input, is_empty, label, length, limited, lit, ltb, none, not, num, or_else, some,
  text_eq, trim, true, truthy, txt, when, ℕ, ◌&&◌, ◌++◌, ◌||◌, ◌∷◌,
}
use zhici_photo_upload_platf.Upload.{pending}

abbrev pub preset_colors : List Text
preset_colors =
    codes "#c8a96e"
    ∷ codes "#9aaba0"
    ∷ codes "#b8b0c0"
    ∷ codes "#7a9b58"
    ∷ codes "#4a5b75"
    ∷ codes "#a83a30"
    ∷ codes "#c9b8a8"
    ∷ codes "#2c2a27"
    ∷ []

-- The page's own state, and whether the call that makes a tag is pending.
pub record State : Type 0 where
  pub new_name : Text
  pub new_color : Text
  pub custom_color : Text
  pub pending : Bool

pub data Msg : Type 0 where
  set_name pick_color set_custom : Text → Msg
  create : Msg
  remove : ℕ → Msg
  -- the answers: whether it went well, and the message of an error's response
  created removed : Bool → Option Text → Msg

unfoldable pub initial : State
initial = record { new_name = []; new_color = codes "#c8a96e"; custom_color = []; pending = false }

-- `customColor || newColor`.
abbrev pub active_color : State → Text
active_color s = or_else (some s.custom_color) s.new_color

-- `handleCreate`, with the trimmed name.
create_named : Text → State → State × List Effect
create_named [] s = (s, warning (lit "请输入标签名称" ∷ []) ∷ [])
create_named (c ∷ trimmed) s =
    (record s { pending = true }, call (create_tag (c ∷ trimmed) (active_color s)) ∷ [])

abbrev stale : List Inline → List Effect
stale told = invalidate "tags-manage" none ∷ invalidate "tags" none ∷ success told ∷ []

abbrev create_answer : Bool → Option Text → State → State × List Effect
create_answer true message s =
    (record s { new_name = []; custom_color = []; pending = false }, stale (lit "标签已创建" ∷ []))
create_answer false message s =
    (record s { pending = false }, error (error_text message "创建失败") ∷ [])

abbrev remove_answer : Bool → Option Text → List Effect
remove_answer true message = stale (lit "已删除" ∷ [])
remove_answer false message = error (error_text message "删除失败") ∷ []

unfoldable pub update : Msg → State → State × List Effect
unfolding create_named
update (set_name t) s = (record s { new_name = t }, [])
update (pick_color t) s = (record s { new_color = t; custom_color = [] }, [])
update (set_custom t) s = (record s { custom_color = t }, [])
update create s = create_named (trim s.new_name) s
update (remove id) s = (s, call (delete_tag id) ∷ [])
update (created ok message) s = create_answer ok message s
update (removed ok message) s = (s, remove_answer ok message)

unfoldable pub color_dot : State → Text → List (Node Msg)
color_dot s c =
    box ("tm-color-dot" ∷ when (text_eq s.new_color c && not (truthy s.custom_color)) ("on" ∷ []))
    ∷ button "tm-color-dot" true (txt c ∷ []) (pick_color c)
    ∷ []

unfoldable pub create_form : State → List (Node Msg)
unfolding color_dot
create_form s =
    label "tm-create-title" (lit "创建新标签" ∷ [])
    ∷ label "tm-label" (lit "标签名称" ∷ [])
    ∷ limited "tm-input" 32 s.new_name set_name
    ∷ label "tm-label" (lit "标签颜色" ∷ [])
    ∷ (flat_map (color_dot s) preset_colors
        ++ input "tm-color-picker" (active_color s) set_custom
          ∷ label "tm-preview-chip" (txt (or_else (some s.new_name) (codes "预览标签")) ∷ [])
          ∷ label "tm-preview-color" (txt (active_color s) ∷ [])
          ∷ button "tm-submit" (not (s.pending || not (truthy (trim s.new_name))))
              (lit (if s.pending then "创建中…" else "+ 创建标签") ∷ []) create
          ∷ [])

-- `Math.max(...counts, 1)`.
pub max_count : List Tag → ℕ
max_count [] = 1
max_count (t ∷ ts) =
    let rest = max_count ts in if ltb rest (or_zero t.count) then or_zero t.count else rest

abbrev text_of : Option Text → List Inline
text_of none = []
text_of (some t) = txt t ∷ []

-- The bar is as long as the tag's part of the largest count, and never longer than full.
unfoldable pub tag_row : ℕ → Tag → List (Node Msg)
tag_row most t =
    label "tm-row-color" (txt (or_else t.color (codes "#c8a96e")) ∷ [])
    ∷ label "tm-row-name" (txt t.name ∷ [])
    ∷ label "tm-row-color-val" (text_of t.color)
    ∷ label "tm-count-n" (num (or_zero t.count) ∷ [])
    ∷ label "tm-count-l" (lit "次使用" ∷ [])
    ∷ gauge "tm-row-bar" (if ltb most (or_zero t.count) then most else or_zero t.count) most
    ∷ confirm "tm-delete" (lit "确认删除「" ∷ txt t.name ∷ lit "」？相关标记也会删除。" ∷ []) (remove t.id)
    ∷ []

unfoldable pub tag_list : Bool → List Tag → List (Node Msg)
unfolding max_count tag_row
tag_list is_loading tags =
    if is_loading
    then label "tm-loading" (lit "加载中…" ∷ []) ∷ []
    else flat_map (tag_row (max_count tags)) tags
      ++ when (is_empty tags) (label "tm-empty" (lit "空" ∷ lit "暂无标签，从左侧创建第一个" ∷ []) ∷ [])

unfoldable pub view_page : Bool → List Tag → State → List (Node Msg)
view_page is_loading tags s =
    label "tm-kana" (lit "T A G S · M A N A G E" ∷ [])
    ∷ label "tm-title" (lit "标签管理 " ∷ lit "· admin only" ∷ [])
    ∷ label "tm-meta" (num (length tags) ∷ lit "个标签" ∷ [])
    ∷ (create_form s
        ++ label "tm-list-head" (lit "所有标签" ∷ lit "使用次数从高到低排列" ∷ []) ∷ tag_list is_loading tags)
