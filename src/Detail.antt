-- ===== src/Detail.antt =====
-- frontend/src/pages/gallery/ImageDetailPage.tsx: one image with its metadata, tags and colors. How
-- far the card tilts under the mouse, and the ripple of a tag, are not modelled.
pub mod View
pub mod Colors
pub mod Keys
mod Tests
use zhici_photo_upload_platf.Api.{Call, delete_image, get_image}
use zhici_photo_upload_platf.Auth.{User, user}
use zhici_photo_upload_platf.Media.{
  Effect, Image, Tag, back, call, copy_inline, copy_text, invalidate, navigate, page_at, success,
}
use zhici_photo_upload_platf.Prelude.{
  Bool, Inline, List, Option, String, Text, [], false, get_elem?, length, lit, none, not, num, some,
  str_eq, suc, truthy, when, zero, ℕ, ◌*◌, ◌++◌, ◌+◌, ◌/◌, ◌∷◌,
}

-- A color that is read from the canvas; a component beyond its end is `undefined`.
pub record Color : Type 0 where
  pub red : Option ℕ
  pub green : Option ℕ
  pub blue : Option ℕ

unfoldable pub color_at : List ℕ → ℕ → Color
color_at pixels i = record {
  red = get_elem? pixels i;
  green = get_elem? pixels (i + 1);
  blue = get_elem? pixels (i + 2);
}

-- The rounds of the loop that are left, and the number of this one.
unfoldable pub colors_from : List ℕ → ℕ → ℕ → ℕ → List Color
unfolding color_at
colors_from pixels step zero i = []
colors_from pixels step (suc left) i =
    color_at pixels (i * step * 4) ∷ colors_from pixels step left (i + 1)

-- `extractColors`; without a context, and when reading the canvas fails, there are no colors.
unfoldable pub extract_colors : Option (List ℕ) → ℕ → List Color
unfolding colors_from
extract_colors none count = []
extract_colors (some pixels) count = colors_from pixels (length pixels / 4 / count) count 0

-- The page's state, and that of the card in it.
pub record State : Type 0 where
  pub colors : List Color
  pub flipped : Bool

pub record Env : Type 0 where
  -- the number of the address
  pub id : ℕ
  pub user : Option User
  pub is_loading : Bool
  pub img : Option Image
  pub tags : List Tag

pub data Msg : Type 0 where
  flip copy_link remove open_gallery : Msg
  copy_color : Color → Msg
  toggle_tag : ℕ → Msg
  add_tags : List Text → Msg
  -- a key that is pressed anywhere on the page
  key_down : String → Msg
  -- the picture is there, with what can be read of its canvas
  img_loaded : Option (List ℕ) → Msg
  -- the answers: whether it went well
  toggled added removed : Bool → Msg

unfoldable pub initial : State
initial = record { colors = []; flipped = false }

unfoldable pub image_query : Env → Call
image_query env = get_image env.id

abbrev with_colors : List Color → State → State
with_colors [] s = s
with_colors (c ∷ cs) s = record s { colors = c ∷ cs }

-- `handleCopy`.
abbrev copy_effects : Option Image → List Effect
copy_effects none = []
copy_effects (some i) = when (truthy i.url) (copy_text i.url ∷ success (lit "链接已复制" ∷ []) ∷ [])

abbrev component : Option ℕ → List Inline
component none = lit "undefined" ∷ []
component (some n) = num n ∷ []

-- `rgb(r,g,b)`.
abbrev pub color_text : Color → List Inline
color_text c =
    lit "rgb("
    ∷ (component c.red
        ++ lit "," ∷ (component c.green ++ lit "," ∷ (component c.blue ++ lit ")" ∷ [])))

-- `handleKeyDown`.
unfoldable pub key_effects : String → List Effect
key_effects k =
    when (str_eq k "ArrowLeft") (navigate back ∷ [])
    ++ when (str_eq k "Escape") (navigate (page_at "/gallery") ∷ [])

abbrev add_effects : ℕ → List Text → List Effect
add_effects id [] = []
add_effects id (t ∷ ts) = call (Call.add_tags id (t ∷ ts)) ∷ []

unfoldable pub update : Env → Msg → State → State × List Effect
unfolding key_effects extract_colors
update env flip s = (record s { flipped = not s.flipped }, [])
update env copy_link s = (s, copy_effects env.img)
update env remove s = (s, call (delete_image env.id) ∷ [])
update env open_gallery s = (s, navigate (page_at "/gallery") ∷ [])
update env (copy_color c) s =
    (s, copy_inline (color_text c) ∷ success (lit "已复制 " ∷ color_text c) ∷ [])
update env (toggle_tag t) s = (s, call (Call.toggle_tag env.id t) ∷ [])
update env (add_tags ts) s = (s, add_effects env.id ts)
update env (key_down k) s = (s, key_effects k)
update env (img_loaded pixels) s = (with_colors (extract_colors pixels 5) s, [])
update env (toggled ok) s = (s, when ok (invalidate "image" (some env.id) ∷ []))
update env (added ok) s = (
  s,
  when ok
      (invalidate "image" (some env.id) ∷ invalidate "tags" none ∷ success (lit "标签已添加" ∷ []) ∷ []),
)
update env (removed ok) s =
    (s, when ok (success (lit "已删除" ∷ []) ∷ navigate (page_at "/gallery") ∷ []))
