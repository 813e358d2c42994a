-- ===== src/Mobile/Gallery.antt =====
-- mobile/src/screens/GalleryScreen.tsx, as the screen of all images and as that of the user's own.
pub mod Laws
mod Tests
use zhici_photo_upload_platf.Api.{Call, delete_image, list, list_public, list_tags, update_image}
use zhici_photo_upload_platf.Media.{Image, Tag}
use zhici_photo_upload_platf.Mobile.Card.{empty_state, image_card, tag_chip}
use zhici_photo_upload_platf.Mobile.Device.{Effect, call, image_detail, invalidate, navigate}
use zhici_photo_upload_platf.Mobile.Feed.{
  Listing, State, end_reached, feed_params, is_refreshing, refresh,
}
use zhici_photo_upload_platf.Prelude.{
  Bool, List, Node, Option, String, Text, [], ask, button, confirm, false, flat_map, if◌then◌else◌,
  input, is_empty, lit, map, none, not, some, text_eq, trim, true, when, ℕ, ◌&&◌, ◌++◌, ◌+◌, ◌∷◌,
}
use zhici_photo_upload_platf.Mobile.Feed.Pages.{listing}

-- What the screen reads: whether it is `MyUploads`, the query of the list and the tags.
pub record Env : Type 0 where
  pub mine : Bool
  pub is_loading : Bool
  pub listing : Option Listing
  pub tags : List Tag

pub data Msg : Type 0 where
  set_search : Text → Msg
  press_tag : Text → Msg
  pull_down reach_end : Msg
  open_image : ℕ → Msg
  -- after the confirmation
  delete_one : ℕ → Msg
  -- the answer to the prompt, where the system has one
  rename : ℕ → Option Text → Msg
  -- the answers: whether it went well
  deleted renamed : Bool → Msg

-- The calls of the queries.
unfoldable pub gallery_queries : Env → State → List Call
unfolding feed_params
gallery_queries env s =
    (if env.mine then list (feed_params s) else list_public (feed_params s)) ∷ list_tags ∷ []

-- `resetList`
unfoldable pub reset_list : State → State
reset_list s = record s { all_images = []; page = 1; refresh_key = s.refresh_key + 1 }

-- `tagFilter === name`
abbrev pub is_filter : Option Text → Text → Bool
is_filter none t = false
is_filter (some f) t = text_eq f t

abbrev list_key : Env → String
list_key env = if env.mine then "my-images" else "all-images"

abbrev trimmed_name : ℕ → Text → List Effect
trimmed_name id [] = []
trimmed_name id (c ∷ t) = call (update_image id (some (c ∷ t)) none none) ∷ []

abbrev rename_effects : ℕ → Option Text → List Effect
rename_effects id none = []
rename_effects id (some t) = trimmed_name id (trim t)

unfoldable pub update : Env → Msg → State → State × List Effect
unfolding reset_list
update env (set_search t) s = (reset_list (record s { search = t }), [])
update env (press_tag t) s =
    (reset_list (record s { tag_filter = if is_filter s.tag_filter t then none else some t }), [])
update env pull_down s = (refresh s, [])
update env reach_end s = (end_reached env.is_loading env.listing s, [])
update env (open_image id) s = (s, navigate (image_detail id) ∷ [])
update env (delete_one id) s = (s, call (delete_image id) ∷ [])
update env (rename id o) s = (s, rename_effects id o)
update env (deleted ok) s = (s, if ok then invalidate (list_key env) none ∷ [] else [])
update env (renamed ok) s = (s, if ok then invalidate (list_key env) none ∷ [] else [])

-- The buttons of a card, with `showActions`.
abbrev pub own_actions : Bool → Image → Option (Node Msg × Node Msg)
own_actions false img = none
own_actions true img = some (
  ask "重命名" "输入新文件名" img.filename (rename img.id),
  confirm "✕" (lit "确认删除" ∷ lit "删除后不可恢复" ∷ []) (delete_one img.id),
)

abbrev pub card : Env → Image → List (Node Msg)
card env img = image_card (not env.mine) (own_actions env.mine img) (open_image img.id) img

unfoldable pub view : Env → State → List (Node Msg)
unfolding image_card
view env s =
    input "搜索..." s.search set_search
    ∷ (map (λ (t : Tag). tag_chip (is_filter s.tag_filter t.name) t.name (press_tag t.name))
          env.tags
        ++ (flat_map (card env) s.all_images
            ++ (when (is_empty s.all_images && not (is_refreshing env.is_loading s))
                  (empty_state (if env.mine then "你还没有上传图片" else "暂无图片"))
                ++ button "refresh" true [] pull_down ∷ button "end" true [] reach_end ∷ [])))
