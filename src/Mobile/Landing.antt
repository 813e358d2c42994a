-- ===== src/Mobile/Landing.antt =====
-- mobile/src/screens/LandingScreen.tsx: the public images.
mod Tests
use zhici_photo_upload_platf.Api.{Call, list_public, list_tags}
use zhici_photo_upload_platf.Media.{Image, Tag}
use zhici_photo_upload_platf.Mobile.Card.{empty_state, image_card, tag_chip}
use zhici_photo_upload_platf.Mobile.Device.{
  Effect, Screen, gallery_detail, login_screen, navigate, register_screen,
}
use zhici_photo_upload_platf.Mobile.Feed.{
  Listing, State, end_reached, feed_params, is_refreshing, refresh,
}
use zhici_photo_upload_platf.Mobile.Gallery.{is_filter}
use zhici_photo_upload_platf.Prelude.{
  Bool, List, Node, Option, Text, [], button, flat_map, if◌then◌else◌, input, is_empty, label, lit,
  map, none, not, some, true, when, ℕ, ◌&&◌, ◌++◌, ◌∷◌,
}
use zhici_photo_upload_platf.Mobile.Feed.Pages.{listing}

pub record Env : Type 0 where
  pub is_authenticated : Bool
  pub is_loading : Bool
  pub listing : Option Listing
  pub tags : List Tag

pub data Msg : Type 0 where
  set_search : Text → Msg
  press_tag : Text → Msg
  pull_down reach_end press_login press_register : Msg
  open_image : ℕ → Msg

-- The calls of the queries.
unfoldable pub landing_queries : State → List Call
unfolding feed_params
landing_queries s = list_public (feed_params s) ∷ list_tags ∷ []

-- `onPress` of a card.
unfoldable pub opened : Env → ℕ → Screen
opened env id = if env.is_authenticated then gallery_detail id else login_screen (some id)

unfoldable pub update : Env → Msg → State → State × List Effect
update env (set_search t) s = (refresh (record s { search = t }), [])
update env (press_tag t) s =
    (refresh (record s { tag_filter = if is_filter s.tag_filter t then none else some t }), [])
update env pull_down s = (refresh s, [])
update env reach_end s = (end_reached env.is_loading env.listing s, [])
update env press_login s = (s, navigate (login_screen none) ∷ [])
update env press_register s = (s, navigate register_screen ∷ [])
update env (open_image id) s = (s, navigate (opened env id) ∷ [])

unfoldable pub view : Env → State → List (Node Msg)
unfolding image_card
view env s =
    label "logo" (lit "赤子の相册" ∷ [])
    ∷ button "btnOutline" true (lit "登录" ∷ []) press_login
    ∷ button "btnPrimary" true (lit "注册" ∷ []) press_register
    ∷ input "搜索图片..." s.search set_search
    ∷ (map (λ (t : Tag). tag_chip (is_filter s.tag_filter t.name) t.name (press_tag t.name))
          env.tags
        ++ (flat_map (λ (img : Image). image_card true none (open_image img.id) img) s.all_images
            ++ (when (is_empty s.all_images && not (is_refreshing env.is_loading s))
                  (empty_state "暂无公开图片")
                ++ button "refresh" true [] pull_down ∷ button "end" true [] reach_end ∷ [])))
