-- ===== src/Landing.antt =====
-- frontend/src/pages/LandingPage.tsx, without where the images float in space, and NotFoundPage.tsx.
pub mod Visitors
mod Tests
use zhici_photo_upload_platf.Api.{Call, list_public, list_tags}
use zhici_photo_upload_platf.Media.{
  Effect, Image, navigate, Tag, image_page, page_at, strip_extension,
}
use zhici_photo_upload_platf.Prelude.{
  Bool, List, Node, Option, Text, [], button, codes, false, flat_map, if◌then◌else◌, image,
  is_empty, label, lit, ltb, map, none, not, num, or_else, outer_link, some, take, text_eq, true,
  txt, when, ℕ, ◌&&◌, ◌++◌, ◌∷◌,
}
use zhici_photo_upload_platf.Gallery.{name}

pub data ViewMode : Type 0 where
  three_d grid : ViewMode

pub record State : Type 0 where
  pub view : ViewMode
  pub tag_filter : Option Text

pub record Env : Type 0 where
  pub is_authenticated : Bool
  pub is_loading : Bool
  pub images : List Image
  pub total : ℕ
  pub tags : List Tag

pub data Msg : Type 0 where
  pick : ℕ → Msg
  open_gallery open_login open_register : Msg
  set_view : ViewMode → Msg
  toggle_tag : Text → Msg

unfoldable pub initial : State
initial = record { view = three_d; tag_filter = none }

-- The calls that the page makes when it is shown.
unfoldable pub landing_queries : State → List Call
landing_queries s =
    list_public (record { page = 1; limit = 40; tag = s.tag_filter; search = none; sort = none })
    ∷ list_tags
    ∷ []

-- `tagFilter === name`
unfoldable pub is_filter : Option Text → Text → Bool
is_filter none t = false
is_filter (some u) t = text_eq u t

-- `handlePick`
unfoldable pub handle_pick : Env → ℕ → List Effect
handle_pick env id =
    navigate (if env.is_authenticated then image_page id else page_at "/login") ∷ []

unfoldable pub update : Env → Msg → State → State × List Effect
update env (pick id) s = (s, handle_pick env id)
update env open_gallery s = (s, navigate (page_at "/gallery") ∷ [])
update env open_login s = (s, navigate (page_at "/login") ∷ [])
update env open_register s = (s, navigate (page_at "/register") ∷ [])
update env (set_view v) s = (record s { view = v }, [])
update env (toggle_tag t) s =
    (record s { tag_filter = if is_filter s.tag_filter t then none else some t }, [])

abbrev nav_actions : Env → List (Node Msg)
nav_actions env =
    if env.is_authenticated
    then button "lp-btn-solid" true (lit "进入图库" ∷ []) open_gallery ∷ []
    else button "lp-btn-ghost" true (lit "登录" ∷ []) open_login
      ∷ button "lp-btn-solid" true (lit "注册" ∷ []) open_register
      ∷ []

-- `FloatingImage`: a plane with the image as its texture, which can be clicked.
abbrev floating_image : Image → List (Node Msg)
floating_image img =
    image "mesh" (or_else img.thumbnail_url img.url) [] ∷ button "mesh" true [] (pick img.id) ∷ []

-- A card of `GridView`.
abbrev grid_card : Image → List (Node Msg)
grid_card img =
    button "lp-grid-card" true [] (pick img.id)
    ∷ image "" (or_else img.thumbnail_url img.url) img.filename
    ∷ label "lp-grid-name" (txt (strip_extension img.filename) ∷ [])
    ∷ []

unfoldable pub stage : Env → ViewMode → List (Node Msg)
stage env three_d =
    when (not env.is_loading && not (is_empty env.images)) (flat_map floating_image env.images)
stage env grid = flat_map grid_card env.images

abbrev view_buttons : ViewMode → List (Node Msg)
view_buttons three_d =
    button "lp-view-btn on" true (lit "◐ 3D" ∷ []) (set_view three_d)
    ∷ button "lp-view-btn " true (lit "◫ grid" ∷ []) (set_view grid)
    ∷ []
view_buttons grid =
    button "lp-view-btn " true (lit "◐ 3D" ∷ []) (set_view three_d)
    ∷ button "lp-view-btn on" true (lit "◫ grid" ∷ []) (set_view grid)
    ∷ []

abbrev tag_button : Option Text → Tag → Node Msg
tag_button filter t =
    button (if is_filter filter t.name then "lp-tag on" else "lp-tag ") true (txt t.name ∷ [])
      (toggle_tag t.name)

abbrev hint : ViewMode → List (Node Msg)
hint three_d = label "lp-hint" (lit "↻ drag to rotate · scroll to zoom" ∷ []) ∷ []
hint grid = []

unfoldable pub view_page : Env → State → List (Node Msg)
view_page env s =
    outer_link "lp-logo" (codes "/") (lit "赤子の相册" ∷ [])
    ∷ label "lp-logo-sub" (lit "chizi album" ∷ [])
    ∷ (nav_actions env
        ++ (label "lp-kana" (lit "赤 子 剧 社 · 影 像 存 档" ∷ [])
            ∷ label "lp-title" (lit "每一帧，都是赤诚的留白。" ∷ [])
            ∷ label "lp-desc" (lit "悬浮的影像里，藏着排练的汗、谢幕的灯，和那些没说出口的话。" ∷ [])
            ∷ label "lp-count" (if ltb 0 env.total then num env.total ∷ [] else lit "—" ∷ [])
            ∷ label "lp-count-label" (lit "张影像 · 公开存档" ∷ [])
            ∷ (stage env s.view
                ++ (view_buttons s.view
                    ++ (map (tag_button s.tag_filter) (take 6 env.tags) ++ hint s.view)))))

-- NotFoundPage: its only message leads to the landing page.
pub data NotFoundMsg : Type 0 where
  go_home : NotFoundMsg

unfoldable pub not_found_effect : NotFoundMsg → List Effect
not_found_effect go_home = navigate (page_at "/") ∷ []

unfoldable pub not_found_view : List (Node NotFoundMsg)
not_found_view =
    label "404" (lit "404" ∷ [])
    ∷ label "404" (lit "页面不存在" ∷ [])
    ∷ button "primary" true (lit "返回首页" ∷ []) go_home
    ∷ []
