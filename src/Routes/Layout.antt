-- ===== src/Routes/Layout.antt =====
-- frontend/src/components/layout/AppLayout.tsx: the frame of the administration's pages.
use zhici_photo_upload_platf.Auth.{AuthState, User}
use zhici_photo_upload_platf.Media.{Effect, end_session, navigate, page_at, page_with}
use zhici_photo_upload_platf.Prelude.{
  Bool, Inline, List, Node, Option, String, [], box, button, flat_map, if◌then◌else◌, label, lit,
  none, not, some, str_eq, true, txt, when, ◌&&◌, ◌++◌, ◌∷◌,
}

-- An address that the menu goes to: its path, and its query with the question mark.
pub record Target : Type 0 where
  pub path : String
  pub query : String

pub data Msg : Type 0 where
  -- the menu's items, the button that folds it, and the user's menu
  go : Target → Msg
  fold go_profile log_out : Msg

pub record State : Type 0 where
  pub collapsed : Bool

abbrev target : String → Target
target p = record { path = p; query = "" }

-- An item of the menu with its caption; the group of the administration stands flat.
unfoldable pub menu_items : Bool → List (Target × String)
menu_items is_admin =
    (target "/gallery", "图片库")
    ∷ (record { path = "/gallery"; query = "?mine=1" }, "我的上传")
    ∷ (target "/upload", "上传")
    ∷ when is_admin (
        (target "/admin", "仪表盘")
        ∷ (target "/admin/users", "用户管理")
        ∷ (target "/admin/images", "图片管理")
        ∷ (target "/admin/tags", "标签管理")
        ∷ [])

unfoldable pub update : Msg → State → State × List Effect
update (go t) s = (s, navigate (page_with t.path t.query) ∷ [])
update fold s = (record { collapsed = not s.collapsed }, [])
update go_profile s = (s, navigate (page_at "/profile") ∷ [])
update log_out s = (s, end_session ∷ navigate (page_at "/login") ∷ [])

abbrev same_target : Target → Target → Bool
same_target a b = str_eq a.path b.path && str_eq a.query b.query

-- An item, marked when it is the current address.
unfoldable pub menu_node : Target → Target × String → List (Node Msg)
menu_node current (t, caption) =
    box ("menu-item" ∷ when (same_target current t) ("selected" ∷ []))
    ∷ button "menu-item" true (lit caption ∷ []) (go t)
    ∷ []

abbrev username_of : Option User → List Inline
username_of none = []
username_of (some u) = txt u.username ∷ []

-- The frame without the page in it.
unfoldable pub view_frame : AuthState → Target → State → List (Node Msg)
unfolding menu_items menu_node
view_frame auth current s =
    label "logo" (lit (if s.collapsed then "🖼" else "赤子の相册") ∷ [])
    ∷ (flat_map (menu_node current) (menu_items auth.is_admin)
        ++ button "fold" true [] fold
          ∷ label "user" (username_of auth.user)
          ∷ button "user-menu" true (lit "个人中心" ∷ []) go_profile
          ∷ button "user-menu" true (lit "退出登录" ∷ []) log_out
          ∷ [])
