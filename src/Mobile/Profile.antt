-- ===== src/Mobile/Profile.antt =====
-- mobile/src/screens/ProfileScreen.tsx.
mod Tests
use zhici_photo_upload_platf.Api.{Call, list, logout}
use zhici_photo_upload_platf.Auth.{User, is_admin_user, user}
use zhici_photo_upload_platf.Comments.View.{initial_of, username_of}
use zhici_photo_upload_platf.Media.{Image}
use zhici_photo_upload_platf.Mobile.Device.{
  Effect, call, clear_auth, gallery_detail, landing_screen, navigate,
}
use zhici_photo_upload_platf.Prelude.{
  Inline, List, Node, Option, Text, [], button, date, file_size, flat_map, if◌then◌else◌, label,
  length, lit, none, num, some, take, true, txt, upper, ℕ, ◌++◌, ◌+◌, ◌∷◌,
}

-- The screen keeps nothing. It reads the store and the first hundred of the user's images.
pub record Env : Type 0 where
  pub user : Option User
  pub refresh_token : Option Text
  pub images : List Image

pub data Msg : Type 0 where
  open_image : ℕ → Msg
  press_logout : Msg
  -- the answer to the call of `logout`, good or bad
  logged_out : Msg

abbrev pub profile_query : Call
profile_query = list (record { page = 1; limit = 100; tag = none; search = none; sort = none })

abbrev pub total_size : List Image → ℕ
total_size [] = 0
total_size (i ∷ is) = i.file_size + total_size is

-- The end of `handleLogout`.
abbrev leave : List Effect
leave = clear_auth ∷ navigate landing_screen ∷ []

-- `handleLogout`: without a refresh token there is nothing to wait for.
unfoldable pub handle_logout : Option Text → List Effect
handle_logout none = leave
handle_logout (some []) = leave
handle_logout (some (c ∷ t)) = call (logout (c ∷ t)) ∷ []

unfoldable pub update : Env → Msg → List Effect
update env (open_image id) = navigate (gallery_detail id) ∷ []
update env press_logout = handle_logout env.refresh_token
update env logged_out = leave

abbrev name_of : Option User → List Inline
name_of none = []
name_of (some u) = txt u.username ∷ []

abbrev email_of : Option User → List Inline
email_of none = []
email_of (some u) = txt u.email ∷ []

abbrev recent : Image → List (Node Msg)
recent img =
    button "recentItem" true (txt img.filename ∷ date img.created_at ∷ []) (open_image img.id) ∷ []

unfoldable pub view : Env → List (Node Msg)
view env =
    label "avatarText" (upper (initial_of (username_of env.user)) ∷ [])
    ∷ label "username" (name_of env.user)
    ∷ label "email" (email_of env.user)
    ∷ label "badgeText" (lit (if is_admin_user env.user then "管理员" else "用户") ∷ [])
    ∷ label "statNum" (num (length env.images) ∷ [])
    ∷ label "statLabel" (lit "已上传" ∷ [])
    ∷ label "statNum" (file_size (total_size env.images) ∷ [])
    ∷ label "statLabel" (lit "总占用" ∷ [])
    ∷ label "sectionTitle" (lit "最近上传" ∷ [])
    ∷ (flat_map recent (take 6 env.images)
        ++ button "logoutBtn" true (lit "退出登录" ∷ []) press_logout ∷ [])
