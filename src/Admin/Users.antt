-- ===== src/Admin/Users.antt =====
-- frontend/src/pages/admin/UserManagementPage.tsx: the users' roles and passwords.
pub mod Requests
use zhici_photo_upload_platf.Api.{Call, list_users, reset_user_password, update_user}
use zhici_photo_upload_platf.Auth.{Role, admin, user}
use zhici_photo_upload_platf.Media.{Effect, call, error, error_text, invalidate, success}
use zhici_photo_upload_platf.Prelude.{
  Bool, Inline, List, Node, Option, String, Text, [], ask, choice, date, false, flat_map,
  if◌then◌else◌, input, label, length, lit, ltb, none, num, pagination, some, true, txt, ℕ, ◌++◌,
  ◌∷◌,
}

-- A row of the table.
pub record Row : Type 0 where
  pub id : ℕ
  pub username : Text
  pub email : Text
  pub role : Role
  pub storage_used : ℕ
  pub created_at : Text

pub record State : Type 0 where
  pub page : ℕ
  pub search : Text

pub data Msg : Type 0 where
  set_search : Text → Msg
  set_page : ℕ → Msg
  set_role : ℕ → Role → Msg
  -- the answer to the prompt for a new password, after the confirmation
  reset_password : ℕ → Option Text → Msg
  -- the answers: whether it went well, and the message of an error's response
  role_answered : Bool → Msg
  password_answered : Bool → Option Text → Msg

unfoldable pub initial : State
initial = record { page = 1; search = [] }

unfoldable pub users_query : State → Call
users_query s = list_users (some s.page) 20 (some s.search)

abbrev role_value : Role → String
role_value user = "user"
role_value admin = "admin"

-- `handleResetPassword`, after the prompt.
unfoldable pub reset : ℕ → Option Text → List Effect
reset id none = []
reset id (some []) = []
reset id (some (c ∷ s)) =
    if ltb (length (c ∷ s)) 6
    then error (lit "密码至少6位" ∷ []) ∷ []
    else call (reset_user_password id (c ∷ s)) ∷ []

abbrev stale : List Inline → List Effect
stale told = invalidate "admin-users" none ∷ success told ∷ []

abbrev role_effects : Bool → List Effect
role_effects true = stale (lit "已更新" ∷ [])
role_effects false = []

abbrev password_effects : Bool → Option Text → List Effect
password_effects true message = stale (lit "密码已重置" ∷ [])
password_effects false message = error (error_text message "重置失败") ∷ []

unfoldable pub update : Msg → State → State × List Effect
unfolding reset
update (set_search t) s = (record { page = 1; search = t }, [])
update (set_page p) s = (record s { page = p }, [])
update (set_role id r) s = (s, call (update_user id (role_value r)) ∷ [])
update (reset_password id answer) s = (s, reset id answer)
update (role_answered ok) s = (s, role_effects ok)
update (password_answered ok message) s = (s, password_effects ok message)

unfoldable pub user_row : Row → List (Node Msg)
user_row r =
    label "id" (num r.id ∷ [])
    ∷ label "username" (txt r.username ∷ [])
    ∷ label "email" (txt r.email ∷ [])
    ∷ choice (role_value r.role) (("用户", set_role r.id user) ∷ ("管理员", set_role r.id admin) ∷ [])
    ∷ label "storage_used" (num r.storage_used ∷ [])
    ∷ label "created_at" (date r.created_at ∷ [])
    ∷ ask "重置密码" "输入新密码（至少6位）：" [] (reset_password r.id)
    ∷ []

unfoldable pub view_page : List Row → ℕ → State → List (Node Msg)
unfolding user_row
view_page users total s =
    label "" (lit "用户管理" ∷ [])
    ∷ input "搜索用户名或邮箱..." s.search set_search
    ∷ (flat_map user_row users ++ pagination s.page total 20 set_page ∷ [])
