-- ===== src/Mobile/Admin.antt =====
-- mobile/src/screens/AdminScreen.tsx.
mod Tests
use zhici_photo_upload_platf.Api
use zhici_photo_upload_platf.Api.{
  Call, delete_any_image, list_all_images, list_users, reset_user_password, update_user, stats,
}
use zhici_photo_upload_platf.Auth.{Role, admin, user}
use zhici_photo_upload_platf.Comments.View.{text_of}
use zhici_photo_upload_platf.Media.{Image, or_zero}
use zhici_photo_upload_platf.Mobile.Device.{Effect, alert, call, invalidate}
use zhici_photo_upload_platf.Prelude.{
  Bool, List, Node, Option, String, Text, [], ask, button, confirm, date, file_size, flat_map,
  if◌then◌else◌, label, leb, length, lit, none, num, some, true, truthy, txt, ℕ, ◌&&◌, ◌++◌, ◌∷◌,
}

pub data Tab : Type 0 where
  users_tab images_tab : Tab

-- The screen's only state is the tab that is shown.
pub record State : Type 0 where
  pub tab : Tab

pub record Stats : Type 0 where
  pub total_users : Option ℕ
  pub total_images : Option ℕ
  pub total_storage : Option ℕ

pub record UserRow : Type 0 where
  pub id : ℕ
  pub username : Text
  pub email : Text
  pub role : Role
  pub storage_used : Option ℕ
  pub created_at : Text

pub record Env : Type 0 where
  pub stats : Stats
  pub users : List UserRow
  pub images : List Image

pub data Msg : Type 0 where
  show_tab : Tab → Msg
  press_role : ℕ → Role → Msg
  -- the answer to the prompt, where the system has one
  reset_password : ℕ → Option Text → Msg
  -- after the confirmation
  delete_image : ℕ → Msg
  -- the answers: whether it went well
  role_answered password_answered image_answered : Bool → Msg

unfoldable pub initial : State
initial = record { tab = users_tab }

-- The calls of the queries that are enabled.
unfoldable pub admin_queries : State → List Call
admin_queries s = elim s.tab [
  | users_tab ↦ Api.stats ∷ list_users none 100 none ∷ []
  | images_tab ↦ Api.stats ∷ list_all_images none 100 none ∷ []
]

-- The role that a press of the button gives.
unfoldable pub other_role : Role → String
other_role admin = "user"
other_role user = "admin"

abbrev reset : ℕ → Option Text → List Effect
reset id none = []
reset id (some pwd) =
    if truthy pwd && leb 6 (length pwd) then call (reset_user_password id pwd) ∷ [] else []

unfoldable pub update : Msg → State → State × List Effect
unfolding other_role
update (show_tab t) s = (record { tab = t }, [])
update (press_role id r) s = (s, call (update_user id (other_role r)) ∷ [])
update (reset_password id o) s = (s, reset id o)
update (delete_image id) s = (s, call (delete_any_image id) ∷ [])
update (role_answered ok) s = (s, if ok then invalidate "admin-users" none ∷ [] else [])
update (password_answered ok) s = (s, if ok then alert "密码已重置" ∷ [] else [])
update (image_answered ok) s = (s, if ok then invalidate "admin-images" none ∷ [] else [])

abbrev role_caption : Role → String
role_caption admin = "Admin"
role_caption user = "User"

abbrev role_class : Role → String
role_class admin = "roleBtn roleBtnAdmin"
role_class user = "roleBtn"

unfoldable pub user_row : UserRow → List (Node Msg)
user_row u =
    label "userName" (txt u.username ∷ [])
    ∷ label "userEmail" (txt u.email ∷ [])
    ∷ label "userStorage" (file_size (or_zero u.storage_used) ∷ lit " · " ∷ date u.created_at ∷ [])
    ∷ button (role_class u.role) true (lit (role_caption u.role) ∷ []) (press_role u.id u.role)
    ∷ ask "密码" "输入新密码（至少6位）" [] (reset_password u.id)
    ∷ []

unfoldable pub image_row : Image → List (Node Msg)
image_row img =
    label "imgName" (txt img.filename ∷ [])
    ∷ label "imgMeta" (
        text_of img.username
        ++ (lit " · " ∷ file_size img.file_size ∷ lit " · " ∷ date img.created_at ∷ []))
    ∷ confirm "✕" (lit "确认删除" ∷ txt img.filename ∷ []) (delete_image img.id)
    ∷ []

abbrev stat_cards : Stats → List (Node Msg)
stat_cards s =
    label "statNum" (num (or_zero s.total_users) ∷ [])
    ∷ label "statLabel" (lit "用户" ∷ [])
    ∷ label "statNum" (num (or_zero s.total_images) ∷ [])
    ∷ label "statLabel" (lit "图片" ∷ [])
    ∷ label "statNum" (file_size (or_zero s.total_storage) ∷ [])
    ∷ label "statLabel" (lit "存储" ∷ [])
    ∷ []

abbrev tab_buttons : Tab → List (Node Msg)
tab_buttons users_tab =
    button "tab tabActive" true (lit "用户" ∷ []) (show_tab users_tab)
    ∷ button "tab" true (lit "图片" ∷ []) (show_tab images_tab)
    ∷ []
tab_buttons images_tab =
    button "tab" true (lit "用户" ∷ []) (show_tab users_tab)
    ∷ button "tab tabActive" true (lit "图片" ∷ []) (show_tab images_tab)
    ∷ []

abbrev tab_rows : Env → Tab → List (Node Msg)
tab_rows env users_tab = flat_map user_row env.users
tab_rows env images_tab = flat_map image_row env.images

unfoldable pub view : Env → State → List (Node Msg)
unfolding user_row image_row
view env s = stat_cards env.stats ++ (tab_buttons s.tab ++ tab_rows env s.tab)
