-- ===== src/Mobile/Forms.antt =====
-- mobile/src/screens/LoginScreen.tsx and RegisterScreen.tsx.
pub mod Laws
mod Tests
use zhici_photo_upload_platf.Api.{login, register}
use zhici_photo_upload_platf.Auth.{User}
use zhici_photo_upload_platf.Media.{error_text}
use zhici_photo_upload_platf.Mobile.Device.{
  Effect, call, go_back, login_screen, navigate, register_screen, set_auth,
}
use zhici_photo_upload_platf.Prelude.{
  Bool, Inline, List, Node, Option, String, Text, [], button, false, if◌then◌else◌, input, is_empty,
  label, leb, length, lit, none, not, secret, some, true, txt, when, ◌&&◌, ◌++◌, ◌==◌, ◌||◌, ◌∷◌,
}

-- The fields of either form, and whether its call is pending; the one for signing in has no user name.
pub record Form : Type 0 where
  pub username : Text
  pub email : Text
  pub password : Text
  pub error : List Inline
  pub pending : Bool

unfoldable pub initial : Form
initial = record { username = []; email = []; password = []; error = []; pending = false }

pub data Msg : Type 0 where
  set_username set_email set_password : Text → Msg
  submit to_other : Msg
  -- the answers; an error has the message of its response, if any, and its own
  signed : (access refresh : Text) → User → Msg
  registered : Msg
  refused : (message : Option Text) (own : Text) → Msg

-- `email.includes('@')`
unfoldable pub has_at : Text → Bool
has_at [] = false
has_at (c ∷ t) = c == b'@' || has_at t

-- `valid` of LoginScreen, and of RegisterScreen.
unfoldable pub login_valid : Form → Bool
login_valid f = has_at f.email && leb 6 (length f.password)

unfoldable pub register_valid : Form → Bool
register_valid f = leb 2 (length f.username) && has_at f.email && leb 6 (length f.password)

-- `a || b || …`, over a message of a response, that of the error and a default.
abbrev login_error : Option Text → Text → List Inline
login_error (some (c ∷ t)) own = txt (c ∷ t) ∷ []
login_error (some []) (c ∷ t) = txt (c ∷ t) ∷ []
login_error none (c ∷ t) = txt (c ∷ t) ∷ []
login_error (some []) [] = lit "登录失败" ∷ []
login_error none [] = lit "登录失败" ∷ []

abbrev typed : Form → Form
typed f = record f { error = [] }

unfoldable pub update_login : Msg → Form → Form × List Effect
update_login (set_username t) f = (f, [])
update_login (set_email t) f = (typed (record f { email = t }), [])
update_login (set_password t) f = (typed (record f { password = t }), [])
update_login submit f = (record f { pending = true }, call (login f.email f.password) ∷ [])
update_login to_other f = (f, navigate register_screen ∷ [])
update_login (signed access renewal u) f =
    (record f { pending = false }, set_auth access renewal u ∷ [])
update_login registered f = (f, [])
update_login (refused message own) f =
    (record f { pending = false; error = login_error message own }, [])

unfoldable pub update_register : Msg → Form → Form × List Effect
update_register (set_username t) f = (typed (record f { username = t }), [])
update_register (set_email t) f = (typed (record f { email = t }), [])
update_register (set_password t) f = (typed (record f { password = t }), [])
update_register submit f =
    (record f { pending = true }, call (register f.username f.email f.password) ∷ [])
update_register to_other f = (f, go_back ∷ [])
update_register (signed access renewal u) f = (f, [])
update_register registered f = (record f { pending = false }, navigate (login_screen none) ∷ [])
update_register (refused message own) f =
    (record f { pending = false; error = error_text message "注册失败" }, [])

-- The error below the fields, the button that submits, and the link to the other form.
abbrev pub foot : Bool → String → String → Form → List (Node Msg)
foot valid caption other f =
    when (not (is_empty f.error)) (label "error" f.error ∷ [])
    ++ (button "btn" (valid && not f.pending) (if f.pending then [] else lit caption ∷ []) submit
        ∷ button "link" true (lit other ∷ []) to_other
        ∷ [])

unfoldable pub login_view : Form → List (Node Msg)
login_view f =
    label "title" (lit "赤子の相册" ∷ [])
    ∷ label "subtitle" (lit "登录你的账号" ∷ [])
    ∷ input "邮箱" f.email set_email
    ∷ secret "密码" f.password set_password
    ∷ foot (login_valid f) "登录" "没有账号？注册" f

unfoldable pub register_view : Form → List (Node Msg)
register_view f =
    label "title" (lit "赤子の相册" ∷ [])
    ∷ label "subtitle" (lit "创建新账号" ∷ [])
    ∷ input "用户名（至少2字）" f.username set_username
    ∷ input "邮箱" f.email set_email
    ∷ secret "密码（至少6位）" f.password set_password
    ∷ foot (register_valid f) "注册" "已有账号？登录" f
