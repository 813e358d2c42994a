-- ===== src/SignIn.antt =====
-- frontend/src/pages/auth/AuthPage.tsx: the forms for signing in and for making an account.
pub mod Email
mod View
pub mod Laws
pub mod Refusal
pub mod Tests
use zhici_photo_upload_platf.Api.{Call, login, refresh, register}
use zhici_photo_upload_platf.Auth.{User, user}
use zhici_photo_upload_platf.Media.{
  Effect, call, error_text, navigate, page_at, timer, start_session,
}
use zhici_photo_upload_platf.Prelude.{
  Bool, Inline, List, Option, String, Text, [], false, if◌then◌else◌, is_empty, is_space, length,
  ltb, none, not, some, true, truthy, ℕ, ◌&&◌, ◌==◌, ◌||◌, ◌∷◌,
}

-- The parts of `/^[^\s@]+@[^\s@]+\.[^\s@]+$/`, from the right: what is still to be read.
abbrev pub at_sign : ℕ
at_sign = b'@'

abbrev pub dot : ℕ
dot = b'.'

-- `[^\s@]`.
pub plain : ℕ → Bool
plain c = not (is_space c) && not (c == at_sign)

-- `[^\s@]*$`.
all_plain : Text → Bool
all_plain [] = true
all_plain (c ∷ s) = plain c && all_plain s

-- `[^\s@]*\.[^\s@]+$`.
rest_of_domain : Text → Bool
unfolding all_plain
rest_of_domain [] = false
rest_of_domain (c ∷ s) = (c == dot && truthy s && all_plain s) || (plain c && rest_of_domain s)

-- `[^\s@]+\.[^\s@]+$`.
domain : Text → Bool
unfolding rest_of_domain
domain [] = false
domain (c ∷ s) = plain c && rest_of_domain s

-- `[^\s@]*@[^\s@]+\.[^\s@]+$`.
rest_of_email : Text → Bool
unfolding domain
rest_of_email [] = false
rest_of_email (c ∷ s) = (c == at_sign && domain s) || (plain c && rest_of_email s)

unfoldable pub is_email : Text → Bool
unfolding rest_of_email
is_email [] = false
is_email (c ∷ s) = plain c && rest_of_email s

-- The errors under the fields, and that of the form, which the server's answer sets.
pub record Errors : Type 0 where
  pub username : Option String
  pub email : Option String
  pub password : Option String
  pub form : List Inline

abbrev no_errors : Errors
no_errors = record { username = none; email = none; password = none; form = [] }

abbrev is_none : Option String → Bool
is_none none = true
is_none (some s) = false

-- `Object.keys(e).length === 0`.
unfoldable pub is_clean : Errors → Bool
is_clean e = is_none e.username && is_none e.email && is_none e.password && is_empty e.form

-- The state of either form with that of its password's field; the one for signing in has no user
-- name.
pub record Form : Type 0 where
  pub username : Text
  pub email : Text
  pub password : Text
  pub errors : Errors
  pub loading : Bool
  pub shake : Bool
  -- of the password's `Field`: whether it shows what is entered
  pub show_password : Bool

unfoldable pub initial : Form
initial = record {
  username = [];
  email = [];
  password = [];
  errors = no_errors;
  loading = false;
  shake = false;
  show_password = false;
}

-- What `POST /auth/login` answers.
pub record Signed : Type 0 where
  pub access : Text
  pub refresh : Text
  pub user : User

pub data Msg : Type 0 where
  set_username set_email set_password : Text → Msg
  -- the form is submitted; the shaking is over
  -- the eye at the password is clicked
  submit calm toggle_eye : Msg
  -- the answer to the submission: the session, or the message of an error's response
  signed : Signed → Msg
  registered : Msg
  refused : Option Text → Msg

email_error : Text → Option String
unfolding is_email
email_error [] = some "请输入邮箱"
email_error (c ∷ s) = if is_email (c ∷ s) then none else some "邮箱格式不正确"

-- `validate` of LoginPage.
unfoldable pub login_errors : Form → Errors
unfolding email_error
login_errors f = record {
  username = none;
  email = email_error f.email;
  password = if truthy f.password then none else some "请输入密码";
  form = [];
}

-- `validate` of RegisterPage. The lengths are in UTF-16 code units.
unfoldable pub register_errors : Form → Errors
unfolding email_error
register_errors f = record {
  username = if ltb (length f.username) 2 then some "用户名至少 2 个字符" else none;
  email = email_error f.email;
  password = if ltb (length f.password) 6 then some "密码至少 6 位" else none;
  form = [];
}

-- `handleSubmit` up to its wait, with the call it makes for a form without errors.
abbrev submitted : Call → Errors → Form → Form × List Effect
submitted c e f =
    if is_clean e
    then (record f { errors = e; loading = true }, call c ∷ [])
    else (record f { errors = e }, [])

-- A refusal shows the message and shakes the form for half a second.
abbrev rejected : Option Text → String → Form → Form × List Effect
rejected message default f = (
  record f {
    errors = record no_errors { form = error_text message default };
    loading = false;
    shake = true;
  },
  timer 500 ∷ [],
)

unfoldable pub update_login : Msg → Form → Form × List Effect
unfolding is_clean login_errors
update_login (set_username t) f = (f, [])
update_login (set_email t) f = (record f { email = t }, [])
update_login (set_password t) f = (record f { password = t }, [])
update_login submit f = submitted (login f.email f.password) (login_errors f) f
update_login toggle_eye f = (record f { show_password = not f.show_password }, [])
update_login calm f = (record f { shake = false }, [])
update_login (signed s) f = (
  record f { loading = false },
  start_session s.access s.refresh s.user ∷ navigate (page_at "/gallery") ∷ [],
)
update_login registered f = (f, [])
update_login (refused m) f = rejected m "邮箱或密码错误" f

unfoldable pub update_register : Msg → Form → Form × List Effect
unfolding is_clean register_errors
update_register (set_username t) f = (record f { username = t }, [])
update_register (set_email t) f = (record f { email = t }, [])
update_register (set_password t) f = (record f { password = t }, [])
update_register submit f = submitted (register f.username f.email f.password) (register_errors f) f
update_register toggle_eye f = (record f { show_password = not f.show_password }, [])
update_register calm f = (record f { shake = false }, [])
update_register (signed s) f = (f, [])
update_register registered f = (record f { loading = false }, navigate (page_at "/login") ∷ [])
update_register (refused m) f = rejected m "注册失败，请稍后重试" f
