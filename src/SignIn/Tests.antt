-- ===== src/SignIn/Tests.antt =====
-- Forms, and the theorems at them.
use mathlib.Core.Bool.{true≢false}
use zhici_photo_upload_platf.Api.{login, Request, auth_api}
use zhici_photo_upload_platf.Auth.Tests.{ann}
use zhici_photo_upload_platf.Media.{Effect, call, error_text}
use zhici_photo_upload_platf.Prelude.{
  Bool, List, [], ap, codes, false, is_space, none, refl, true, ◌↔◌, ◌∷◌, ◌≡◌, ◌≢◌, some, Option,
  Text,
}
use zhici_photo_upload_platf.SignIn.{
  Form, Signed, refused, all_plain, domain, email_error, is_clean, is_email, no_errors, plain,
  register_errors, rest_of_domain, rest_of_email, submit, update_login, update_register,
}
use zhici_photo_upload_platf.SignIn.Email.{IsEmail, is_email_iff}
use zhici_photo_upload_platf.SignIn.Laws.{IsLogin}
use zhici_photo_upload_platf.Auth.{clear_auth, empty_storage, get_stored, open_app, state_of}
use zhici_photo_upload_platf.Http.{Network, World, client, failure}
use zhici_photo_upload_platf.Http.Calls.{fresh}
use zhici_photo_upload_platf.Http.Laws.{HasNoToken}
use zhici_photo_upload_platf.SignIn.Refusal.{refused_sign_in_reloads}

abbrev pub filled : Form
filled = record {
  username = codes "ann";
  email = codes "a@b.c";
  password = codes "secret";
  errors = no_errors;
  loading = false;
  shake = false;
  show_password = false;
}

a_b_c-IsEmail : (is_email (codes "a@b.c") ≡ true) ↔ IsEmail (codes "a@b.c")
a_b_c-IsEmail = is_email_iff (codes "a@b.c")

is_called : List Effect → Bool
is_called [] = false
is_called (e ∷ es) = true

pub filled_called : (update_register submit filled).1 ≢ []
unfolding update_register is_clean register_errors email_error is_email rest_of_email domain
    rest_of_domain all_plain plain is_space is_called
filled_called e = true≢false (ap is_called e)

abbrev ann_signed : Signed
ann_signed = record { access = codes "a"; refresh = codes "r"; user = ann }

abbrev strict : Network
strict = record { server = λ log c. failure (some 401); renewal = λ log t. none }

abbrev signed_out_world : World
signed_out_world = record { session = open_app empty_storage; log = []; location = none }

filled-IsLogin : IsLogin filled
unfolding is_email rest_of_email domain rest_of_domain all_plain plain is_space
filled-IsLogin = record { email = refl; password = refl }

signed_out-HasNoToken : HasNoToken (open_app empty_storage)
unfolding open_app state_of get_stored
signed_out-HasNoToken = refl

strict_backend_signs_out :
    ((update_login submit filled).1 ≡ call (login (codes "a@b.c") (codes "secret")) ∷ [])
    × ((q : Request) × (v : World) × (auth_api (login (codes "a@b.c") (codes "secret")) ≡ some q)
        × (client 1 strict (fresh q) signed_out_world ≡ some (failure (some 401), v))
        × (v.location ≡ some "/login")
        × (v.session ≡ clear_auth signed_out_world.session))
    × ((m : Option Text)
        → let a = update_login (refused m) (update_login submit filled).0 in
          (a.0.loading ≡ false) × (a.0.errors.form ≡ error_text m "邮箱或密码错误"))
strict_backend_signs_out =
    refused_sign_in_reloads 0 strict signed_out_world filled filled-IsLogin (λ log d e. refl)
      signed_out-HasNoToken
