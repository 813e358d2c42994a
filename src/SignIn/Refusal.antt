-- ===== src/SignIn/Refusal.antt =====
-- A refused sign-in, from the form through the HTTP client.
use zhici_photo_upload_platf.Api.{Request, auth_api, login}
use zhici_photo_upload_platf.Auth.{clear_auth}
use zhici_photo_upload_platf.Http.{Config, Event, Network, World, client, failure, give_up}
use zhici_photo_upload_platf.Http.Calls.{fresh}
use zhici_photo_upload_platf.Http.Laws.{
  HasNoToken, client_settled, refused_attempt, authorize-request,
}
use zhici_photo_upload_platf.Media.{call, error_text}
use zhici_photo_upload_platf.Prelude.{
  List, [], refl, some, suc, ℕ, ◌∷◌, ◌≡◌, ap, sym, Option, Text, false,
}
use zhici_photo_upload_platf.SignIn.{Form, refused, submit, update_login}
use zhici_photo_upload_platf.SignIn.Laws.{IsLogin, login_submits}

-- Where the backend answers a wrong password with 401, as it documents: submitting a form that is taken,
-- in a browser without a session, makes one request, whose answer is that 401. The form takes it for a
-- refusal: it no longer waits, and shows the message that came, or that address or password are wrong.
-- But the interceptor that renews sessions takes the same answer for the end of one: it has set the
-- browser's location to the login page, and cleared the session.
pub refused_sign_in_reloads :
    (fuel : ℕ) (net : Network) (w : World) (f : Form)
    → IsLogin f
    → ((log : List Event) (d : Config)
        → auth_api (login f.email f.password) ≡ some d.request
        → net.server log d ≡ failure (some 401))
    → HasNoToken w.session
    → ((update_login submit f).1 ≡ call (login f.email f.password) ∷ [])
      × ((q : Request) × (v : World) × (auth_api (login f.email f.password) ≡ some q)
          × (client (suc fuel) net (fresh q) w ≡ some (failure (some 401), v))
          × (v.location ≡ some "/login")
          × (v.session ≡ clear_auth w.session))
      × ((m : Option Text)
          → let a = update_login (refused m) (update_login submit f).0 in
            (a.0.loading ≡ false) × (a.0.errors.form ≡ error_text m "邮箱或密码错误"))
unfolding give_up update_login
refused_sign_in_reloads fuel net w f ok h n = (
  ((login_submits f).0 ok).0,
  (
    _,
    _,
    refl,
    client_settled fuel net _ w (
        refused_attempt net _ w (h w.log _ (ap some (sym (authorize-request w.session (fresh _)))))
          n refl),
    refl,
    refl,
  ),
  λ m. (refl, refl),
)
