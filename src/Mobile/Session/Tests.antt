-- ===== src/Mobile/Session/Tests.antt =====
-- A session of the app, and the theorem at it.
use zhici_photo_upload_platf.Auth.Tests.{ann}
use zhici_photo_upload_platf.Mobile.Session.{
  App, hydrate, initial, reopen, set_access_token, set_auth,
}
use zhici_photo_upload_platf.Mobile.Session.Laws.{Reach, Step, reopening_changes_nothing}
use zhici_photo_upload_platf.Prelude.{Text, codes, none, refl, ◌≡◌}

abbrev empty_app : App
empty_app = record { storage = none; state = initial }

abbrev pub signed_app : App
signed_app = set_auth (codes "a1") (codes "r1") ann (hydrate (reopen empty_app))

signed_app_reopened :
    (hydrate (reopen signed_app) ≡ signed_app)
    × ((t : Text)
        → (hydrate (reopen (set_access_token t signed_app))).state.access_token
          ≡ signed_app.state.access_token)
signed_app_reopened = reopening_changes_nothing empty_app (
    Reach.then Reach.start
      (Step.signs_in (hydrate (reopen empty_app)) (codes "a1") (codes "r1") ann refl))
