-- ===== src/Mobile/Navigation/Tests.antt =====
-- The app is opened without a session, and the user signs in.
use zhici_photo_upload_platf.Auth.Tests.{ann}
use zhici_photo_upload_platf.Mobile.Navigation.{State, auth_changed, initial, inside, timer_over}
use zhici_photo_upload_platf.Mobile.Navigation.Laws.{
  Reach, Step, sign_in_leads_in_iff, signed_in_state,
}
use zhici_photo_upload_platf.Mobile.Session.{App}
use zhici_photo_upload_platf.Prelude.{Bool, arith, codes, false, none, refl, true, ◌↔◌, ◌≡◌}

abbrev fresh_app : App
fresh_app = record {
  storage = none;
  state = record {
    access_token = none;
    refresh_token = none;
    user = none;
    is_authenticated = false;
    is_admin = false;
    is_loading = false;
  };
}

abbrev gone_in : Bool × State
gone_in = (true, timer_over true (auth_changed true (initial false)))

gone_in-Reach : Reach (false, initial false) gone_in
unfolding auth_changed initial
gone_in-Reach =
    Reach.next (Reach.next Reach.here (Step.changes false true (initial false)))
      (Step.times_out true (auth_changed true (initial false)) (omega arith))

gone_in_place : gone_in.1.place ≡ inside
unfolding timer_over auth_changed initial
gone_in_place = refl

ann_goes_in :
    ((signed_in_state fresh_app (codes "a1") (codes "r1") ann).place ≡ inside)
    ↔ (fresh_app.state.is_authenticated ≡ false)
ann_goes_in = sign_in_leads_in_iff fresh_app (codes "a1") (codes "r1") ann
