-- ===== src/Auth/Tests.antt =====
-- A user and a session, and the theorems at an input.
use zhici_photo_upload_platf.Auth.{
  Session, User, admin, empty_storage, load_from_storage, open_app, set_auth,
}
use zhici_photo_upload_platf.Auth.Laws.{Reach, Step, reload_changes_nothing}
use zhici_photo_upload_platf.Prelude.{codes, none, refl, ◌≡◌}

abbrev pub ann : User
ann = record {
  id = 7;
  username = codes "ann";
  email = codes "ann@x.org";
  role = admin;
  avatar_url = none;
  storage_used = 0;
}

-- The session after a first sign-in.
abbrev pub signed_session : Session
signed_session = set_auth (codes "a1") (codes "r1") ann (open_app empty_storage)

abbrev signing_in : Reach (open_app empty_storage) signed_session
signing_in =
    Reach.next Reach.here (Step.sign_in (open_app empty_storage) (codes "a1") (codes "r1") ann refl)

signed_session_reloaded : load_from_storage signed_session ≡ signed_session
signed_session_reloaded = reload_changes_nothing empty_storage signing_in
