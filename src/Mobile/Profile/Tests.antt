-- ===== src/Mobile/Profile/Tests.antt =====
-- Signing out on the mobile client.
use zhici_photo_upload_platf.Mobile.Device.{landing_screen, navigate}
use zhici_photo_upload_platf.Mobile.Profile.{Env, handle_logout, press_logout, update}
use zhici_photo_upload_platf.Mobile.Device.{clear_auth}
use zhici_photo_upload_platf.Prelude.{[], none, refl, ◌∷◌, ◌≡◌}

abbrev without_token : Env
without_token = record { user = none; refresh_token = none; images = [] }

leaves_at_once : update without_token press_logout ≡ clear_auth ∷ navigate landing_screen ∷ []
unfolding update handle_logout
leaves_at_once = refl
