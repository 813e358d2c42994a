-- ===== src/Mobile/Admin/Tests.antt =====
-- The administration of the mobile client.
use zhici_photo_upload_platf.Api.{update_user}
use zhici_photo_upload_platf.Auth.{user}
use zhici_photo_upload_platf.Mobile.Admin.{initial, other_role, press_role, reset_password, update}
use zhici_photo_upload_platf.Mobile.Device.{call}
use zhici_photo_upload_platf.Prelude.{[], codes, refl, some, ◌∷◌, ◌≡◌}

short_password : (update (reset_password 3 (some (codes "12345"))) initial).1 ≡ []
unfolding update
short_password = refl

made_admin : (update (press_role 3 user) initial).1 ≡ call (update_user 3 "admin") ∷ []
unfolding update other_role
made_admin = refl
