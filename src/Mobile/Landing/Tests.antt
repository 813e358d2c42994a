-- ===== src/Mobile/Landing/Tests.antt =====
-- The screen of the public images.
use zhici_photo_upload_platf.Mobile.Device.{login_screen, navigate}
use zhici_photo_upload_platf.Mobile.Feed.{initial}
use zhici_photo_upload_platf.Mobile.Landing.{Env, open_image, opened, update}
use zhici_photo_upload_platf.Prelude.{[], false, none, refl, some, ◌∷◌, ◌≡◌}

abbrev visitor : Env
visitor = record { is_authenticated = false; is_loading = false; listing = none; tags = [] }

picked : (update visitor (open_image 3) initial).1 ≡ navigate (login_screen (some 3)) ∷ []
unfolding update opened
picked = refl
