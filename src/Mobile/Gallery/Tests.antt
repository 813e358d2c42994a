-- ===== src/Mobile/Gallery/Tests.antt =====
-- `MyUploads` with one image, and the theorem at it.
use zhici_photo_upload_platf.Gallery.Tests.{image_of_id}
use zhici_photo_upload_platf.Media.{Image}
use zhici_photo_upload_platf.Mobile.Card.{image_card}
use zhici_photo_upload_platf.Mobile.Feed.{State, initial}
use zhici_photo_upload_platf.Mobile.Gallery.{Env, delete_one, view}
use zhici_photo_upload_platf.Mobile.Gallery.Laws.{changes_own_only}
use zhici_photo_upload_platf.Prelude.{
  Any, Offers, [], false, inl, inr, none, refl, true, ◌∷◌, ◌≡◌, flat_map,
}

abbrev my_uploads : Env
my_uploads = record { mine = true; is_loading = false; listing = none; tags = [] }

abbrev with_image : State
with_image = record initial { all_images = image_of_id 5 ∷ [] }

delete_offered : Offers (delete_one 5) (view my_uploads with_image)
unfolding view image_card flat_map
delete_offered = inr (inr (inr (inr (inr (inr (inl refl))))))

delete_of_own : (my_uploads.mine ≡ true) × Any (λ (img : Image). img.id ≡ 5) with_image.all_images
delete_of_own = changes_own_only (delete_one 5) 5 my_uploads with_image refl delete_offered
