-- ===== src/Mobile/Upload/Tests.antt =====
-- Two photos on the upload screen, and the theorem at them.
use zhici_photo_upload_platf.Mobile.Upload.Laws.{Reach}
use zhici_photo_upload_platf.Mobile.Upload.{
  Asset, Msg, Part, State, Upload, add_assets, initial, picked, press_upload, preview, rows, send,
  tag_chips, update, upload_button, view,
}
use zhici_photo_upload_platf.Mobile.Upload.Laws.{IsPlainName, press_uploads}
use zhici_photo_upload_platf.Prelude.{
  All, Offers, [], codes, false, inl, inr, length, map, none, refl, some, ◌∷◌, ◌≡◌, ◌≤◌,
}

abbrev photo : Asset
photo = record {
  uri = codes "file:1";
  file_name = some (codes "a b.png");
  mime_type = none;
  file_size = none;
}

abbrev picked_two : Msg
picked_two = picked (some (photo ∷ photo ∷ []))

abbrev two_photos : State
two_photos = (update none picked_two initial).0

two_photos-Reach : Reach two_photos
two_photos-Reach = Reach.then Reach.start none picked_two

two_photos-Offers : Offers press_upload (view [] two_photos)
unfolding update add_assets view preview rows tag_chips upload_button
two_photos-Offers = inr (
    inr (
      inr (
        inr (
          inr
            (inr (inr (inr (inr (inr (inr (inr (inr (inr (inr (inr (inl (refl, refl)))))))))))))))))

two_photos_uploaded :
    (two_photos.pending ≡ false)
    × ((u : Upload) × ((update none press_upload two_photos).1 ≡ send u ∷ [])
        × (map (λ (p : Part). p.uri) u.parts ≡ map (λ (f : Asset). f.uri) two_photos.files)
        × (1 ≤ length u.parts)
        × (length u.parts ≤ 10)
        × All (λ (p : Part). IsPlainName p.name) u.parts)
    × (Offers press_upload (view [] (update none press_upload two_photos).0) → ⊥)
two_photos_uploaded = press_uploads none [] two_photos-Reach two_photos-Offers
