-- ===== src/Cursor/Tests.antt =====
-- The cursor over a button within an element that has its own cursor.
use zhici_photo_upload_platf.Cursor.{marked, variant_over}
use zhici_photo_upload_platf.Prelude.{[], codes, false, none, refl, some, true, ◌∷◌, ◌≡◌}

over_marked :
    variant_over (
      record { data_cursor = none; button_like = true }
      ∷ record { data_cursor = some (codes "text"); button_like = false }
      ∷ [])
    ≡ codes "text"
unfolding variant_over marked
over_marked = refl
