-- ===== src/Mobile/Detail/Tests.antt =====
-- A comment on an image, on the mobile client.
use zhici_photo_upload_platf.Api.{create_comment}
use zhici_photo_upload_platf.Mobile.Detail.{Env, send_comment, update}
use zhici_photo_upload_platf.Mobile.Device.{call}
use zhici_photo_upload_platf.Prelude.{[], codes, is_space, none, refl, trim, ◌∷◌, ◌≡◌}

abbrev on_image : Env
on_image = record { id = 4; user = none; img = none; tags = []; comments = [] }

-- What is sent is trimmed; a draft of spaces is not sent.
trimmed_sent :
    update on_image send_comment (record { comment_text = codes " hi " })
    ≡ (record { comment_text = [] }, call (create_comment 4 (codes "hi")) ∷ [])
unfolding update trim is_space
trimmed_sent = refl

spaces_stay :
    update on_image send_comment (record { comment_text = codes "  " })
    ≡ (record { comment_text = codes "  " }, [])
unfolding update trim is_space
spaces_stay = refl
