-- ===== src/Api/Tests.antt =====
-- Calls at an input.
use zhici_photo_upload_platf.Api.{Request, delete_image}
use zhici_photo_upload_platf.Api.Backend.{call_reaches_its_handler, handlers, meant_for, request_of}
use zhici_photo_upload_platf.Prelude.{[], some, ◌∷◌, ◌≡◌}

deleting_reaches_delete :
    (q : Request) × (request_of (delete_image 3) ≡ some q)
    × (handlers q ≡ meant_for (delete_image 3) ∷ [])
deleting_reaches_delete = call_reaches_its_handler (delete_image 3)
