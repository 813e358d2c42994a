-- ===== src/Mobile/Api/Tests.antt =====
-- A call of the mobile client.
use zhici_photo_upload_platf.Api.{Request, get, list_tags, word}
use zhici_photo_upload_platf.Api.Backend.{handlers, meant_for, request_of}
use zhici_photo_upload_platf.Mobile.Api.{mobile_call_is_the_web_call, sent_of}
use zhici_photo_upload_platf.Prelude.{[], refl, some, ◌∷◌, ◌≡◌}

tags_are_the_webs :
    (r : Request) × (request_of list_tags ≡ some r)
    × (sent_of (record { method = get; path = word "tags" ∷ []; params = []; body = [] })
        ≡ sent_of r)
    × (handlers (record { method = get; path = word "tags" ∷ []; params = []; body = [] })
        ≡ meant_for list_tags ∷ [])
tags_are_the_webs = mobile_call_is_the_web_call list_tags _ refl
