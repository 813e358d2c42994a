-- ===== src/Mobile/Api.antt =====
-- mobile/src/api/images.ts, tags.ts, admin.ts and auth.ts: the calls of the mobile client are among
-- those of the web client. An upload is sent by the upload screen itself.
mod Tests
use mathlib.Core.Option.{some-injective}
use zhici_photo_upload_platf.Api.{
  Call, Request, Value, add_tags, batch_delete, create_comment, create_tag, delete,
  delete_any_image, delete_comment, delete_image, delete_tag, flag, get, get_image, get_public,
  image_path, list, list_all_images, list_comments, list_params, list_public, list_public_comments,
  list_tags, list_users, login, logout, me, nat, nats, number, patch, post, refresh, register,
  remove_tag, request, reset_user_password, search_params, stats, tag_stats, text, texts,
  toggle_tag, undefined, update_image, optional, update_user, upload, upload_trend, with_body,
  with_params, word,
}
use zhici_photo_upload_platf.Api.Backend.{
  call_reaches_its_handler, first_some, handlers, meant_for, request_of,
}
use zhici_photo_upload_platf.Prelude.{
  List, Option, String, [], ap, codes, none, refl, some, sym, ◌∙◌, ◌∷◌, ◌≡◌,
}

-- imagesAPI
abbrev images_api : Call → Option Request
images_api (list p) = some (with_params get (word "images" ∷ []) (list_params p))
images_api (list_public p) =
    some (with_params get (word "public" ∷ word "images" ∷ []) (list_params p))
images_api (get_image id) = some (request get (image_path id []))
images_api (get_public id) = some (request get (word "public" ∷ image_path id []))
images_api (update_image id name alt none) = some (
    with_body patch (image_path id [])
      (("filename", optional name) ∷ ("alt_text", optional alt) ∷ []))
images_api (delete_image id) = some (request delete (image_path id []))
images_api (toggle_tag id tag) =
    some (with_body post (image_path id (word "toggle-tag" ∷ [])) (("tag_id", nat tag) ∷ []))
images_api (add_tags id names) =
    some (with_body post (image_path id (word "tags" ∷ [])) (("tag_names", texts names) ∷ []))
images_api (remove_tag id tag) =
    some (request delete (image_path id (word "tags" ∷ number tag ∷ [])))
images_api (list_comments id) = some (request get (image_path id (word "comments" ∷ [])))
images_api (create_comment id content) =
    some (with_body post (image_path id (word "comments" ∷ [])) (("content", text content) ∷ []))
images_api (delete_comment id cid) =
    some (request delete (image_path id (word "comments" ∷ number cid ∷ [])))
images_api (list_public_comments id) =
    some (request get (word "public" ∷ image_path id (word "comments" ∷ [])))
images_api _ = none

-- tagsAPI
abbrev tags_api : Call → Option Request
tags_api list_tags = some (request get (word "tags" ∷ []))
tags_api (create_tag name color) =
    some (with_body post (word "tags" ∷ []) (("name", text name) ∷ ("color", text color) ∷ []))
tags_api (delete_tag id) = some (request delete (word "tags" ∷ number id ∷ []))
tags_api _ = none

-- adminAPI
abbrev admin_api : Call → Option Request
admin_api stats = some (request get (word "admin" ∷ word "stats" ∷ []))
admin_api tag_stats = some (request get (word "admin" ∷ word "stats" ∷ word "tags" ∷ []))
admin_api upload_trend = some (request get (word "admin" ∷ word "stats" ∷ word "upload-trend" ∷ []))
admin_api (list_users p l s) =
    some (with_params get (word "admin" ∷ word "users" ∷ []) (search_params p l s))
admin_api (update_user id role) = some (
    with_body patch (word "admin" ∷ word "users" ∷ number id ∷ [])
      (("role", text (codes role)) ∷ []))
admin_api (reset_user_password id password) = some (
    with_body patch (word "admin" ∷ word "users" ∷ number id ∷ word "password" ∷ [])
      (("password", text password) ∷ []))
admin_api (list_all_images p l s) =
    some (with_params get (word "admin" ∷ word "images" ∷ []) (search_params p l s))
admin_api (delete_any_image id) =
    some (request delete (word "admin" ∷ word "images" ∷ number id ∷ []))
admin_api _ = none

-- authAPI
abbrev auth_api : Call → Option Request
auth_api (login email password) = some (
    with_body post (word "auth" ∷ word "login" ∷ [])
      (("email", text email) ∷ ("password", text password) ∷ []))
auth_api (register username email password) = some (
    with_body post (word "auth" ∷ word "register" ∷ [])
      (("username", text username) ∷ ("email", text email) ∷ ("password", text password) ∷ []))
auth_api (refresh token) =
    some (with_body post (word "auth" ∷ word "refresh" ∷ []) (("refresh_token", text token) ∷ []))
auth_api (logout token) =
    some (with_body post (word "auth" ∷ word "logout" ∷ []) (("refresh_token", text token) ∷ []))
auth_api me = some (request get (word "auth" ∷ word "me" ∷ []))
auth_api _ = none

-- The request of a call, by the object that declares it.
abbrev pub mobile_request_of : Call → Option Request
mobile_request_of c =
    first_some (images_api c) (first_some (tags_api c) (first_some (admin_api c) (auth_api c)))

-- What goes out of a request: values that are `undefined` do not.
unfoldable pub defined : List (String × Value) → List (String × Value)
defined [] = []
defined ((k, undefined) ∷ vs) = defined vs
defined ((k, text t) ∷ vs) = (k, text t) ∷ defined vs
defined ((k, nat n) ∷ vs) = (k, nat n) ∷ defined vs
defined ((k, nats ns) ∷ vs) = (k, nats ns) ∷ defined vs
defined ((k, texts ts) ∷ vs) = (k, texts ts) ∷ defined vs
defined ((k, flag b) ∷ vs) = (k, flag b) ∷ defined vs

abbrev pub sent_of : Request → Request
sent_of q = record q { params = defined q.params; body = defined q.body }

-- What a call of the mobile client sends, if it has the call.
abbrev SendsAs : Option Request → Option Request → Type 0
SendsAs none web = Unit
SendsAs (some q) none = ⊥
SendsAs (some q) (some r) = sent_of q ≡ sent_of r

call-SendsAs : (c : Call) → SendsAs (mobile_request_of c) (request_of c)
unfolding defined
call-SendsAs (upload f ts) = tt
call-SendsAs (batch_delete ids) = tt
call-SendsAs (update_image id none none none) = refl
call-SendsAs (update_image id none (some a) none) = refl
call-SendsAs (update_image id (some n) none none) = refl
call-SendsAs (update_image id (some n) (some a) none) = refl
call-SendsAs (update_image id name alt (some p)) = tt
call-SendsAs _ = refl

SendsAs-elim :
    (o p : Option Request) (q : Request)
    → SendsAs o p
    → o ≡ some q
    → (r : Request) × (p ≡ some r) × (sent_of q ≡ sent_of r)
SendsAs-elim none p q h e = absurd (cc)
SendsAs-elim (some q') none q h e = absurd h
SendsAs-elim (some q') (some r) q h e = (r, refl, ap sent_of (sym (some-injective q' q e)) ∙ h)

handlers-sent_of : (q : Request) → handlers q ≡ handlers (sent_of q)
unfolding handlers
handlers-sent_of q = refl

-- Whatever the mobile client asks of the backend, the web client's call of the same name asks by the
-- same request, values that are not sent aside, so that it reaches the same one handler.
pub mobile_call_is_the_web_call :
    (c : Call) (q : Request)
    → mobile_request_of c ≡ some q
    → (r : Request) × (request_of c ≡ some r)
      × (sent_of q ≡ sent_of r)
      × (handlers q ≡ meant_for c ∷ [])
mobile_call_is_the_web_call c q e =
    let (r, f, g) = SendsAs-elim _ _ q (call-SendsAs c) e in
    let (r', f', h) = call_reaches_its_handler c in
    (
      r,
      f,
      g,
      handlers-sent_of q
          ∙ ap handlers g
          ∙ sym (handlers-sent_of r)
          ∙ ap handlers (some-injective r r' (sym f ∙ f'))
          ∙ h,
    )
