-- ===== src/Api.antt =====
-- frontend/src/api/images.ts, tags.ts, admin.ts and auth.ts: the calls of the web client, and the
-- request that each sends below `/api/v1`.
pub mod Backend
mod Tests
use zhici_photo_upload_platf.Prelude.{
  Bool, List, Option, String, Text, [], codes, none, some, ℕ, ◌∷◌,
}

pub data Method : Type 0 where
  get post patch delete : Method

-- A part of a path between slashes: a word of the source, or a number that is put in.
pub data Segment : Type 0 where
  word : String → Segment
  number : ℕ → Segment

pub data Value : Type 0 where
  text : Text → Value
  nat : ℕ → Value
  nats : List ℕ → Value
  texts : List Text → Value
  flag : Bool → Value
  -- `undefined`, which is not sent
  undefined : Value

pub record Request : Type 0 where
  pub method : Method
  pub path : List Segment
  pub params : List (String × Value)
  pub body : List (String × Value)

-- The parameters of the image lists.
pub record ListParams : Type 0 where
  pub page : ℕ
  pub limit : ℕ
  pub tag : Option Text
  pub search : Option Text
  pub sort : Option String

pub data Call : Type 0 where
  -- imagesAPI
  upload : (file : ℕ) (tags : List Text) → Call
  list list_public : ListParams → Call
  get_image get_public : ℕ → Call
  update_image : (id : ℕ) (filename alt_text : Option Text) (is_public : Option Bool) → Call
  delete_image : ℕ → Call
  batch_delete : List ℕ → Call
  toggle_tag : (id tag_id : ℕ) → Call
  add_tags : ℕ → List Text → Call
  remove_tag : (image_id tag_id : ℕ) → Call
  list_comments list_public_comments : ℕ → Call
  create_comment : ℕ → Text → Call
  delete_comment : (image_id comment_id : ℕ) → Call
  -- tagsAPI
  list_tags : Call
  create_tag : (name color : Text) → Call
  delete_tag : ℕ → Call
  -- adminAPI
  stats tag_stats upload_trend : Call
  list_users : (page : Option ℕ) (limit : ℕ) (search : Option Text) → Call
  update_user : (id : ℕ) (role : String) → Call
  reset_user_password : ℕ → Text → Call
  list_all_images : (page : Option ℕ) (limit : ℕ) (search : Option Text) → Call
  delete_any_image : ℕ → Call
  -- authAPI
  login : (email password : Text) → Call
  register : (username email password : Text) → Call
  refresh logout : Text → Call
  me : Call

abbrev pub optional : Option Text → Value
optional none = undefined
optional (some t) = text t

abbrev optional_flag : Option Bool → Value
optional_flag none = undefined
optional_flag (some b) = flag b

abbrev optional_word : Option String → Value
optional_word none = undefined
optional_word (some t) = text (codes t)

abbrev pub request : Method → List Segment → Request
request m p = record { method = m; path = p; params = []; body = [] }

abbrev pub with_params : Method → List Segment → List (String × Value) → Request
with_params m p ps = record { method = m; path = p; params = ps; body = [] }

abbrev pub with_body : Method → List Segment → List (String × Value) → Request
with_body m p vs = record { method = m; path = p; params = []; body = vs }

-- `tags` stands in the form only if there are any; the file is named by the entry that it is of.
abbrev pub upload_form : ℕ → List Text → List (String × Value)
upload_form file [] = ("files", nat file) ∷ []
upload_form file (t ∷ ts) = ("files", nat file) ∷ ("tags", texts (t ∷ ts)) ∷ []

abbrev pub list_params : ListParams → List (String × Value)
list_params p =
    ("page", nat p.page)
    ∷ ("limit", nat p.limit)
    ∷ ("search", optional p.search)
    ∷ ("tag", optional p.tag)
    ∷ ("sort", optional_word p.sort)
    ∷ []

abbrev optional_nat : Option ℕ → Value
optional_nat none = undefined
optional_nat (some n) = nat n

abbrev pub search_params : Option ℕ → ℕ → Option Text → List (String × Value)
search_params page limit search =
    ("page", optional_nat page) ∷ ("limit", nat limit) ∷ ("search", optional search) ∷ []

abbrev pub image_path : ℕ → List Segment → List Segment
image_path id rest = word "images" ∷ number id ∷ rest

-- imagesAPI
abbrev pub images_api : Call → Option Request
images_api (upload f ts) =
    some (with_body post (word "images" ∷ word "upload" ∷ []) (upload_form f ts))
images_api (list p) = some (with_params get (word "images" ∷ []) (list_params p))
images_api (list_public p) =
    some (with_params get (word "public" ∷ word "images" ∷ []) (list_params p))
images_api (get_image id) = some (request get (image_path id []))
images_api (get_public id) = some (request get (word "public" ∷ image_path id []))
images_api (update_image id name alt public) = some (
    with_body patch (image_path id []) (
      ("filename", optional name)
      ∷ ("alt_text", optional alt)
      ∷ ("is_public", optional_flag public)
      ∷ []))
images_api (delete_image id) = some (request delete (image_path id []))
images_api (batch_delete ids) =
    some (with_body post (word "images" ∷ word "batch-delete" ∷ []) (("ids", nats ids) ∷ []))
images_api (toggle_tag id tag) =
    some (with_body post (image_path id (word "toggle-tag" ∷ [])) (("tag_id", nat tag) ∷ []))
images_api (add_tags id names) =
    some (with_body post (image_path id (word "tags" ∷ [])) (("tag_names", texts names) ∷ []))
images_api (remove_tag id tag) =
    some (request delete (image_path id (word "tags" ∷ number tag ∷ [])))
images_api (list_comments id) = some (request get (image_path id (word "comments" ∷ [])))
images_api (create_comment id content) =
    some (with_body post (image_path id (word "comments" ∷ [])) (("content", text content) ∷ []))
images_api (delete_comment id cid) =
    some (request delete (image_path id (word "comments" ∷ number cid ∷ [])))
images_api (list_public_comments id) =
    some (request get (word "public" ∷ image_path id (word "comments" ∷ [])))
images_api _ = none

-- tagsAPI; the callers of `list` give no search.
abbrev pub tags_api : Call → Option Request
tags_api list_tags = some (with_params get (word "tags" ∷ []) (("search", undefined) ∷ []))
tags_api (create_tag name color) =
    some (with_body post (word "tags" ∷ []) (("name", text name) ∷ ("color", text color) ∷ []))
tags_api (delete_tag id) = some (request delete (word "tags" ∷ number id ∷ []))
tags_api _ = none

-- adminAPI
abbrev pub admin_api : Call → Option Request
admin_api stats = some (request get (word "admin" ∷ word "stats" ∷ []))
admin_api tag_stats = some (request get (word "admin" ∷ word "stats" ∷ word "tags" ∷ []))
admin_api upload_trend = some (request get (word "admin" ∷ word "stats" ∷ word "upload-trend" ∷ []))
admin_api (list_users p l s) =
    some (with_params get (word "admin" ∷ word "users" ∷ []) (search_params p l s))
admin_api (update_user id role) = some (
    with_body patch (word "admin" ∷ word "users" ∷ number id ∷ [])
      (("role", text (codes role)) ∷ []))
admin_api (reset_user_password id password) = some (
    with_body patch (word "admin" ∷ word "users" ∷ number id ∷ word "password" ∷ [])
      (("password", text password) ∷ []))
admin_api (list_all_images p l s) =
    some (with_params get (word "admin" ∷ word "images" ∷ []) (search_params p l s))
admin_api (delete_any_image id) =
    some (request delete (word "admin" ∷ word "images" ∷ number id ∷ []))
admin_api _ = none

-- authAPI
abbrev pub auth_api : Call → Option Request
auth_api (login email password) = some (
    with_body post (word "auth" ∷ word "login" ∷ [])
      (("email", text email) ∷ ("password", text password) ∷ []))
auth_api (register username email password) = some (
    with_body post (word "auth" ∷ word "register" ∷ [])
      (("username", text username) ∷ ("email", text email) ∷ ("password", text password) ∷ []))
auth_api (refresh token) =
    some (with_body post (word "auth" ∷ word "refresh" ∷ []) (("refresh_token", text token) ∷ []))
auth_api (logout token) =
    some (with_body post (word "auth" ∷ word "logout" ∷ []) (("refresh_token", text token) ∷ []))
auth_api me = some (request get (word "auth" ∷ word "me" ∷ []))
auth_api _ = none
