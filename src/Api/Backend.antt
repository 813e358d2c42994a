-- ===== src/Api/Backend.antt =====
-- backend/internal/router/router.go: the routes that the calls are made to.
use zhici_photo_upload_platf.Api.{
  Call, Method, Request, Segment, add_tags, admin_api, auth_api, batch_delete, create_comment,
  create_tag, delete, delete_any_image, delete_comment, delete_image, delete_tag, get, get_image,
  get_public, images_api, list, list_all_images, list_comments, list_public, list_public_comments,
  list_tags, list_users, login, logout, me, patch, post, refresh, register, remove_tag,
  reset_user_password, stats, tag_stats, tags_api, toggle_tag, update_image, update_user, upload,
  upload_trend, word,
}
use zhici_photo_upload_platf.Prelude.{
  Bool, List, Option, String, [], false, keep, map, none, refl, some, str_eq, true, ◌&&◌, ◌++◌, ◌∷◌,
  ◌≡◌,
}

-- Who may use a route: anyone, anyone with a valid token, or an administrator.
pub data Access : Type 0 where
  anyone signed_in admin_only : Access

-- A part of a route's pattern: a word, or a parameter such as `:id`.
pub data Part : Type 0 where
  fixed : String → Part
  param : Part

pub record Route : Type 0 where
  pub method : Method
  pub pattern : List Part
  pub access : Access
  pub handler : String

abbrev route : Method → List Part → Access → String → Route
route m p a h = record { method = m; pattern = p; access = a; handler = h }

abbrev auth_routes : List Route
auth_routes =
    route post (fixed "auth" ∷ fixed "register" ∷ []) anyone "authH.Register"
    ∷ route post (fixed "auth" ∷ fixed "login" ∷ []) anyone "authH.Login"
    ∷ route post (fixed "auth" ∷ fixed "refresh" ∷ []) anyone "authH.Refresh"
    ∷ route post (fixed "auth" ∷ fixed "logout" ∷ []) anyone "authH.Logout"
    ∷ route get (fixed "public" ∷ fixed "images" ∷ []) anyone "imageH.ListPublic"
    ∷ route get (fixed "public" ∷ fixed "images" ∷ param ∷ []) anyone "imageH.GetPublic"
    ∷ route get (fixed "public" ∷ fixed "images" ∷ param ∷ fixed "comments" ∷ []) anyone
        "commentH.List"
    ∷ route get (fixed "auth" ∷ fixed "me" ∷ []) signed_in "authH.Me"
    ∷ []

abbrev image_routes : List Route
image_routes =
    route post (fixed "images" ∷ fixed "upload" ∷ []) signed_in "imageH.Upload"
    ∷ route get (fixed "images" ∷ []) signed_in "imageH.List"
    ∷ route get (fixed "images" ∷ param ∷ []) signed_in "imageH.Get"
    ∷ route get (fixed "images" ∷ param ∷ fixed "download" ∷ []) signed_in "imageH.Download"
    ∷ route delete (fixed "images" ∷ param ∷ []) signed_in "imageH.Delete"
    ∷ route patch (fixed "images" ∷ param ∷ []) signed_in "imageH.Update"
    ∷ route post (fixed "images" ∷ param ∷ fixed "tags" ∷ []) signed_in "imageH.AddTags"
    ∷ route delete (fixed "images" ∷ param ∷ fixed "tags" ∷ param ∷ []) signed_in "imageH.RemoveTag"
    ∷ route post (fixed "images" ∷ param ∷ fixed "toggle-tag" ∷ []) signed_in "imageH.ToggleTag"
    ∷ route post (fixed "images" ∷ fixed "batch-delete" ∷ []) signed_in "imageH.BatchDelete"
    ∷ route get (fixed "images" ∷ param ∷ fixed "comments" ∷ []) signed_in "commentH.List"
    ∷ route post (fixed "images" ∷ param ∷ fixed "comments" ∷ []) signed_in "commentH.Create"
    ∷ route delete (fixed "images" ∷ param ∷ fixed "comments" ∷ param ∷ []) signed_in
        "commentH.Delete"
    ∷ []

abbrev admin_routes : List Route
admin_routes =
    route get (fixed "tags" ∷ []) signed_in "tagH.List"
    ∷ route post (fixed "tags" ∷ []) signed_in "tagH.Create"
    ∷ route delete (fixed "tags" ∷ param ∷ []) admin_only "tagH.Delete"
    ∷ route get (fixed "admin" ∷ fixed "stats" ∷ []) admin_only "adminH.Stats"
    ∷ route get (fixed "admin" ∷ fixed "stats" ∷ fixed "tags" ∷ []) admin_only "adminH.TagStats"
    ∷ route get (fixed "admin" ∷ fixed "stats" ∷ fixed "upload-trend" ∷ []) admin_only
        "adminH.UploadTrend"
    ∷ route post (fixed "admin" ∷ fixed "sync" ∷ []) admin_only "adminH.SyncTag"
    ∷ route get (fixed "admin" ∷ fixed "sync" ∷ fixed "status" ∷ []) admin_only "adminH.SyncStatus"
    ∷ route get (fixed "admin" ∷ fixed "users" ∷ []) admin_only "adminH.ListUsers"
    ∷ route patch (fixed "admin" ∷ fixed "users" ∷ param ∷ []) admin_only "adminH.UpdateUser"
    ∷ route patch (fixed "admin" ∷ fixed "users" ∷ param ∷ fixed "password" ∷ []) admin_only
        "adminH.ResetUserPassword"
    ∷ route get (fixed "admin" ∷ fixed "images" ∷ []) admin_only "adminH.ListImages"
    ∷ route delete (fixed "admin" ∷ fixed "images" ∷ param ∷ []) admin_only "adminH.DeleteImage"
    ∷ []

-- The routes under `/api/v1`.
unfoldable pub setup : List Route
setup = auth_routes ++ image_routes ++ admin_routes

same_method : Method → Method → Bool
same_method get get = true
same_method post post = true
same_method patch patch = true
same_method delete delete = true
same_method _ _ = false

-- A number is never one of the routes' words.
fits : List Part → List Segment → Bool
fits [] [] = true
fits (fixed w ∷ ps) (word v ∷ ss) = str_eq w v && fits ps ss
fits (param ∷ ps) (s ∷ ss) = fits ps ss
fits _ _ = false

route_fits : Request → Route → Bool
unfolding same_method fits
route_fits q r = same_method r.method q.method && fits r.pattern q.path

-- The handlers whose routes fit a request, with the access that each asks for.
unfoldable pub handlers : Request → List (Access × String)
unfolding setup route_fits
handlers q = map (λ r. (r.access, r.handler)) (keep (route_fits q) setup)

-- The handler that each call is meant for.
abbrev pub meant_for : Call → Access × String
meant_for (upload f ts) = (signed_in, "imageH.Upload")
meant_for (list p) = (signed_in, "imageH.List")
meant_for (list_public p) = (anyone, "imageH.ListPublic")
meant_for (get_image id) = (signed_in, "imageH.Get")
meant_for (get_public id) = (anyone, "imageH.GetPublic")
meant_for (update_image id name alt public) = (signed_in, "imageH.Update")
meant_for (delete_image id) = (signed_in, "imageH.Delete")
meant_for (batch_delete ids) = (signed_in, "imageH.BatchDelete")
meant_for (toggle_tag id t) = (signed_in, "imageH.ToggleTag")
meant_for (add_tags id ts) = (signed_in, "imageH.AddTags")
meant_for (remove_tag id t) = (signed_in, "imageH.RemoveTag")
meant_for (list_comments id) = (signed_in, "commentH.List")
meant_for (list_public_comments id) = (anyone, "commentH.List")
meant_for (create_comment id c) = (signed_in, "commentH.Create")
meant_for (delete_comment id c) = (signed_in, "commentH.Delete")
meant_for list_tags = (signed_in, "tagH.List")
meant_for (create_tag n c) = (signed_in, "tagH.Create")
meant_for (delete_tag id) = (admin_only, "tagH.Delete")
meant_for stats = (admin_only, "adminH.Stats")
meant_for tag_stats = (admin_only, "adminH.TagStats")
meant_for upload_trend = (admin_only, "adminH.UploadTrend")
meant_for (list_users p l s) = (admin_only, "adminH.ListUsers")
meant_for (update_user id r) = (admin_only, "adminH.UpdateUser")
meant_for (reset_user_password id p) = (admin_only, "adminH.ResetUserPassword")
meant_for (list_all_images p l s) = (admin_only, "adminH.ListImages")
meant_for (delete_any_image id) = (admin_only, "adminH.DeleteImage")
meant_for (login e p) = (anyone, "authH.Login")
meant_for (register u e p) = (anyone, "authH.Register")
meant_for (refresh t) = (anyone, "authH.Refresh")
meant_for (logout t) = (anyone, "authH.Logout")
meant_for me = (signed_in, "authH.Me")

abbrev pub first_some : Option Request → Option Request → Option Request
first_some none r = r
first_some (some q) r = some q

-- The request of a call, by the object that declares it.
abbrev pub request_of : Call → Option Request
request_of c =
    first_some (images_api c) (first_some (tags_api c) (first_some (admin_api c) (auth_api c)))

-- Each call of the web client sends a request that fits the route of its handler and no other route
-- of the backend, whatever numbers, texts and lists it is given.
pub call_reaches_its_handler :
    (c : Call) → (q : Request) × (request_of c ≡ some q) × (handlers q ≡ meant_for c ∷ [])
unfolding handlers
call_reaches_its_handler (upload f []) = (_, refl, refl)
call_reaches_its_handler (upload f (t ∷ ts)) = (_, refl, refl)
call_reaches_its_handler _ = (_, refl, refl)
