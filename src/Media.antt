-- ===== src/Media.antt =====
-- What the pages read of the backend's answers, and the effects of their handlers: calls, messages to
-- the user, stale queries and navigation.
use zhici_photo_upload_platf.Api.{Call}
use zhici_photo_upload_platf.Auth.{User}
use zhici_photo_upload_platf.Prelude.{
  Bool, Inline, List, Option, String, Text, [], if◌then◌else◌, lit, none, not, some, true, truthy,
  txt, ℕ, ◌&&◌, ◌==◌, ◌∷◌,
}

-- A tag of the tag list.
pub record Tag : Type 0 where
  pub id : ℕ
  pub name : Text
  pub color : Option Text
  pub count : Option ℕ

-- A tag of an image.
pub record ImageTag : Type 0 where
  pub id : ℕ
  pub name : Text
  pub active : Bool
  pub count : ℕ

pub record Image : Type 0 where
  pub id : ℕ
  pub filename : Text
  pub url : Text
  pub thumbnail_url : Option Text
  pub download_url : Option Text
  pub alt_text : Option Text
  pub username : Option Text
  pub mime_type : Option Text
  pub file_size : ℕ
  pub width : Option ℕ
  pub height : Option ℕ
  pub view_count : Option ℕ
  pub created_at : Text
  pub tags : List ImageTag

pub data Place : Type 0 where
  page_at : String → Place
  -- a page with the query of its address
  page_with : (path query : String) → Place
  image_page : ℕ → Place
  back : Place

pub data Effect : Type 0 where
  call : Call → Effect
  success error warning notice : List Inline → Effect
  -- `invalidateQueries` of a key, with its number if it has one
  invalidate : String → Option ℕ → Effect
  navigate : Place → Effect
  -- `setTimeout` with a delay in milliseconds
  later : ℕ → Effect → Effect
  copy_text : Text → Effect
  copy_inline : List Inline → Effect
  -- `setAuth` and `clearAuth` of the session's store
  start_session : (access refresh : Text) → User → Effect
  end_session : Effect
  -- `setTimeout` of a change of the page's own state, in milliseconds
  timer : ℕ → Effect
  -- `URL.revokeObjectURL` of a preview
  revoke_url : ℕ → Effect

-- `a ?? 0`.
abbrev pub or_zero : Option ℕ → ℕ
or_zero none = 0
or_zero (some n) = n

-- `err.response?.data?.message || '…'`.
abbrev pub error_text : Option Text → String → List Inline
error_text none default = lit default ∷ []
error_text (some []) default = lit default ∷ []
error_text (some (c ∷ s)) default = txt (c ∷ s) ∷ []

abbrev full_stop : ℕ
full_stop = b'.'

no_dot : Text → Bool
no_dot [] = true
no_dot (c ∷ s) = not (c == full_stop) && no_dot s

-- `name.replace(/\.[^.]+$/, '')`: the leftmost dot with a text after it that has no dot, and that
-- text, are dropped.
unfoldable pub strip_extension : Text → Text
unfolding no_dot
strip_extension [] = []
strip_extension (c ∷ s) =
    if c == full_stop && truthy s && no_dot s then [] else c ∷ strip_extension s
