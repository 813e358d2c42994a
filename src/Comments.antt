-- ===== src/Comments.antt =====
-- frontend/src/components/comments/CommentsSection.tsx: the comments below an image.
pub mod View
pub mod Laws
mod Tests
use zhici_photo_upload_platf.Api.{
  Call, create_comment, delete_comment, list_comments, list_public_comments,
}
use zhici_photo_upload_platf.Auth.{User, user}
use zhici_photo_upload_platf.Auth.Laws.{next}
use zhici_photo_upload_platf.Gallery.View.{content}
use zhici_photo_upload_platf.Media.{Effect, call, error, error_text, invalidate, success}
use zhici_photo_upload_platf.Prelude.{
  Bool, List, Option, String, Text, [], false, if◌then◌else◌, leb, lit, ltb, not, some, str_eq, suc,
  trim, true, ℕ, ◌&&◌, ◌∷◌,
}
use zhici_photo_upload_platf.Upload.{pending}

pub record Comment : Type 0 where
  pub id : ℕ
  pub user_id : ℕ
  pub username : Option Text
  pub content : Text
  pub created_at : Text

-- The component's own state, and whether the call that creates a comment is pending.
pub record State : Type 0 where
  pub draft : Text
  pub pending : Bool

-- What the component reads: its properties, the session's user and the query's result.
pub record Env : Type 0 where
  pub image_id : ℕ
  pub is_authenticated : Bool
  pub user : Option User
  pub is_loading : Bool
  pub comments : List Comment

pub data Msg : Type 0 where
  set_draft : Text → Msg
  key_down : (key : String) (shift : Bool) → Msg
  submit : Msg
  remove : ℕ → Msg
  -- the answers: whether it went well, and the message of an error's response
  created : Bool → Option Text → Msg
  removed : Bool → Msg

unfoldable pub initial : State
initial = record { draft = []; pending = false }

-- The query for the comments.
unfoldable pub comments_query : Env → Call
comments_query env =
    if env.is_authenticated then list_comments env.image_id else list_public_comments env.image_id

-- A code unit that begins a surrogate pair, and one that ends it.
abbrev pub is_high : ℕ → Bool
is_high c = leb 0xd800 c && leb c 0xdbff

abbrev pub is_low : ℕ → Bool
is_low c = leb 0xdc00 c && leb c 0xdfff

-- `[...text].length`: code points, a surrogate pair as one.
unfoldable pub code_points : Text → ℕ
code_points [] = 0
code_points (c ∷ []) = 1
code_points (c ∷ d ∷ s) =
    let rest = code_points s in
    let next = code_points (d ∷ s) in if is_high c && is_low d then suc rest else suc next

-- `handleSubmit`. That a call is pending is not asked.
submit_draft : Env → Text → State → State × List Effect
unfolding code_points
submit_draft env [] s = (s, [])
submit_draft env (c ∷ trimmed) s =
    if ltb 1000 (code_points (c ∷ trimmed))
    then (s, error (lit "最多 1000 字" ∷ []) ∷ [])
    else (record s { pending = true }, call (create_comment env.image_id (c ∷ trimmed)) ∷ [])

abbrev created_answer : Env → Bool → Option Text → State → State × List Effect
created_answer env true message s = (
  record { draft = []; pending = false },
  invalidate "comments" (some env.image_id) ∷ success (lit "已评论" ∷ []) ∷ [],
)
created_answer env false message s =
    (record s { pending = false }, error (error_text message "评论失败") ∷ [])

abbrev removed_answer : Env → Bool → List Effect
removed_answer env true = invalidate "comments" (some env.image_id) ∷ success (lit "已删除" ∷ []) ∷ []
removed_answer env false = []

unfoldable pub update : Env → Msg → State → State × List Effect
unfolding submit_draft
update env (set_draft t) s = (record s { draft = t }, [])
update env (key_down key shift) s =
    if str_eq key "Enter" && not shift then submit_draft env (trim s.draft) s else (s, [])
update env submit s = submit_draft env (trim s.draft) s
update env (remove id) s = (s, call (delete_comment env.image_id id) ∷ [])
update env (created ok message) s = created_answer env ok message s
update env (removed ok) s = (s, removed_answer env ok)
