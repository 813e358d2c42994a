-- ===== src/Mobile/Detail.antt =====
-- mobile/src/screens/ImageDetailScreen.tsx: one image with its tags and comments.
mod Tests
use zhici_photo_upload_platf.Api
use zhici_photo_upload_platf.Api.{
  Call, create_comment, delete_image, get_image, list_comments, list_tags, toggle_tag,
}
use zhici_photo_upload_platf.Auth.{User, user}
use zhici_photo_upload_platf.Comments.{Comment}
use zhici_photo_upload_platf.Comments.View.{initial_of, may_delete, text_of}
use zhici_photo_upload_platf.Media.{Image, ImageTag, Tag}
use zhici_photo_upload_platf.Mobile.Card.{empty_state, tag_chip}
use zhici_photo_upload_platf.Mobile.Device.{Effect, call, go_back, invalidate}
use zhici_photo_upload_platf.Prelude.{
  Bool, List, Node, Option, Text, [], any, box, button, confirm, date_time, file_size, flat_map,
  if◌then◌else◌, image, is_empty, label, length, limited, lit, ltb, map, none, num, some, trim,
  true, truthy, txt, when, ℕ, ◌&&◌, ◌++◌, ◌==◌, ◌∷◌,
}

-- The entry field is the screen's only state.
pub record State : Type 0 where
  pub comment_text : Text

pub record Env : Type 0 where
  pub id : ℕ
  pub user : Option User
  pub img : Option Image
  pub tags : List Tag
  pub comments : List Comment

pub data Msg : Type 0 where
  press_tag : ℕ → Msg
  -- after the confirmation
  delete : Msg
  set_comment : Text → Msg
  send_comment : Msg
  delete_comment : ℕ → Msg
  -- the answers: whether it went well
  toggled commented comment_deleted deleted : Bool → Msg

unfoldable pub detail_queries : Env → List Call
detail_queries env = get_image env.id ∷ list_tags ∷ list_comments env.id ∷ []

-- `handleComment`, with the text that `trim` leaves.
abbrev send_trimmed : Env → Text → State → State × List Effect
send_trimmed env [] s = (s, [])
send_trimmed env (c ∷ t) s =
    if ltb 500 (length (c ∷ t))
    then (s, [])
    else (record { comment_text = [] }, call (create_comment env.id (c ∷ t)) ∷ [])

unfoldable pub update : Env → Msg → State → State × List Effect
update env (press_tag t) s = (s, call (toggle_tag env.id t) ∷ [])
update env delete s = (s, call (delete_image env.id) ∷ [])
update env (set_comment t) s = (record { comment_text = t }, [])
update env send_comment s = send_trimmed env (trim s.comment_text) s
update env (delete_comment c) s = (s, call (Api.delete_comment env.id c) ∷ [])
update env (toggled ok) s = (s, if ok then invalidate "image" (some env.id) ∷ [] else [])
update env (commented ok) s = (s, if ok then invalidate "comments" (some env.id) ∷ [] else [])
update env (comment_deleted ok) s = (s, if ok then invalidate "comments" (some env.id) ∷ [] else [])
update env (deleted ok) s = (s, if ok then go_back ∷ [] else [])

-- `activeTagIds.has(id)`
abbrev is_active : List ImageTag → ℕ → Bool
is_active ts id = any (λ (t : ImageTag). t.active && t.id == id) ts

abbrev uploader : Option Text → List (Node Msg)
uploader none = []
uploader (some []) = []
uploader (some (c ∷ t)) = label "uploader" (lit "上传者: " ∷ txt (c ∷ t) ∷ []) ∷ []

unfoldable pub comment_item : Option User → Comment → List (Node Msg)
unfolding may_delete
comment_item u c =
    label "commentAvatarText" (txt (initial_of c.username) ∷ [])
    ∷ label "commentUser" (text_of c.username)
    ∷ label "commentTime" (date_time c.created_at ∷ [])
    ∷ label "commentContent" (txt c.content ∷ [])
    ∷ when (may_delete u c) (button "commentDelete" true (lit "✕" ∷ []) (delete_comment c.id) ∷ [])

unfoldable pub view_comments : Env → State → List (Node Msg)
unfolding comment_item
view_comments env s =
    label "sectionTitle" (lit "评论 (" ∷ num (length env.comments) ∷ lit ")" ∷ [])
    ∷ ((if is_empty env.comments
          then empty_state "暂无评论"
          else flat_map (comment_item env.user) env.comments)
        ++ (limited "写下评论..." 500 s.comment_text set_comment
            ∷ button "commentSubmit" (truthy (trim s.comment_text)) (lit "发送" ∷ []) send_comment
            ∷ []))

abbrev view_image : Env → Image → State → List (Node Msg)
view_image env img s =
    image "image" img.url []
    ∷ label "filename" (txt img.filename ∷ [])
    ∷ label "meta" (file_size img.file_size ∷ [])
    ∷ label "metaSep" (lit "·" ∷ [])
    ∷ label "meta" (text_of img.mime_type)
    ∷ label "metaSep" (lit "·" ∷ [])
    ∷ label "meta" (date_time img.created_at ∷ [])
    ∷ (uploader img.username
        ++ (label "sectionTitle" (lit "标签" ∷ [])
            ∷ (map (λ (t : Tag). tag_chip (is_active img.tags t.id) t.name (press_tag t.id))
                  env.tags
                ++ (confirm "btn" (lit "确认删除" ∷ []) delete ∷ view_comments env s))))

unfoldable pub view : Env → State → List (Node Msg)
unfolding view_comments
view env s = elim env.img [
  | none ↦ box ("ActivityIndicator" ∷ []) ∷ []
  | some img ↦ view_image env img s
]
