-- ===== src/Comments/View.antt =====
-- What the comments' section shows.
use zhici_photo_upload_platf.Auth.{User, is_admin_role}
use zhici_photo_upload_platf.Comments.{
  Comment, Env, Msg, State, code_points, key_down, remove, set_draft, submit,
}
use zhici_photo_upload_platf.Prelude.{
  Bool, Inline, List, Node, Option, Text, [], box, button, codes, date_time, false, flat_map,
  if◌then◌else◌, label, length, link, lit, ltb, none, not, num, or_else, some, take, text_area,
  trim, true, truthy, txt, upper, when, ◌&&◌, ◌++◌, ◌==◌, ◌||◌, ◌∷◌,
}

-- `(name || '?')[0]`.
abbrev pub initial_of : Option Text → Text
initial_of n = take 1 (or_else n (codes "?"))

abbrev pub username_of : Option User → Option Text
username_of none = none
username_of (some u) = some u.username

abbrev pub text_of : Option Text → List Inline
text_of none = []
text_of (some t) = txt t ∷ []

-- `user?.id === c.user_id || user?.role === 'admin'`.
unfoldable pub may_delete : Option User → Comment → Bool
may_delete none c = false
may_delete (some u) c = u.id == c.user_id || is_admin_role u.role

unfoldable pub comment_item : Option User → Comment → List (Node Msg)
unfolding may_delete
comment_item u c =
    label "cm-avatar" (upper (initial_of c.username) ∷ [])
    ∷ label "cm-username" (text_of c.username)
    ∷ label "cm-time" (date_time c.created_at ∷ [])
    ∷ label "cm-content" (txt c.content ∷ [])
    ∷ when (may_delete u c) (button "cm-delete" true (lit "✕" ∷ []) (remove c.id) ∷ [])

unfoldable pub entry : Env → State → List (Node Msg)
entry env s =
    if env.is_authenticated
    then label "cm-avatar-me" (upper (initial_of (username_of env.user)) ∷ [])
      ∷ text_area "cm-textarea" s.draft set_draft key_down
      ∷ box ("cm-counter" ∷ when (ltb 1000 (code_points s.draft)) ("cm-counter-over" ∷ []))
      ∷ label "cm-counter" (num (code_points s.draft) ∷ lit "/1000" ∷ [])
      ∷ button "cm-submit" (truthy (trim s.draft) && not s.pending) (lit "发送" ∷ []) submit
      ∷ []
    else link "" "/login" (lit "登录" ∷ []) ∷ label "cm-login-hint" (lit "后即可评论" ∷ []) ∷ []

unfoldable pub view_section : Env → State → List (Node Msg)
unfolding comment_item entry
view_section env s =
    label "cm-title" (lit "评论 " ∷ num (length env.comments) ∷ [])
    ∷ (flat_map (comment_item env.user) env.comments
        ++ (when (not env.is_loading && length env.comments == 0)
              (label "cm-empty" (lit "暂无评论，来说点什么吧" ∷ []) ∷ [])
            ++ entry env s))
