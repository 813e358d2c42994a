-- ===== src/SignIn/View.antt =====
-- What the two forms show. Whether a field is focused only moves a line, and is left out.
use zhici_photo_upload_platf.Prelude.{
  Bool, Inline, List, Node, Option, String, Text, [], box, button, codes, false, if◌then◌else◌,
  input, label, link, lit, map, none, not, secret, some, true, txt, when, ◌&&◌, ◌++◌, ◌==◌, ◌∷◌,
}
use zhici_photo_upload_platf.SignIn.{
  Form, Msg, set_email, set_password, set_username, submit, toggle_eye,
}

unfoldable pub field_error : Option String → List (Node Msg)
field_error none = []
field_error (some e) = label "au-field-err" (lit e ∷ []) ∷ []

abbrev has_error : Option String → Bool
has_error none = false
has_error (some e) = true

-- `isPwd && !showPwd ? 'password' : 'text'`.
unfoldable pub entry_field : Bool → Bool → String → Text → (Text → Msg) → Node Msg
entry_field is_password shown placeholder value on_change =
    if is_password && not shown
    then secret placeholder value on_change
    else input placeholder value on_change

-- A `Field`: its label, its entry field with the placeholder, the eye of a password, and its error.
unfoldable pub field :
    Bool → Bool → String → String → Text → (Text → Msg) → Option String → List (Node Msg)
unfolding field_error entry_field
field is_password shown caption placeholder value on_change err =
    label "au-label" (lit caption ∷ [])
    ∷ box ("au-input" ∷ when (has_error err) ("err" ∷ []))
    ∷ entry_field is_password shown placeholder value on_change
    ∷ (when is_password (button "au-eye" true [] toggle_eye ∷ []) ++ field_error err)

unfoldable pub form_error : List Inline → List (Node Msg)
form_error [] = []
form_error (e ∷ es) = label "au-form-err" (e ∷ es) ∷ []

unfoldable pub login_form : Form → List (Node Msg)
unfolding field form_error
login_form f =
    field false false "Email" "you@example.com" f.email set_email f.errors.email
    ++ (field true f.show_password "Password" "••••••••" f.password set_password f.errors.password
        ++ (form_error f.errors.form
            ++ button "au-submit" (not f.loading) (lit (if f.loading then "登录中…" else "登 录 →") ∷ [])
                submit
              ∷ label "au-switch" (lit "还没有账号？" ∷ [])
              ∷ link "au-switch-link" "/register" (lit "立即注册" ∷ [])
              ∷ []))

unfoldable pub register_form : Form → List (Node Msg)
unfolding field form_error
register_form f =
    field false false "Username" "你的昵称" f.username set_username f.errors.username
    ++ (field false false "Email" "you@example.com" f.email set_email f.errors.email
        ++ (field true f.show_password "Password" "至少 6 位" f.password set_password f.errors.password
            ++ (form_error f.errors.form
                ++ button "au-submit" (not f.loading)
                    (lit (if f.loading then "注册中…" else "注 册 →") ∷ []) submit
                  ∷ label "au-switch" (lit "已有账号？" ∷ [])
                  ∷ link "au-switch-link" "/login" (lit "立即登录" ∷ [])
                  ∷ [])))

-- `AnimatedChars`: one element for each character, a space as one that does not break.
unfoldable pub animated_chars : Text → List (Node Msg)
animated_chars = map (λ c. label "" (txt ((if c == 32 then 0xa0 else c) ∷ []) ∷ []))

-- `AuthLayout` around a form: the brand's side and the tabs.
unfoldable pub layout : Bool → List (Node Msg) → List (Node Msg)
unfolding animated_chars
layout is_login form =
    label "au-brand-logo" (lit "赤子の相册" ∷ [])
    ∷ link "au-brand-back" "/" (lit "← 返回首页" ∷ [])
    ∷ label "au-brand-kana" (lit (if is_login then "归 来 · 或 是 启 程" else "加 入 · 赤 子 后 花 园") ∷ [])
    ∷ ((if is_login
          then animated_chars (codes "登入这座" ++ (codes "影像的" ++ (codes "后花园" ++ codes "。")))
          else animated_chars (codes "留下你的" ++ (codes "第一帧" ++ (codes "印记" ++ codes "。"))))
        ++ label "au-brand-quote" (
            lit (
              if is_login
              then "\"Memory is the seamstress, and a capricious one at that.\""
              else "\"Every artist was first an amateur.\"")
            ∷ lit (if is_login then "— Virginia Woolf, Orlando" else "— Ralph Waldo Emerson")
            ∷ [])
          ∷ label "au-brand-bot" (lit "EST. 2025" ∷ lit "赤 子 剧 社" ∷ [])
          ∷ label "au-seal-inner" (lit "赤" ∷ [])
          ∷ box ("au-tab" ∷ when is_login ("on" ∷ []))
          ∷ link "au-tab" "/login" (lit "登 录" ∷ [])
          ∷ box ("au-tab" ∷ when (not is_login) ("on" ∷ []))
          ∷ link "au-tab" "/register" (lit "注 册" ∷ [])
          ∷ form)
