-- ===== src/Mobile/Forms/Laws.antt =====
-- When the forms of the mobile client can be sent, and how they fit those of the web client.
use zhici_photo_upload_platf.SignIn
use zhici_photo_upload_platf.Api.{login, register}
use zhici_photo_upload_platf.Mobile.Device.{call}
use zhici_photo_upload_platf.Mobile.Forms.{
  Form, foot, has_at, login_valid, login_view, register_valid, register_view, submit, to_other,
  update_login, update_register,
}
use zhici_photo_upload_platf.Prelude.{
  Bool, Inline, List, Offers, Offers-append, Offers-append_right, String, Text, [], arith, button,
  false, if◌then◌else◌, inl, inr, is_empty, label, leb, length, lit, not, refl, true, when, ◌&&◌,
  ◌++◌, ◌↔◌, ◌∷◌, ◌≡◌, ◌≢◌,
}
use zhici_photo_upload_platf.SignIn.Email.{is_email_iff}
use zhici_photo_upload_platf.SignIn.Laws.{register_called-IsAccount}

-- The form can be sent: its fields are taken and no call is under way.
abbrev pub CanSend : Bool → Form → Type 0
CanSend valid f = (valid ≡ true) × (f.pending ≡ false)

error-silent :
    (e : List Inline) → Offers submit (when (not (is_empty e)) (label "error" e ∷ [])) → ⊥
error-silent [] o = o
error-silent (i ∷ e) (inl o) = o
error-silent (i ∷ e) (inr o) = o

foot-submit :
    (valid : Bool) (caption other : String) (f : Form)
    → Offers submit (foot valid caption other f) ↔ CanSend valid f
foot-submit valid caption other f =
    let link = button "link" true (lit other ∷ []) to_other ∷ [] in
    let send =
      button "btn" (valid && not f.pending) (if f.pending then [] else lit caption ∷ []) submit in
    (
      λ o.
          elim (Offers-append submit (when (not (is_empty f.error)) (label "error" f.error ∷ []))
            (send ∷ link) o) [
              | inl o' ↦ absurd (error-silent f.error o')
              | inr (inl (o', e)) ↦ ground (arith, o')
              | inr (inr (inl (o', e))) ↦ cc
              | inr (inr (inr o')) ↦ absurd o'
            ],
      λ h.
          Offers-append_right submit (when (not (is_empty f.error)) (label "error" f.error ∷ []))
            (send ∷ link) (inl (ground (arith, h), refl)),
    )

-- No form can be sent while its call is under way.
foot-pending :
    (valid : Bool) (caption other : String) (f : Form)
    → f.pending ≡ true
    → Offers submit (foot valid caption other f)
    → ⊥
foot-pending valid caption other f p o = absurd (cc ((foot-submit valid caption other f).0 o).1)

login_foot :
    (f : Form)
    → Offers submit (login_view f)
    → Offers submit (foot (login_valid f) "登录" "没有账号？注册" f)
unfolding login_view
login_foot f (inl o) = absurd o
login_foot f (inr (inl o)) = absurd o
login_foot f (inr (inr (inl (t, e)))) = absurd (cc)
login_foot f (inr (inr (inr (inl (t, e))))) = absurd (cc)
login_foot f (inr (inr (inr (inr o)))) = o

register_foot :
    (f : Form)
    → Offers submit (register_view f)
    → Offers submit (foot (register_valid f) "注册" "已有账号？登录" f)
unfolding register_view
register_foot f (inl o) = absurd o
register_foot f (inr (inl o)) = absurd o
register_foot f (inr (inr (inl (t, e)))) = absurd (cc)
register_foot f (inr (inr (inr (inl (t, e))))) = absurd (cc)
register_foot f (inr (inr (inr (inr (inl (t, e)))))) = absurd (cc)
register_foot f (inr (inr (inr (inr (inr o))))) = o

-- Each form of the mobile client can be sent exactly when its address has a sign @, its password at
-- least six UTF-16 code units and, for an account, its user name at least two, and no call is under
-- way. Sending it makes the one call with the entered texts, and the form cannot be sent again before
-- the answer, which is good or an error.
pub form_sends :
    (f : Form)
    → (Offers submit (login_view f) ↔ CanSend (has_at f.email && leb 6 (length f.password)) f)
      × (Offers submit (register_view f)
          ↔ CanSend (leb 2 (length f.username) && has_at f.email && leb 6 (length f.password)) f)
      × ((update_login submit f).1 ≡ call (login f.email f.password) ∷ [])
      × ((update_register submit f).1 ≡ call (register f.username f.email f.password) ∷ [])
      × (Offers submit (login_view (update_login submit f).0) → ⊥)
      × (Offers submit (register_view (update_register submit f).0) → ⊥)
unfolding login_view register_view login_valid register_valid update_login update_register
form_sends f =
    let sent = record f { pending = true } in
    let l = foot-submit (login_valid f) "登录" "没有账号？注册" f in
    let r = foot-submit (register_valid f) "注册" "已有账号？登录" f in
    (
      (λ o. l.0 (login_foot f o), λ h. inr (inr (inr (inr (l.1 h))))),
      (λ o. r.0 (register_foot f o), λ h. inr (inr (inr (inr (inr (r.1 h)))))),
      refl,
      refl,
      λ o. foot-pending _ "登录" "没有账号？注册" sent refl (login_foot sent o),
      λ o. foot-pending _ "注册" "已有账号？登录" sent refl (register_foot sent o),
    )

has_at-append : (s t : Text) → has_at (s ++ (b'@' ∷ t)) ≡ true
unfolding has_at
has_at-append [] t = refl
has_at-append (c ∷ s) t = ground (arith, has_at-append s t)

-- For an account that was made in the web client, the form for signing in to the mobile client can be
-- sent with the same address and password.
pub web_account_can_sign_in :
    (g : SignIn.Form) (f : Form)
    → (SignIn.update_register SignIn.submit g).1 ≢ []
    → f.email ≡ g.email
    → f.password ≡ g.password
    → f.pending ≡ false
    → Offers submit (login_view f)
web_account_can_sign_in g f h p q e =
    let v = register_called-IsAccount g h in
    let m = (is_email_iff g.email).0 v.email in
    let a : has_at f.email ≡ true = rw (p, m.parts) (has_at-append m.user _) in
    (form_sends f).0.1 (ground (arith, a, q, v.password), e)
