-- ===== src/SignIn/Laws.antt =====
-- What is sent from the forms, and what comes of it.
use zhici_photo_upload_platf.Api.{Call, login, register}
use zhici_photo_upload_platf.Media.{Effect, call}
use zhici_photo_upload_platf.Prelude.{
  &&_both, Bool, Bool-cases, Inline, List, Node, Offers, Option, Sends, String, Text, [], ap, arith,
  button, false, inl, inr, length, ltb, none, not, refl, some, sym, true, truthy, when, ◌&&◌, ◌++◌,
  ◌∙◌, ◌∷◌, ◌≡◌, ◌≢◌, ◌≤◌,
}
use zhici_photo_upload_platf.SignIn.{
  Errors, Form, Msg, Signed, email_error, is_clean, is_email, is_none, login_errors, refused,
  register_errors, registered, set_email, set_password, set_username, signed, submit, submitted,
  toggle_eye, update_login, update_register,
}
use zhici_photo_upload_platf.SignIn.View.{
  entry_field, field, form_error, login_form, register_form, field_error,
}

-- What the form for signing in takes.
pub record IsLogin (f : Form) : Type 0 where
  pub email : is_email f.email ≡ true
  pub password : truthy f.password ≡ true

-- What the form for making an account takes.
pub record IsAccount (f : Form) : Type 0 where
  pub username : 2 ≤ length f.username
  pub email : is_email f.email ≡ true
  pub password : 6 ≤ length f.password

is_none-email_error : (t : Text) → is_none (email_error t) ≡ is_email t
unfolding email_error is_email
is_none-email_error [] = refl
is_none-email_error (c ∷ s) = ground arith

-- The forms' checks, as one test.
is_clean-login : (f : Form) → is_clean (login_errors f) ≡ (is_email f.email && truthy f.password)
unfolding is_clean login_errors
is_clean-login f = ground (arith, is_none-email_error f.email)

is_clean-register :
    (f : Form)
    → is_clean (register_errors f)
      ≡ (not (ltb (length f.username) 2) && is_email f.email && not (ltb (length f.password) 6))
unfolding is_clean register_errors
is_clean-register f = ground (arith, is_none-email_error f.email)

-- What a submission does: with a form that is taken the errors go and the one call is made, and with
-- any other no call is made, the form shows an error and does not wait.
abbrev pub SubmitsBy : Type 0 → Call → Form → Form × List Effect → Type 0
SubmitsBy Ok c f r =
    (Ok → (r.1 ≡ call c ∷ []) × (is_clean r.0.errors ≡ true) × (r.0.loading ≡ true))
    × (¬ Ok → (r.1 ≡ []) × (is_clean r.0.errors ≡ false) × (r.0.loading ≡ f.loading))

submitted-SubmitsBy :
    (Ok : Type 0) (c : Call) (e : Errors) (f : Form)
    → (Ok → is_clean e ≡ true)
    → (is_clean e ≡ true → Ok)
    → SubmitsBy Ok c f (submitted c e f)
submitted-SubmitsBy Ok c e f to from = (
  λ h. rw (to h) (refl, to h, refl),
  λ n. elim (Bool-cases (is_clean e)) [
    | inl p ↦ absurd (n (from p))
    | inr p ↦ rw p (refl, p, refl)
  ],
)

-- Submitting the form for signing in calls the backend with the entered address and password exactly
-- if the address is an e-mail address and there is a password; otherwise no call is made, and the
-- form shows an error and does not begin to wait.
pub login_submits :
    (f : Form) → SubmitsBy (IsLogin f) (login f.email f.password) f (update_login submit f)
unfolding update_login
login_submits f =
    submitted-SubmitsBy (IsLogin f) _ (login_errors f) f
      (λ h. is_clean-login f ∙ ground (arith, h.email, h.password))
      (λ e.
        let (p, q) = &&_both _ _ (sym (is_clean-login f) ∙ e) in record { email = p; password = q })

register_errors-IsAccount : (f : Form) → is_clean (register_errors f) ≡ true → IsAccount f
register_errors-IsAccount f e =
    let k = sym (is_clean-register f) ∙ e in
    record { username = ground arith; email = ground arith; password = ground arith }

-- Submitting the form for an account calls the backend with the entered name, address and password
-- exactly if the name has at least 2 code units, the address is an e-mail address and the password
-- has at least 6 code units; otherwise no call is made, and the form shows an error and does not
-- begin to wait.
pub register_submits :
    (f : Form)
    → SubmitsBy (IsAccount f) (register f.username f.email f.password) f (update_register submit f)
unfolding update_register
register_submits f =
    submitted-SubmitsBy (IsAccount f) _ (register_errors f) f
      (λ h. is_clean-register f ∙ ground (arith, h.username, h.email, h.password))
      (register_errors-IsAccount f)

pub register_called-IsAccount : (f : Form) → (update_register submit f).1 ≢ [] → IsAccount f
unfolding update_register
register_called-IsAccount f h = elim (Bool-cases (is_clean (register_errors f))) [
  | inl p ↦ register_errors-IsAccount f p
  | inr p ↦ absurd (h (rw p refl))
]

-- When the form for an account made a call, the form for signing in with the same address and
-- password makes its call too: there is no account that the web client cannot sign in to.
pub account_can_sign_in :
    (f g : Form)
    → (update_register submit f).1 ≢ []
    → g.email ≡ f.email
    → g.password ≡ f.password
    → (update_login submit g).1 ≡ call (login f.email f.password) ∷ []
account_can_sign_in f g h p q =
    let v = register_called-IsAccount f h in
    ((login_submits g).0
      (record { email = ap is_email p ∙ v.email; password = ground (arith, v.password) })).0
    ∙ ground (arith, p, q)

entry_field-submit :
    (is_password shown : Bool) (placeholder : String) (value : Text) (f : Text → Msg)
    → ((t : Text) → submit ≢ f t)
    → ¬ Sends submit (entry_field is_password shown placeholder value f)
unfolding entry_field
entry_field-submit true true placeholder value f h o = h o.0 o.1
entry_field-submit true false placeholder value f h o = h o.0 o.1
entry_field-submit false shown placeholder value f h o = h o.0 o.1

after_entry-submit :
    (is_password : Bool) (e : Option String) (ns : List (Node Msg))
    → Offers submit
        ((when is_password (button "au-eye" true [] toggle_eye ∷ []) ++ field_error e) ++ ns)
    → Offers submit ns
unfolding field_error
after_entry-submit true none ns (inl o) = absurd (ground arith)
after_entry-submit true none ns (inr o) = o
after_entry-submit true (some e) ns (inl o) = absurd (ground arith)
after_entry-submit true (some e) ns (inr (inl o)) = absurd o
after_entry-submit true (some e) ns (inr (inr o)) = o
after_entry-submit false none ns o = o
after_entry-submit false (some e) ns (inl o) = absurd o
after_entry-submit false (some e) ns (inr o) = o

-- A field, which is changed and not submitted, offers no submission.
field-submit :
    (is_password shown : Bool) (caption placeholder : String) (value : Text) (f : Text → Msg)
    (e : Option String) (ns : List (Node Msg))
    → ((t : Text) → submit ≢ f t)
    → Offers submit (field is_password shown caption placeholder value f e ++ ns)
    → Offers submit ns
unfolding field
field-submit b s caption placeholder value f e ns h (inl o) = absurd o
field-submit b s caption placeholder value f e ns h (inr (inl o)) = absurd o
field-submit b s caption placeholder value f e ns h (inr (inr (inl o))) =
    absurd (entry_field-submit b s placeholder value f h o)
field-submit b s caption placeholder value f e ns h (inr (inr (inr o))) =
    after_entry-submit b e ns o

form_error-submit :
    (e : List Inline) (ns : List (Node Msg)) → Offers submit (form_error e ++ ns) → Offers submit ns
unfolding form_error
form_error-submit [] ns o = o
form_error-submit (i ∷ e) ns (inl o) = absurd o
form_error-submit (i ∷ e) ns (inr o) = o

login_form-submit : (f : Form) → Offers submit (login_form f) → f.loading ≡ false
unfolding login_form
login_form-submit f o =
    let p =
      field-submit false false "Email" "you@example.com" f.email set_email f.errors.email _
        (λ t e. absurd (cc)) o in
    let q =
      field-submit true f.show_password "Password" "••••••••" f.password set_password
        f.errors.password _ (λ t e. absurd (cc)) p in
    ground (arith, form_error-submit f.errors.form _ q)

register_form-submit : (f : Form) → Offers submit (register_form f) → f.loading ≡ false
unfolding register_form
register_form-submit f o =
    let p =
      field-submit false false "Username" "你的昵称" f.username set_username f.errors.username _
        (λ t e. absurd (cc)) o in
    let q =
      field-submit false false "Email" "you@example.com" f.email set_email f.errors.email _
        (λ t e. absurd (cc)) p in
    let r =
      field-submit true f.show_password "Password" "至少 6 位" f.password set_password
        f.errors.password _ (λ t e. absurd (cc)) q in
    ground (arith, form_error-submit f.errors.form _ r)

-- Neither form can be submitted while it waits for an answer, and every answer, good or bad, ends
-- the wait.
pub one_submission_at_a_time :
    (f : Form) (m : Option Text) (s : Signed)
    → (Offers submit (login_form f) → f.loading ≡ false)
      × (Offers submit (register_form f) → f.loading ≡ false)
      × ((update_login (refused m) f).0.loading ≡ false)
      × ((update_login (signed s) f).0.loading ≡ false)
      × ((update_register (refused m) f).0.loading ≡ false)
      × ((update_register registered f).0.loading ≡ false)
unfolding update_login update_register
one_submission_at_a_time f m s =
    (login_form-submit f, register_form-submit f, refl, refl, refl, refl)
