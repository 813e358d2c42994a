-- ===== src/Comments/Laws.antt =====
-- Which comments are sent, how often, and who may delete one.
use zhici_photo_upload_platf.Api.{create_comment}
use zhici_photo_upload_platf.Auth.{User, admin, user, Role, is_admin_role}
use zhici_photo_upload_platf.Comments.{
  Comment, Env, State, code_points, key_down, remove, submit, submit_draft, update,
}
use zhici_photo_upload_platf.Comments.View.{comment_item, entry, may_delete, view_section}
use zhici_photo_upload_platf.Media.{Effect, call, error}
use zhici_photo_upload_platf.Prelude.{
  Any, Bool, List, Offers, Option, Text, [], arith, false, inl, inr, label, lit, refl, some, trim,
  true, when, ℕ, ◌<◌, ◌∷◌, ◌≡◌, ◌≢◌, ◌≤◌, ◌⊎◌, ==_iff, Offers-append, Offers-flat_map, flat_map,
  length, ltb_of_le, ltb_of_lt, none, not, ||_either, ◌&&◌, ◌==◌,
}

-- What may be sent: between 1 and 1000 code points.
abbrev pub Fits : Text → Type 0
Fits t = (t ≢ []) × (code_points t ≤ 1000)

admin_of : (r : Role) → is_admin_role r ≡ true → r ≡ admin
admin_of user h = absurd (cc)
admin_of admin h = refl

-- What handing in a text does: one that fits is sent and awaited; nothing comes of an empty one, and
-- a longer one is only complained of.
abbrev pub HandsIn : Env → Text → State → State × List Effect → Type 0
HandsIn env t s r =
    (Fits t → r ≡ (record s { pending = true }, call (create_comment env.image_id t) ∷ []))
    × (t ≡ [] → r ≡ (s, []))
    × (1000 < code_points t → r ≡ (s, error (lit "最多 1000 字" ∷ []) ∷ []))

submit_draft_lem : (env : Env) (t : Text) (s : State) → HandsIn env t s (submit_draft env t s)
unfolding submit_draft code_points
submit_draft_lem env [] s = (λ h. absurd (h.0 refl), λ e. refl, λ h. absurd (omega (arith, h)))
submit_draft_lem env (c ∷ t) s = (
  λ h. rw (ltb_of_le 1000 (code_points (c ∷ t)) h.1) refl,
  λ e. absurd (cc),
  λ h. rw (ltb_of_lt 1000 (code_points (c ∷ t)) h) refl,
)

-- Pressing the button, and pressing Enter without Shift, both hand in the draft without the white
-- space around it: if 1 to 1000 code points are left they are sent as they are, nothing happens if
-- none is left, and more than 1000 only bring the complaint. Enter with Shift hands in nothing.
pub comment_submits :
    (env : Env) (s : State)
    → HandsIn env (trim s.draft) s (update env submit s)
      × HandsIn env (trim s.draft) s (update env (key_down "Enter" false) s)
      × (update env (key_down "Enter" true) s ≡ (s, []))
unfolding update
comment_submits env s =
    (submit_draft_lem env (trim s.draft) s, submit_draft_lem env (trim s.draft) s, refl)

key-sends :
    (env : Env) (s : State)
    → Fits (trim s.draft)
    → update env (key_down "Enter" false) s
      ≡ (record s { pending = true }, call (create_comment env.image_id (trim s.draft)) ∷ [])
unfolding update
key-sends env s h = (submit_draft_lem env (trim s.draft) s).0 h

submit-entry : (env : Env) (s : State) → Offers submit (entry env s) → s.pending ≡ false
unfolding entry
submit-entry env s o = ground arith

submit-empty :
    (b : Bool) → ¬ Offers submit (when b (label "cm-empty" (lit "暂无评论，来说点什么吧" ∷ []) ∷ []))
submit-empty true (inl o) = o
submit-empty true (inr o) = o
submit-empty false o = o

submit-items :
    (u : Option User) (cs : List Comment) → ¬ Any (λ c. Offers submit (comment_item u c)) cs
unfolding comment_item
submit-items u [] o = o
submit-items u (c ∷ cs) (inl o) = ground arith
submit-items u (c ∷ cs) (inr o) = submit-items u cs o

submit-pending : (env : Env) (s : State) → s.pending ≡ true → ¬ Offers submit (view_section env s)
unfolding view_section
submit-pending env s p (inl o) = o
submit-pending env s p (inr o) =
    elim (Offers-append submit (flat_map (comment_item env.user) env.comments) _ o) [
      | inl k ↦
          submit-items env.user env.comments
            (Offers-flat_map submit (comment_item env.user) env.comments k)
      | inr o ↦
          elim (Offers-append submit (when (not env.is_loading && length env.comments == 0) _) _
            o) [
              | inl k ↦ submit-empty _ k
              | inr k ↦ absurd (let q = submit-entry env s k in ground arith)
            ]
    ]

-- The button waits for the answer to the call before it, but the key does not: where a draft can be
-- sent, pressing Enter twice sends the same comment twice, though the section then offers no button.
pub enter_sends_twice :
    (env : Env) (s : State)
    → Fits (trim s.draft)
    → let first = update env (key_down "Enter" false) s in
      let second = update env (key_down "Enter" false) first.0 in
      (first.1 ≡ call (create_comment env.image_id (trim s.draft)) ∷ [])
      × (second.1 ≡ call (create_comment env.image_id (trim s.draft)) ∷ [])
      × ¬ Offers submit (view_section env first.0)
enter_sends_twice env s h =
    let e = key-sends env s h in
    let pending = record s { pending = true } in
    rw (e, key-sends env pending h) (refl, refl, λ o. submit-pending env pending refl o)

-- Who wrote the comment, or an administrator.
abbrev pub Permitted : Option User → Comment → Type 0
Permitted none c = ⊥
Permitted (some u) c = (u.id ≡ c.user_id) ⊎ (u.role ≡ admin)

may_delete-Permitted : (u : Option User) (c : Comment) → may_delete u c ≡ true → Permitted u c
unfolding may_delete
may_delete-Permitted none c h = absurd (cc)
may_delete-Permitted (some u) c h = elim (||_either _ _ h) [
  | inl p ↦ inl ((==_iff u.id c.user_id).0 p)
  | inr p ↦ inr (admin_of u.role p)
]

remove-entry : (id : ℕ) (env : Env) (s : State) → ¬ Offers (remove id) (entry env s)
unfolding entry
remove-entry id env s o = ground arith

remove-empty :
    (id : ℕ) (b : Bool)
    → ¬ Offers (remove id) (when b (label "cm-empty" (lit "暂无评论，来说点什么吧" ∷ []) ∷ []))
remove-empty id true (inl o) = o
remove-empty id true (inr o) = o
remove-empty id false o = o

remove-items :
    (id : ℕ) (u : Option User) (cs : List Comment)
    → Any (λ c. Offers (remove id) (comment_item u c)) cs
    → Any (λ (c : Comment). (c.id ≡ id) × Permitted u c) cs
unfolding comment_item
remove-items id u [] o = o
remove-items id u (c ∷ cs) (inl o) = inl (ground (arith, may_delete-Permitted u c))
remove-items id u (c ∷ cs) (inr o) = inr (remove-items id u cs o)

-- Where the section offers to delete a comment, it shows a comment of that number, and there is a
-- user who wrote it or is an administrator.
pub delete_own_only :
    (env : Env) (s : State) (id : ℕ)
    → Offers (remove id) (view_section env s)
    → Any (λ (c : Comment). (c.id ≡ id) × Permitted env.user c) env.comments
unfolding view_section
delete_own_only env s id (inl o) = absurd o
delete_own_only env s id (inr o) =
    elim (Offers-append (remove id) (flat_map (comment_item env.user) env.comments) _ o) [
      | inl k ↦
          remove-items id env.user env.comments
            (Offers-flat_map (remove id) (comment_item env.user) env.comments k)
      | inr o ↦
          elim (Offers-append (remove id) (when (not env.is_loading && length env.comments == 0) _)
            _ o) [ inl k ↦ absurd (remove-empty id _ k) | inr k ↦ absurd (remove-entry id env s k) ]
    ]
