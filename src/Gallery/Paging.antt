-- ===== src/Gallery/Paging.antt =====
-- Turning the pages by the controls that the page offers.
use mathlib.Core.Bool.{false≢true}
use zhici_photo_upload_platf.Prelude.{
  All, Bool, List, Node, Offers, Option, Text, inl, inr, none, refl, some, true, ◌≡◌, Bool-cases,
  arith, ℕ, Offers-append, sym, ◌∙◌, ◌≤◌, ◌⊎◌, ◌<◌, ◌==◌, ◌≢◌, false,
}
use zhici_photo_upload_platf.Gallery.{
  Env, Msg, State, next_page, previous_page, update, SortMode, batch_answered,
  batch_delete_selected, cleared, delete_answered, drag_end, dragged, pick_tag, rename_answered,
  set_search, set_sort, toggle_selected,
}
use zhici_photo_upload_platf.Gallery.View.{
  content, selection_bar, sidebar, toolbar, page_count, pager, view_page,
}
use zhici_photo_upload_platf.Gallery.Controls.{
  Quiet, Quiet-Offers, content-Quiet, selection_bar-Quiet, sidebar-Quiet, toolbar-Quiet, turns_page,
}

-- Only the pager turns the page.
Offers-pager :
    (env : Env) (s : State) (d : ℕ → Bool) (m : Msg)
    → turns_page m ≡ true
    → Offers m (view_page env s d)
    → Offers m (pager env s)
unfolding view_page
Offers-pager env s d m t o = elim (Offers-append m (sidebar env s) _ o) [
  | inl h ↦ absurd (quiet (sidebar env s) (sidebar-Quiet env s) h)
  | inr h ↦ elim (Offers-append m (toolbar env s) _ h) [
    | inl h ↦ absurd (quiet (toolbar env s) (toolbar-Quiet env s) h)
    | inr h ↦ elim (Offers-append m (selection_bar s) _ h) [
      | inl h ↦ absurd (quiet (selection_bar s) (selection_bar-Quiet s) h)
      | inr h ↦ elim (Offers-append m (content env s d) _ h) [
        | inl h ↦ absurd (quiet (content env s d) (content-Quiet env s d) h)
        | inr h ↦ h
      ]
    ]
  ]
]
  where
    quiet : (ns : List (Node Msg)) → All Quiet ns → Offers m ns → ⊥
    quiet ns q h = false≢true (sym (Quiet-Offers m ns q h) ∙ t)

-- The page shown is one of the pages that there are, or the first.
abbrev pub InRange : Env → State → Type 0
InRange env s = (1 ≤ s.page) × ((s.page ≤ page_count env.total) ⊎ (s.page ≡ 1))

no_pager : (m : Msg) (env : Env) (s : State) → env.total ≤ 24 → ¬ Offers m (pager env s)
unfolding pager
no_pager m env s h o = ground arith

dragged-page :
    (array_move : List ℕ → Option ℕ → Option ℕ → List ℕ) (env : Env) (active : ℕ) (over : Option ℕ)
    (s : State)
    → (dragged array_move env active over s).page ≡ s.page
unfolding dragged
dragged-page f env active none s = refl
dragged-page f env active (some over) s = elim (Bool-cases (active == over)) [
  | inl e ↦ rw (e, dragged) refl
  | inr e ↦ rw (e, dragged) refl
]

-- Only the pager and a search set the page number.
update-page :
    (array_move : List ℕ → Option ℕ → Option ℕ → List ℕ) (env : Env) (m : Msg) (s : State)
    → turns_page m ≡ false
    → ((update array_move env m s).0.page ≡ s.page) ⊎ ((t : Text) × (m ≡ set_search t))
unfolding update cleared toggle_selected
update-page f env previous_page s h = absurd (cc)
update-page f env next_page s h = absurd (cc)
update-page f env (set_search t) s h = inr (t, refl)
update-page f env (drag_end active over) s h = inl (dragged-page f env active over s)
update-page f env (delete_answered ok) s h = inl (ground arith)
update-page f env (rename_answered ok e) s h = inl (ground arith)
update-page f env (batch_answered size ok) s h = inl (ground arith)
update-page f env batch_delete_selected s h = inl (ground arith)
update-page f env _ s h = inl refl

offered_turns :
    (env : Env) (s : State) (d : ℕ → Bool) (m : Msg)
    → env.total ≤ 24
    → Offers m (view_page env s d)
    → turns_page m ≡ false
offered_turns env s d m h o = elim (Bool-cases (turns_page m)) [
  | inl e ↦ absurd (no_pager m env s h (Offers-pager env s d m e o))
  | inr e ↦ e
]

dragged-InRange :
    (array_move : List ℕ → Option ℕ → Option ℕ → List ℕ) (env : Env) (active : ℕ) (over : Option ℕ)
    (s : State)
    → InRange env s
    → InRange env (dragged array_move env active over s)
unfolding dragged
dragged-InRange f env active none s r = r
dragged-InRange f env active (some over) s r = elim (Bool-cases (active == over)) [
  | inl e ↦ rw (e, dragged) r
  | inr e ↦ rw (e, dragged) r
]

previous_offered : (env : Env) (s : State) → Offers previous_page (pager env s) → s.page ≢ 1
unfolding pager
previous_offered env s o = ground arith

next_offered :
    (env : Env) (s : State) → Offers next_page (pager env s) → s.page < page_count env.total
unfolding pager
next_offered env s o = ground arith

-- Whatever control of the rendered page the user works, the page number stays in range, as long as
-- the images are those that the controls were rendered for.
pub offered-InRange :
    (array_move : List ℕ → Option ℕ → Option ℕ → List ℕ) (env : Env) (d : ℕ → Bool) (m : Msg)
    (s : State)
    → InRange env s
    → Offers m (view_page env s d)
    → InRange env (update array_move env m s).0
unfolding update cleared toggle_selected
offered-InRange f env d previous_page s r o =
    let ne = previous_offered env s (Offers-pager env s d previous_page refl o) in ground arith
offered-InRange f env d next_page s r o =
    let lt = next_offered env s (Offers-pager env s d next_page refl o) in ground arith
offered-InRange f env d (set_search t) s r o = (omega arith, inr refl)
offered-InRange f env d (drag_end active over) s r o = dragged-InRange f env active over s r
offered-InRange f env d (delete_answered ok) s r o = ground arith
offered-InRange f env d (rename_answered ok e) s r o = ground arith
offered-InRange f env d (batch_answered size ok) s r o = ground arith
offered-InRange f env d batch_delete_selected s r o = ground arith
offered-InRange f env d _ s r o = r

-- Picking a tag or another order keeps the page number. And where the images that match fit one page,
-- the pager is gone: no control that the page offers sets the page number back, or changes it at all,
-- except a search.
pub filtered_page_is_stuck :
    (array_move : List ℕ → Option ℕ → Option ℕ → List ℕ) (env : Env) (d : ℕ → Bool) (t : Text)
    (k : SortMode) (m : Msg) (s : State)
    → env.total ≤ 24
    → Offers m (view_page env s d)
    → ((update array_move env (pick_tag t) s).0.page ≡ s.page)
      × ((update array_move env (set_sort k) s).0.page ≡ s.page)
      × (((update array_move env m s).0.page ≡ s.page) ⊎ ((q : Text) × (m ≡ set_search q)))
unfolding update
filtered_page_is_stuck f env d t k m s h o =
    (refl, refl, update-page f env m s (offered_turns env s d m h o))
