-- ===== src/Gallery/Selection.antt =====
-- Selecting images: the set of selected ids and the selection mode.
use zhici_photo_upload_platf.Gallery.{
  Env, Msg, State, cleared, toggle_select, toggle_selected, toggled, update, drag_end,
  batch_answered, batch_delete_selected, dragged,
}
use zhici_photo_upload_platf.Prelude.{
  Bool, List, Option, [], arith, elem, false, is_empty, keep, not, refl, ℕ, ◌++◌, ◌==◌, ◌||◌, ◌∷◌,
  ◌≡◌, Offers, none, some, true, ◌≢◌,
}
use zhici_photo_upload_platf.Api.{batch_delete}
use zhici_photo_upload_platf.Gallery.View.{selection_bar}
use zhici_photo_upload_platf.Media.{call}

abbrev pub Distinct : List ℕ → Type 0
Distinct [] = Unit
Distinct (x ∷ xs) = (elem x xs ≡ false) × Distinct xs

-- The selection mode is on exactly when something is selected, and nothing is selected twice.
pub record IsSelection (s : State) : Type 0 where
  pub mode : s.selection_mode ≡ not (is_empty s.selected)
  pub distinct : Distinct s.selected

elem-append : (j : ℕ) (xs ys : List ℕ) → elem j (xs ++ ys) ≡ (elem j xs || elem j ys)
elem-append j [] ys = refl
elem-append j (x ∷ xs) ys = ground (arith, elem-append j xs ys)

elem-keep : (p : ℕ → Bool) (x : ℕ) (xs : List ℕ) → elem x xs ≡ false → elem x (keep p xs) ≡ false
elem-keep p x [] e = refl
elem-keep p x (y ∷ xs) e = ground (arith, elem-keep p x xs)

Distinct-keep : (p : ℕ → Bool) (xs : List ℕ) → Distinct xs → Distinct (keep p xs)
Distinct-keep p [] d = tt
Distinct-keep p (x ∷ xs) d = ground (arith, elem-keep p x xs, Distinct-keep p xs)

Distinct-concat :
    (id : ℕ) (xs : List ℕ) → elem id xs ≡ false → Distinct xs → Distinct (xs ++ id ∷ [])
Distinct-concat id [] e d = (refl, tt)
Distinct-concat id (x ∷ xs) e d = ground (arith, Distinct-concat id xs, elem-append x xs (id ∷ []))

Distinct-toggled : (id : ℕ) (xs : List ℕ) → Distinct xs → Distinct (toggled id xs)
unfolding toggled
Distinct-toggled id xs d =
    ground (arith, Distinct-keep (λ x. not (x == id)) xs, Distinct-concat id xs)

dragged-IsSelection :
    (array_move : List ℕ → Option ℕ → Option ℕ → List ℕ) (env : Env) (active : ℕ) (over : Option ℕ)
    (s : State)
    → IsSelection s
    → IsSelection (dragged array_move env active over s)
unfolding dragged
dragged-IsSelection f env active none s h = h
dragged-IsSelection f env active (some over) s h = ground arith

-- Every message keeps the selection well formed.
pub update-IsSelection :
    (array_move : List ℕ → Option ℕ → Option ℕ → List ℕ) (env : Env) (m : Msg) (s : State)
    → IsSelection s
    → IsSelection (update array_move env m s).0
unfolding update toggle_selected cleared
update-IsSelection f env (toggle_select id) s h = record {
  mode = refl;
  distinct = Distinct-toggled id s.selected h.distinct;
}
update-IsSelection f env (drag_end active over) s h = dragged-IsSelection f env active over s h
update-IsSelection f env m s h = ground arith

-- Where the selection bar lets the user delete, something is selected, and the confirmed deletion
-- calls the backend once with exactly the selected ids; an answer that it went well empties the
-- selection, and an answer that it failed keeps it.
pub batch_delete_lem :
    (array_move : List ℕ → Option ℕ → Option ℕ → List ℕ) (env : Env) (s : State) (size : ℕ)
    → IsSelection s
    → Offers batch_delete_selected (selection_bar s)
    → (s.selected ≢ [])
      × (update array_move env batch_delete_selected s ≡ (s, call (batch_delete s.selected) ∷ []))
      × ((update array_move env (batch_answered size true) s).0.selected ≡ [])
      × ((update array_move env (batch_answered size false) s).0 ≡ s)
unfolding update selection_bar cleared
batch_delete_lem f env s size h o = ground (arith, h.mode)
