-- ===== src/Cursor/Listeners.antt =====
-- The drawn cursor never listens twice, and leaves nothing behind.
use zhici_photo_upload_platf.Cursor.{
  Msg, State, clean_up, handle, initial, run_effect, set_visible, update, mouse_enter, mouse_leave,
  mouse_move, mouse_over, same_flag,
}
use zhici_photo_upload_platf.Prelude.{
  Bool, Bool-cases, List, [], arith, false, inl, inr, refl, true, ◌∷◌, ◌≡◌, ltb,
}

-- The provider is mounted, any events come, and it is unmounted.
unfoldable pub events : (is_touch : Bool) → List Msg → State → State
events is_touch [] s = s
events is_touch (m ∷ ms) s = events is_touch ms (update m is_touch s)

-- Listening once, with the class on the body.
abbrev pub IsOn : State → Type 0
IsOn s = (s.listening ≡ 1) × (s.has_class ≡ true)

abbrev pub IsOff : State → Type 0
IsOff s = (s.listening ≡ 0) × (s.has_class ≡ false)

set_visible-IsOn : (v : Bool) (s : State) → IsOn s → IsOn (set_visible v false s)
unfolding set_visible run_effect clean_up
set_visible-IsOn v s (l, c) = elim (Bool-cases (same_flag v s.visible)) [
  | inl e ↦ rw (e, set_visible) (l, c)
  | inr e ↦ rw (e, set_visible) (omega (arith, l), refl)
]

handle-IsOn : (m : Msg) (s : State) → IsOn s → IsOn (handle m false s)
unfolding handle
handle-IsOn mouse_move s h = set_visible-IsOn true s h
handle-IsOn mouse_leave s h = set_visible-IsOn false s h
handle-IsOn mouse_enter s h = set_visible-IsOn true s h
handle-IsOn (mouse_over es) s h = h

update-IsOn : (m : Msg) (s : State) → IsOn s → IsOn (update m false s)
unfolding update
update-IsOn m s h = elim (Bool-cases (ltb 0 s.listening)) [
  | inl e ↦ rw (e, update) (handle-IsOn m s h)
  | inr e ↦ rw (e, update) h
]

events-IsOn : (ms : List Msg) (s : State) → IsOn s → IsOn (events false ms s)
unfolding events
events-IsOn [] s h = h
events-IsOn (m ∷ ms) s h = events-IsOn ms _ (update-IsOn m s h)

-- On a screen with a mouse, after mounting and whatever events, the cursor listens once and the body
-- has the class; after unmounting it listens to nothing and the class is gone.
pub mouse-IsOn :
    (ms : List Msg)
    → IsOn (events false ms (run_effect false initial))
      × IsOff (clean_up false (events false ms (run_effect false initial)))
unfolding run_effect clean_up initial
mouse-IsOn ms = let h = events-IsOn ms _ (refl, refl) in (h, (omega (arith, h.0), refl))
