-- ===== src/Cursor.antt =====
-- frontend/src/hooks/useCursor.tsx: the drawn cursor, its state with the listeners on the window, and
-- what it looks like. Where it is on the screen follows springs and is not modelled.
pub mod Listeners
mod Tests
use zhici_photo_upload_platf.Prelude.{
  Bool, List, Option, Text, [], any, codes, false, if◌then◌else◌, ltb, none, not, some, text_eq,
  true, ℕ, ◌&&◌, ◌+◌, ◌-◌, ◌∷◌,
}

-- An element under the mouse: its attribute `data-cursor`, and whether it is a button or a link.
pub record Element : Type 0 where
  pub data_cursor : Option Text
  pub button_like : Bool

-- The provider's state; how many sets of listeners are on the window and the document, and whether the
-- body has the class `has-custom-cursor`.
pub record State : Type 0 where
  pub variant : Text
  pub visible : Bool
  pub listening : ℕ
  pub has_class : Bool

pub data Msg : Type 0 where
  mouse_move mouse_leave mouse_enter : Msg
  -- the elements from the target outwards
  mouse_over : List Element → Msg

unfoldable pub initial : State
initial = record { variant = codes "default"; visible = false; listening = 0; has_class = false }

-- The effect, and what it returns to undo it. A touch screen has no cursor.
unfoldable pub run_effect : (is_touch : Bool) → State → State
run_effect true s = s
run_effect false s = record s { listening = s.listening + 1; has_class = true }

unfoldable pub clean_up : (is_touch : Bool) → State → State
clean_up true s = s
clean_up false s = record s { listening = s.listening - 1; has_class = false }

abbrev pub same_flag : Bool → Bool → Bool
same_flag true v = v
same_flag false v = not v

-- The effect is run again when `visible` has changed.
unfoldable pub set_visible : Bool → (is_touch : Bool) → State → State
unfolding run_effect clean_up
set_visible v is_touch s =
    if same_flag v s.visible
    then s
    else run_effect is_touch (clean_up is_touch (record s { visible = v }))

-- `v || 'hover'`
abbrev or_hover : Text → Text
or_hover [] = codes "hover"
or_hover (c ∷ t) = c ∷ t

-- `closest('button, a, [role="button"]')`
unfoldable pub over_button : List Element → Text
over_button es = if any (λ (e : Element). e.button_like) es then codes "hover" else codes "default"

-- `closest('[data-cursor]')`
unfoldable pub marked : List Element → Option Text
marked [] = none
marked (e ∷ es) = let rest = marked es in elim e.data_cursor [ none ↦ rest | some v ↦ some v ]

-- `handleOver`
unfoldable pub variant_over : List Element → Text
unfolding marked over_button
variant_over es = elim (marked es) [ none ↦ over_button es | some v ↦ or_hover v ]

-- The handlers.
unfoldable pub handle : Msg → (is_touch : Bool) → State → State
unfolding set_visible variant_over
handle mouse_move is_touch s = set_visible true is_touch s
handle mouse_leave is_touch s = set_visible false is_touch s
handle mouse_enter is_touch s = set_visible true is_touch s
handle (mouse_over es) is_touch s = record s { variant = variant_over es }

-- An event reaches the handlers only while they listen.
unfoldable pub update : Msg → (is_touch : Bool) → State → State
unfolding handle
update m is_touch s = if ltb 0 s.listening then handle m is_touch s else s

-- The ring's width and height.
unfoldable pub ring_size : Text → ℕ × ℕ
ring_size v =
    if text_eq v (codes "hover")
    then (56, 56)
    else if text_eq v (codes "drag")
    then (72, 72)
    else if text_eq v (codes "text")
    then (4, 24)
    else if text_eq v (codes "hidden")
    then (0, 0)
    else (32, 32)

-- Whether the dot is seen.
unfoldable pub dot_seen : State → Bool
dot_seen s =
    s.visible && not (text_eq s.variant (codes "hidden")) && not (text_eq s.variant (codes "text"))
