-- ===== src/Detail/Keys.antt =====
-- The keys of the page, which its window hears wherever they are pressed.
use zhici_photo_upload_platf.Comments
use zhici_photo_upload_platf.Detail.{Env, State, key_down, key_effects, update}
use zhici_photo_upload_platf.Media.{Effect, back, navigate, page_at}
use zhici_photo_upload_platf.Prelude.{Bool, List, String, [], false, refl, str_eq, ◌∷◌, ◌≡◌}

-- A key that is pressed in the draft of a comment: what the comments' section makes of it, and then
-- the page, which the event reaches next.
abbrev pub key_in_draft :
    Env
    → zhici_photo_upload_platf.Comments.Env
    → String
    → Bool
    → State
    → zhici_photo_upload_platf.Comments.State
    → (State × List Effect) × (zhici_photo_upload_platf.Comments.State × List Effect)
key_in_draft env c key shift s d = (
  update env (key_down key) s,
  zhici_photo_upload_platf.Comments.update c (zhici_photo_upload_platf.Comments.key_down key shift)
      d,
)

-- Moving the cursor to the left in the draft of a comment leaves the page: the section does nothing
-- with the key, the draft stays, and the page goes back in the history. So does Escape, to the
-- gallery. Any other key keeps the page.
pub arrow_in_draft_leaves :
    (env : Env) (c : zhici_photo_upload_platf.Comments.Env) (key : String) (shift : Bool)
    (s : State) (d : zhici_photo_upload_platf.Comments.State)
    → (key_in_draft env c "ArrowLeft" shift s d ≡ ((s, navigate back ∷ []), (d, [])))
      × (key_in_draft env c "Escape" shift s d ≡ ((s, navigate (page_at "/gallery") ∷ []), (d, [])))
      × (str_eq key "ArrowLeft" ≡ false
          → str_eq key "Escape" ≡ false
          → (key_in_draft env c key shift s d).0 ≡ (s, []))
unfolding update key_effects zhici_photo_upload_platf.Comments.update
arrow_in_draft_leaves env c key shift s d = (refl, refl, λ p q. rw (p, q) refl)
