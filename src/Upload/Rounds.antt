-- ===== src/Upload/Rounds.antt =====
-- The rounds of the upload page's loop, for given answers: one round, and that only the answers to the
-- files that wait matter.
use zhici_photo_upload_platf.Prelude.{
  All, Bool-cases, List, Option, Text, [], ap, arith, elem, false, if◌then◌else◌, inl, inr, none,
  refl, some, suc, sym, zero, ℕ, ◌+◌, ◌==◌, ◌∙◌, ◌∷◌, ◌≡◌,
}
use zhici_photo_upload_platf.Upload.{
  FileEntry, Run, State, advance, answer_run, begun, broken, change, finished, update,
}
use zhici_photo_upload_platf.Upload.Completion.{
  Answers, answer_msg, ids_of, settle, settle-zero, settle_idle,
}

-- The state in which the loop goes on to the next file.
abbrev run_of : List Text → ℕ → FileEntry → List FileEntry → Option Run
run_of tags n e es = some (record { current = e; rest = es; done_so_far = n; tags = tags })

abbrev pub count_after : Option (Option Text) → ℕ → ℕ
count_after none n = n + 1
count_after (some m) n = n

abbrev pub state_after :
    Option (Option Text) → List Text → ℕ → FileEntry → List FileEntry → State → State
state_after none tags n e es s = record s {
  files = change e.id finished (change e.id begun s.files);
  run = run_of tags n e es;
  done_count = n + 1;
}
state_after (some m) tags n e es s = record s {
  files = change e.id (broken m) (change e.id begun s.files);
  run = run_of tags n e es;
}

pub update-advance :
    (o : Option (Option Text)) (tags : List Text) (n : ℕ) (e : FileEntry) (es : List FileEntry)
    (s : State)
    → (update (answer_msg o) (advance tags n (e ∷ es) s).0).0
      ≡ (advance tags (count_after o n) es (state_after o tags n e es s)).0
unfolding update answer_run advance
update-advance none tags n e es s = refl
update-advance (some m) tags n e es s = refl

pub settle-step :
    (answers : Answers) (o : Option (Option Text)) (fuel : ℕ) (tags : List Text) (n : ℕ)
    (e : FileEntry) (es : List FileEntry) (s : State)
    → answers e.id ≡ o
    → settle (suc fuel) answers (advance tags n (e ∷ es) s).0
      ≡ settle fuel answers (advance tags (count_after o n) es (state_after o tags n e es s)).0
unfolding settle advance
settle-step answers o fuel tags n e es s h =
    ap (λ q. settle fuel answers (update (answer_msg q) (advance tags n (e ∷ es) s).0).0) h
    ∙ ap (settle fuel answers) (update-advance o tags n e es s)

-- Only the answers to the files that wait matter.
pub settle-agree :
    (answers answers' : Answers) (fuel : ℕ) (tags : List Text) (n : ℕ) (es : List FileEntry)
    (s : State)
    → All (λ (e : FileEntry). answers e.id ≡ answers' e.id) es
    → settle fuel answers (advance tags n es s).0 ≡ settle fuel answers' (advance tags n es s).0
unfolding advance
settle-agree answers answers' fuel tags n [] s h =
    settle_idle fuel answers _ refl ∙ sym (settle_idle fuel answers' _ refl)
settle-agree answers answers' zero tags n (e ∷ es) s h =
    settle-zero answers _ ∙ sym (settle-zero answers' _)
settle-agree answers answers' (suc fuel) tags n (e ∷ es) s h =
    settle-step answers (answers' e.id) fuel tags n e es s h.0
    ∙ settle-agree answers answers' fuel tags _ es _ h.1
    ∙ sym (settle-step answers' (answers' e.id) fuel tags n e es s refl)

-- One answer before the others.
abbrev pub with_answer : ℕ → Option (Option Text) → Answers → Answers
with_answer i o answers id = if id == i then o else answers id

pub with_answer-agree :
    (i : ℕ) (o : Option (Option Text)) (answers : Answers) (es : List FileEntry)
    → elem i (ids_of es) ≡ false
    → All (λ (e : FileEntry). with_answer i o answers e.id ≡ answers e.id) es
with_answer-agree i o answers [] h = tt
with_answer-agree i o answers (e ∷ es) h = elim (Bool-cases (e.id == i)) [
  | inl p ↦ absurd (ground (arith, h, p))
  | inr p ↦ (rw p refl, with_answer-agree i o answers es (ground (arith, h, p)))
]
