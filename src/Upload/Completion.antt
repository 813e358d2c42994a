-- ===== src/Upload/Completion.antt =====
-- An upload that nothing interferes with comes to its end, and settles every waiting file.
use mathlib.Core.Path.{ap₂, subst}
use zhici_photo_upload_platf.Prelude.{
  List, Option, Text, [], elem, false, if◌then◌else◌, map, none, some, suc, true, zero, ℕ, ◌==◌,
  ◌∷◌, ◌≡◌, Bool-cases, inl, inr, refl, ==_iff, ==_refl, ap, arith, ◌∙◌, length, sym, ◌+◌, ◌≤◌,
  Option-cases, keep, ◌≢◌,
}
use zhici_photo_upload_platf.Upload.{
  FileEntry, Msg, State, answered, begun, broken, finished, update, change, advance, answer_run,
  Run, is_pending, start_upload, start,
}

-- The answers of the backend, by the entry's id: `none` is an upload that went well.
abbrev pub Answers : Type 0
Answers = ℕ → Option (Option Text)

abbrev pub answer_msg : Option (Option Text) → Msg
answer_msg none = answered true none
answer_msg (some m) = answered false m

-- The loop is answered once for each unit of fuel, while it waits.
unfoldable pub settle : ℕ → Answers → State → State
settle zero answers s = s
settle (suc fuel) answers s = elim s.run [
  | none ↦ s
  | some r ↦ settle fuel answers (update (answer_msg (answers r.current.id)) s).0
]

-- What becomes of an entry that was waiting.
abbrev pub settled_entry : Option (Option Text) → FileEntry → FileEntry
settled_entry none e = finished e
settled_entry (some m) e = broken m (begun e)

abbrev pub ids_of : List FileEntry → List ℕ
ids_of es = map (λ (e : FileEntry). e.id) es

abbrev pub Distinct : List FileEntry → Type 0
Distinct [] = Unit
Distinct (e ∷ es) = (elem e.id (ids_of es) ≡ false) × Distinct es

-- The entries that wait to be uploaded.
abbrev pub waiting_of : List FileEntry → List FileEntry
waiting_of files = keep (λ (e : FileEntry). is_pending e.status) files

-- What becomes of an entry, with the ids of those that are uploaded.
abbrev pub final : Answers → List ℕ → FileEntry → FileEntry
final answers ids e = if elem e.id ids then settled_entry (answers e.id) e else e

pub successes : Answers → List FileEntry → ℕ
successes answers [] = 0
successes answers (e ∷ es) = elim (answers e.id) [
  | none ↦ suc (successes answers es)
  | some m ↦ successes answers es
]

-- The change that an answer makes to the entry.
abbrev by : Option (Option Text) → FileEntry → FileEntry
by none = finished
by (some m) = broken m

settled_entry-by : (a : Option (Option Text)) (e : FileEntry) → by a (begun e) ≡ settled_entry a e
settled_entry-by none e = refl
settled_entry-by (some m) e = refl

by-id : (a : Option (Option Text)) (e : FileEntry) → (by a (begun e)).id ≡ e.id
by-id none e = refl
by-id (some m) e = refl

round_hit :
    (answers : Answers) (ids : List ℕ) (e : FileEntry) (a : Option (Option Text))
    → answers e.id ≡ a
    → elem e.id ids ≡ false
    → final answers ids (by a (begun e)) ≡ final answers (e.id ∷ ids) e
round_hit answers ids e none p h = ground (arith, ==_refl e.id)
round_hit answers ids e (some m) p h = ground (arith, ==_refl e.id)

-- One round on an entry: it is put to uploading, and then takes its answer.
abbrev round : Option (Option Text) → ℕ → FileEntry → FileEntry
round a id e = let b = (if e.id == id then begun e else e) in if b.id == id then by a b else b

round_entry :
    (answers : Answers) (id : ℕ) (ids : List ℕ) (e : FileEntry) (a : Option (Option Text))
    → answers id ≡ a
    → elem id ids ≡ false
    → final answers ids (round a id e) ≡ final answers (id ∷ ids) e
round_entry answers id ids e a p h = elim (Bool-cases (e.id == id)) [
  | inl q ↦
      let same : e.id ≡ id = (==_iff e.id id).0 q in
      rw (q, q)
        (subst (λ k. final answers ids (by a (begun e)) ≡ final answers (k ∷ ids) e) same
          (round_hit answers ids e a (ap answers same ∙ p) (ap (λ k. elem k ids) same ∙ h)))
  | inr q ↦ rw (q, q) (ground arith)
]

round-files :
    (answers : Answers) (id : ℕ) (ids : List ℕ) (a : Option (Option Text)) (files : List FileEntry)
    → answers id ≡ a
    → elem id ids ≡ false
    → map (final answers ids) (change id (by a) (change id begun files))
      ≡ map (final answers (id ∷ ids)) files
unfolding change
round-files answers id ids a [] p h = refl
round-files answers id ids a (e ∷ files) p h =
    ap₂ ◌∷◌ (round_entry answers id ids e a p h) (round-files answers id ids a files p h)

map-final_nil : (answers : Answers) (files : List FileEntry) → map (final answers []) files ≡ files
map-final_nil answers [] = refl
map-final_nil answers (e ∷ files) = ap (◌∷◌ e) (map-final_nil answers files)

-- The page after all answers.
pub record IsSettled (answers : Answers) (entries : List FileEntry) (n : ℕ) (s t : State)
    : Type 0 where
  pub files : t.files ≡ map (final answers (ids_of entries)) s.files
  pub idle : (t.uploading ≡ false) × (t.run ≡ none)
  pub count : t.done_count ≡ n + successes answers entries

pub settle-zero : (answers : Answers) (s : State) → settle zero answers s ≡ s
unfolding settle
settle-zero answers s = refl

pub settle_idle :
    (fuel : ℕ) (answers : Answers) (s : State) → s.run ≡ none → settle fuel answers s ≡ s
unfolding settle
settle_idle zero answers s e = refl
settle_idle (suc fuel) answers s e = ground arith

settle-advance :
    (answers : Answers) (tags : List Text) (n fuel : ℕ) (entries : List FileEntry) (s : State)
    → length entries ≤ fuel
    → Distinct entries
    → s.done_count ≡ n
    → IsSettled answers entries n s (settle fuel answers (advance tags n entries s).0)
unfolding advance settle update answer_run successes
settle-advance answers tags n fuel [] s l d c =
    subst (IsSettled answers [] n s) (sym (settle_idle fuel answers _ refl)) (record {
      files = sym (map-final_nil answers s.files);
      idle = (refl, refl);
      count = omega arith;
    })
settle-advance answers tags n zero (e ∷ entries) s l d c = absurd (omega arith)
settle-advance answers tags n (suc fuel) (e ∷ entries) s l d c =
    let files = change e.id begun s.files in
    let run : Option Run =
      some (record { current = e; rest = entries; done_so_far = n; tags = tags }) in
    elim (Option-cases (answers e.id)) [
      | inl p ↦
          let ih =
            settle-advance answers tags (n + 1) fuel entries
              (record s { files = change e.id finished files; run = run; done_count = n + 1 })
              (omega arith) d.1 refl in
          rw p (record {
            files = ih.files ∙ round-files answers e.id (ids_of entries) none s.files p d.0;
            idle = ih.idle;
            count = rw (p, successes) (omega (arith, ih.count));
          })
      | inr (m, p) ↦
          let ih =
            settle-advance answers tags n fuel entries
              (record s { files = change e.id (broken m) files; run = run }) (omega arith) d.1 c in
          rw p (record {
            files = ih.files ∙ round-files answers e.id (ids_of entries) (some m) s.files p d.0;
            idle = ih.idle;
            count = rw (p, successes) ih.count;
          })
    ]

elem-waiting_of :
    (id : ℕ) (files : List FileEntry)
    → elem id (ids_of files) ≡ false
    → elem id (ids_of (waiting_of files)) ≡ false
elem-waiting_of id [] h = refl
elem-waiting_of id (e ∷ files) h = elim (Bool-cases (is_pending e.status)) [
  | inl p ↦ rw p (ground (arith, elem-waiting_of id files))
  | inr p ↦ rw p (ground (arith, elem-waiting_of id files))
]

pub waiting_of-Distinct : (files : List FileEntry) → Distinct files → Distinct (waiting_of files)
waiting_of-Distinct [] d = tt
waiting_of-Distinct (e ∷ files) d = elim (Bool-cases (is_pending e.status)) [
  | inl p ↦ rw p (elem-waiting_of e.id files d.0, waiting_of-Distinct files d.1)
  | inr p ↦ rw p (waiting_of-Distinct files d.1)
]

start_settles :
    (answers : Answers) (fuel : ℕ) (s : State) (entries : List FileEntry)
    → length entries ≤ fuel
    → Distinct entries
    → entries ≢ []
    → IsSettled answers entries 0 s (settle fuel answers (start entries s).0)
unfolding start
start_settles answers fuel s [] l d ne = absurd (ne refl)
start_settles answers fuel s (e ∷ rest) l d ne =
    let t =
      settle-advance answers s.tags 0 fuel (e ∷ rest)
        (record s { uploading = true; done_count = 0 }) l d refl in
    record { files = t.files; idle = t.idle; count = t.count }

-- Starting an upload on a queue whose entries have distinct ids, and answering the calls one after
-- the other with nothing in between, ends: one round for each waiting file is enough. Then nothing is
-- uploaded any more; every file that was waiting is done at 100 percent or failed with the message of
-- its answer, and every other is as it was; and the count is the number of files that went well.
pub upload_completes :
    (answers : Answers) (fuel : ℕ) (s : State)
    → length (waiting_of s.files) ≤ fuel
    → Distinct s.files
    → waiting_of s.files ≢ []
    → IsSettled answers (waiting_of s.files) 0 s (settle fuel answers (update start_upload s).0)
unfolding update
upload_completes answers fuel s l d ne =
    start_settles answers fuel s (waiting_of s.files) l (waiting_of-Distinct s.files d) ne
