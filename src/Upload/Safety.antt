-- ===== src/Upload/Safety.antt =====
-- Only files of an allowed type and size are uploaded, and the progress stays in bounds.
use zhici_photo_upload_platf.Api.{upload}
use zhici_photo_upload_platf.Media.{Effect, call}
use zhici_photo_upload_platf.Prelude.{
  All, All-append, All-keep, Bool, Bool-cases, List, Option, Text, [], arith, false, inl, inr, keep,
  map, none, some, true, ℕ, ◌<◌, ◌==◌, ◌∷◌, ◌≡◌, ap, find, ltb, refl, ◌∙◌, not,
}
use zhici_photo_upload_platf.Upload.{
  FileEntry, Msg, Run, Stamped, State, add_files, advance, begun, broken, change, finished, fits,
  is_pending, make_entry, pending, tick, ticked, answer_run, answered, clear_all, drag_leave,
  drag_over, drop, pick_files, remove, revoked, set_tags, start, start_upload, tick_run, toggle_tag,
  update,
}

pub record EntryOk (e : FileEntry) : Type 0 where
  -- what waits to be uploaded fits
  pub waiting : e.status ≡ pending → fits e.file ≡ true
  -- the last tick starts below 85 percent and adds less than 18
  pub progress : e.progress < 103000

abbrev pub RunOk : Option Run → Type 0
RunOk none = Unit
RunOk (some r) = (fits r.current.file ≡ true) × All (λ e. fits e.file ≡ true) r.rest

abbrev pub runs : Option Run → Bool
runs none = false
runs (some r) = true

pub record IsSafe (s : State) : Type 0 where
  pub entries : All EntryOk s.files
  pub running : RunOk s.run
  pub flag : s.uploading ≡ runs s.run

-- What the environment keeps to: `Math.random()` is below 1.
abbrev pub IsMsg : Msg → Type 0
IsMsg (tick amount) = amount < 18000
IsMsg _ = Unit

-- An upload that is called for is of the entry that the loop then waits for, and its file fits.
abbrev pub IsUploadOf : State → Effect → Type 0
IsUploadOf s (call (upload id ts)) =
    (r : Run) × (s.run ≡ some r) × (r.current.id ≡ id) × (fits r.current.file ≡ true)
IsUploadOf s _ = Unit

abbrev pub Safe : State × List Effect → Type 0
Safe r = IsSafe r.0 × All (IsUploadOf r.0) r.1

All-map {ℓ κ μ} :
    {A : Type ℓ} {B : Type κ} (P : B → Type μ) (f : A → B) (xs : List A)
    → ((x : A) → P (f x))
    → All P (map f xs)
All-map P f [] h = tt
All-map P f (x ∷ xs) h = (h x, All-map P f xs h)

All-change :
    (id : ℕ) (f : FileEntry → FileEntry) (xs : List FileEntry)
    → ((e : FileEntry) → EntryOk e → EntryOk (f e))
    → All EntryOk xs
    → All EntryOk (change id f xs)
unfolding change
All-change id f [] h a = tt
All-change id f (x ∷ xs) h a = (
  elim (Bool-cases (x.id == id)) [ inl e ↦ rw e (h x a.0) | inr e ↦ rw e a.0 ],
  All-change id f xs h a.1,
)

begun-EntryOk : (e : FileEntry) → EntryOk e → EntryOk (begun e)
begun-EntryOk e h = record { waiting = λ p. absurd (cc); progress = omega arith }

finished-EntryOk : (e : FileEntry) → EntryOk e → EntryOk (finished e)
finished-EntryOk e h = record { waiting = λ p. absurd (cc); progress = omega arith }

broken-EntryOk : (m : Option Text) (e : FileEntry) → EntryOk e → EntryOk (broken m e)
broken-EntryOk m e h = record { waiting = λ p. absurd (cc); progress = h.progress }

ticked-EntryOk : (a : ℕ) (e : FileEntry) → a < 18000 → EntryOk e → EntryOk (ticked a e)
ticked-EntryOk a e lt h = ground (arith, h.waiting)

make_entry-EntryOk : (f : Stamped) → EntryOk (make_entry f)
unfolding make_entry
make_entry-EntryOk f = ground arith

add_files-EntryOk :
    (incoming : List Stamped) (prev : List FileEntry)
    → All EntryOk prev
    → All EntryOk (add_files incoming prev)
unfolding add_files
add_files-EntryOk incoming prev h = All-append EntryOk prev _ h (
    All-keep EntryOk _ (map make_entry incoming)
      (All-map EntryOk make_entry incoming make_entry-EntryOk))

pending-fits :
    (xs : List FileEntry)
    → All EntryOk xs
    → All (λ e. fits e.file ≡ true) (keep (λ (e : FileEntry). is_pending e.status) xs)
pending-fits [] h = tt
pending-fits (x ∷ xs) h = ground (arith, h.0.waiting, pending-fits xs h.1)

advance-Safe :
    (tags : List Text) (n : ℕ) (rest : List FileEntry) (s : State)
    → All EntryOk s.files
    → All (λ e. fits e.file ≡ true) rest
    → s.uploading ≡ true
    → Safe (advance tags n rest s)
unfolding advance
advance-Safe tags n [] s h r u = (
  record { entries = h; running = tt; flag = refl },
  (tt, elim (Bool-cases (ltb 0 n)) [ inl e ↦ rw e (tt, (tt, tt)) | inr e ↦ rw e tt ]),
)
advance-Safe tags n (e ∷ rest) s h r u = (
  record { entries = All-change e.id begun s.files begun-EntryOk h; running = r; flag = u },
  ((_, refl, refl, r.0), tt),
)

start-Safe :
    (xs : List FileEntry) (s : State)
    → All EntryOk s.files
    → All (λ e. fits e.file ≡ true) xs
    → IsSafe s
    → Safe (start xs s)
unfolding start
start-Safe [] s h r v = (v, tt)
start-Safe (e ∷ rest) s h r v =
    advance-Safe s.tags 0 (e ∷ rest) (record s { uploading = true; done_count = 0 }) h r refl

answer_run-Safe :
    (ok : Bool) (m : Option Text) (run : Option Run) (s : State)
    → s.run ≡ run
    → IsSafe s
    → Safe (answer_run ok m run s)
unfolding answer_run
answer_run-Safe ok m none s e v = (v, tt)
answer_run-Safe true m (some r) s e v =
    advance-Safe r.tags _ r.rest _
      (All-change r.current.id finished s.files finished-EntryOk v.entries) (rw e at v.running).1
      (v.flag ∙ ap runs e)
answer_run-Safe false m (some r) s e v =
    advance-Safe r.tags _ r.rest _
      (All-change r.current.id (broken m) s.files (broken-EntryOk m) v.entries)
      (rw e at v.running).1 (v.flag ∙ ap runs e)

tick_run-IsSafe :
    (a : ℕ) (run : Option Run) (s : State) → a < 18000 → IsSafe s → IsSafe (tick_run a run s)
unfolding tick_run
tick_run-IsSafe a none s lt v = v
tick_run-IsSafe a (some r) s lt v = record {
  entries = All-change r.current.id (ticked a) s.files (λ e. ticked-EntryOk a e lt) v.entries;
  running = v.running;
  flag = v.flag;
}

revoked-Safe : (s : State) (o : Option FileEntry) → All (IsUploadOf s) (revoked o)
revoked-Safe s none = tt
revoked-Safe s (some e) = (tt, tt)

-- Every message, with ticks below 18 percent, keeps the page safe: an entry that waits has a file of
-- an allowed type and at most 1 GiB, so have all that the running loop will upload, no progress
-- reaches 103 percent, and the page shows that it uploads exactly while the loop runs. And every
-- upload that is called for is of such a file, the one that the loop then waits for.
pub update-Safe : (m : Msg) (s : State) → IsMsg m → IsSafe s → Safe (update m s)
unfolding update
update-Safe drag_over s i v =
    (record { entries = v.entries; running = v.running; flag = v.flag }, tt)
update-Safe drag_leave s i v =
    (record { entries = v.entries; running = v.running; flag = v.flag }, tt)
update-Safe (drop incoming) s i v = (
  record {
    entries = add_files-EntryOk incoming s.files v.entries;
    running = v.running;
    flag = v.flag;
  },
  tt,
)
update-Safe (pick_files incoming) s i v = (
  record {
    entries = add_files-EntryOk incoming s.files v.entries;
    running = v.running;
    flag = v.flag;
  },
  tt,
)
update-Safe (remove id) s i v = (
  record { entries = All-keep EntryOk _ s.files v.entries; running = v.running; flag = v.flag },
  revoked-Safe (record s { files = keep (λ (e : FileEntry). not (e.id == id)) s.files })
      (find (λ (e : FileEntry). e.id == id) s.files),
)
update-Safe clear_all s i v = (record { entries = tt; running = v.running; flag = v.flag }, tt)
update-Safe (toggle_tag t) s i v =
    (record { entries = v.entries; running = v.running; flag = v.flag }, tt)
update-Safe (set_tags ts) s i v =
    (record { entries = v.entries; running = v.running; flag = v.flag }, tt)
update-Safe start_upload s i v = start-Safe _ s v.entries (pending-fits s.files v.entries) v
update-Safe (tick a) s i v = (tick_run-IsSafe a s.run s i v, tt)
update-Safe (answered ok m) s i v = answer_run-Safe ok m s.run s refl v
