-- ===== src/Upload/Queue.antt =====
-- What the queue takes in, and what it turns away.
use mathlib.Core.Bool.{true≢false}
use zhici_photo_upload_platf.Prelude.{
  List, [], arith, false, includes, keep, map, not, refl, ◌++◌, ◌∷◌, ◌≡◌, ◌≤◌, &&_both, Any,
  Bool-cases, File, Stamped, Text, eq_of_text_eq, inl, inr, sym, text_eq, text_eq_refl, true, ◌↔◌,
  ◌∙◌, ◌≢◌,
}
use zhici_photo_upload_platf.Upload.{
  FileEntry, file_key, make_entry, add_files, allowed_image_types, failed, pending, fits,
  type_allowed, upload_max_size_bytes,
}

-- A text is among others, as `includes` tests it.
includes-Any : (xs : List Text) (t : Text) → includes xs t ≡ true → Any (λ x. x ≡ t) xs
includes-Any [] t h = absurd (cc)
includes-Any (x ∷ xs) t h = elim (Bool-cases (text_eq x t)) [
  | inl p ↦ inl (eq_of_text_eq x t p)
  | inr p ↦ inr (includes-Any xs t (ground (arith, p, h)))
]

Any-includes : (xs : List Text) (t : Text) → Any (λ x. x ≡ t) xs → includes xs t ≡ true
Any-includes [] t a = absurd a
Any-includes (x ∷ xs) t (inl p) = rw p (rw (text_eq_refl t) refl)
Any-includes (x ∷ xs) t (inr a) = ground (arith, Any-includes xs t a)

-- The queue has a file of the same key: of the same text of name and size.
abbrev pub IsThere : List FileEntry → Stamped → Type 0
IsThere prev f = Any (λ k. k ≡ file_key (make_entry f)) (map file_key prev)

-- A file that can be uploaded.
abbrev pub CanGo : File → Type 0
CanGo f = Any (λ t. t ≡ f.mime) allowed_image_types × (f.size ≤ upload_max_size_bytes)

-- The entry of an incoming file: it waits for its upload, with no progress, exactly if it can be
-- uploaded, and has failed otherwise.
pub record IsEntryOf (f : Stamped) (e : FileEntry) : Type 0 where
  pub id : e.id ≡ f.id
  pub file : e.file ≡ f.file
  pub progress : e.progress ≡ 0
  pub waits : (e.status ≡ pending) ↔ CanGo f.file
  pub fails : ¬ CanGo f.file → e.status ≡ failed

-- How the queue takes incoming files, one after another: those that it has no file of the same key as.
pub data Taken (prev : List FileEntry) : List Stamped → List FileEntry → Type 0 where
  all_seen : Taken prev [] []
  taken :
      (f : Stamped) (fs : List Stamped) (e : FileEntry) (es : List FileEntry)
      → ¬ IsThere prev f
      → IsEntryOf f e
      → Taken prev fs es
      → Taken prev (f ∷ fs) (e ∷ es)
  left :
      (f : Stamped) (fs : List Stamped) (es : List FileEntry)
      → IsThere prev f
      → Taken prev fs es
      → Taken prev (f ∷ fs) es

fits-CanGo : (f : File) → fits f ≡ true → CanGo f
unfolding fits type_allowed
fits-CanGo f h =
    let (p, q) = &&_both _ _ h in (includes-Any allowed_image_types f.mime p, ground (arith, q))

CanGo-fits : (f : File) → CanGo f → fits f ≡ true
unfolding fits type_allowed
CanGo-fits f (a, l) = rw (Any-includes allowed_image_types f.mime a) (ground (arith, l))

failed-≢ : failed ≢ pending
failed-≢ e = absurd (cc)

turned_away : (f : Stamped) → fits f.file ≡ false → (make_entry f).status ≡ failed
unfolding make_entry
turned_away f p = rw p refl

make_entry-IsEntryOf : (f : Stamped) → IsEntryOf f (make_entry f)
unfolding make_entry
make_entry-IsEntryOf f = elim (Bool-cases (fits f.file)) [
  | inl p ↦ record {
    id = refl;
    file = refl;
    progress = refl;
    waits = (λ e. fits-CanGo f.file p, λ c. rw p refl);
    fails = λ n. absurd (n (fits-CanGo f.file p));
  }
  | inr p ↦ record {
    id = refl;
    file = refl;
    progress = refl;
    waits = (
      λ e. absurd (failed-≢ (sym (turned_away f p) ∙ e)),
      λ c. absurd (true≢false (sym (CanGo-fits f.file c) ∙ p)),
    );
    fails = λ n. turned_away f p;
  }
]

keep-Taken :
    (prev : List FileEntry) (fs : List Stamped)
    → Taken prev fs
        (keep (λ e. not (includes (map file_key prev) (file_key e))) (map make_entry fs))
keep-Taken prev [] = all_seen
keep-Taken prev (f ∷ fs) =
    elim (Bool-cases (includes (map file_key prev) (file_key (make_entry f)))) [
      | inl p ↦ rw p (left f fs _ (includes-Any _ _ p) (keep-Taken prev fs))
      | inr p ↦ rw p (
          taken f fs _ _ (λ a. true≢false (sym (Any-includes _ _ a) ∙ p)) (make_entry-IsEntryOf f)
            (keep-Taken prev fs))
    ]

-- Added files stand behind those that were in the queue, which stay as they are. In the order in which
-- they came, each incoming file has its entry unless one that was in the queue has the same text of
-- name and size; the entry waits for its upload exactly if the file is of an allowed type and of at
-- most 1 GiB, and has failed otherwise.
pub add_files_lem :
    (incoming : List Stamped) (prev : List FileEntry)
    → (new : List FileEntry) × (add_files incoming prev ≡ prev ++ new) × Taken prev incoming new
unfolding add_files
add_files_lem incoming prev = (_, refl, keep-Taken prev incoming)
