-- ===== src/Upload/Offered.antt =====
-- What the upload page lets the user do: start an upload, and take files out of the queue.
use zhici_photo_upload_platf.Api.{upload}
use zhici_photo_upload_platf.Media.{Tag, call}
use zhici_photo_upload_platf.Prelude.{
  Any, Bool, List, Offers, Offers-append, Offers-flat_map, Option, Sends, Text, [], arith, false,
  find, flat_map, inl, inr, none, some, tag_field, take, true, ℕ, ◌<◌, ◌==◌, ◌∷◌, ◌≡◌, ◌⊎◌,
  Bool-cases, keep, map, not, refl,
}
use zhici_photo_upload_platf.Upload.{
  FileEntry, Msg, Run, State, advance, answer_run, answered, remove, set_tags, start_upload, update,
}
use zhici_photo_upload_platf.Upload.Safety.{IsSafe}
use zhici_photo_upload_platf.Upload.View.{
  circle_progress, drop_area, file_card, file_list, funnel_icon, pending_count, preset_tag,
  preset_tags, queue_head, removable, submit, total_card, view_page,
}

-- The messages of the list and of the button below it.
data ListMsg : Type 0 where
  of_remove : ℕ → ListMsg
  of_start : ListMsg

abbrev msg_of : ListMsg → Msg
msg_of (of_remove id) = remove id
msg_of of_start = start_upload

drop_area-none : (m : ListMsg) (s : State) → ¬ Offers (msg_of m) (drop_area s)
unfolding drop_area funnel_icon
drop_area-none (of_remove id) s h = ground arith
drop_area-none of_start s h = ground arith

queue_head-none : (m : ListMsg) (files : List FileEntry) → ¬ Offers (msg_of m) (queue_head files)
unfolding queue_head
queue_head-none (of_remove id) files h = ground arith
queue_head-none of_start files h = ground arith

total_card-none : (m : ListMsg) (s : State) → ¬ Offers (msg_of m) (total_card s)
unfolding total_card circle_progress
total_card-none m s h = ground arith

preset_tag-none :
    (m : ListMsg) (tags : List Text) (ts : List Tag)
    → ¬ Any (λ t. Offers (msg_of m) (preset_tag tags t)) ts
unfolding preset_tag
preset_tag-none m tags [] h = h
preset_tag-none (of_remove id) tags (t ∷ ts) (inl h) = ground arith
preset_tag-none of_start tags (t ∷ ts) (inl h) = ground arith
preset_tag-none m tags (t ∷ ts) (inr h) = preset_tag-none m tags ts h

tag_field-none :
    (m : ListMsg) (v o : List Text) → ¬ Sends (msg_of m) (tag_field "up-tag-select" v o set_tags)
tag_field-none (of_remove id) v o h = ground arith
tag_field-none of_start v o h = ground arith

preset_tags-none :
    (m : ListMsg) (available : List Tag) (s : State) → ¬ Offers (msg_of m) (preset_tags available s)
unfolding preset_tags
preset_tags-none m available s (inl h) = h
preset_tags-none m available s (inr h) =
    elim (Offers-append (msg_of m) (flat_map (preset_tag s.tags) (take 6 available)) _ h) [
      | inl k ↦
          preset_tag-none m s.tags _
            (Offers-flat_map (msg_of m) (preset_tag s.tags) (take 6 available) k)
      | inr (inl k) ↦ tag_field-none m s.tags (map (λ (t : Tag). t.name) available) k
      | inr (inr k) ↦ k
    ]

-- Only the cards and the button below them offer such a message.
view_page-parts :
    (m : ListMsg) (available : List Tag) (s : State)
    → Offers (msg_of m) (view_page available s)
    → Offers (msg_of m) (file_list s.files) ⊎ Offers (msg_of m) (submit s)
unfolding view_page
view_page-parts m available s h = elim (Offers-append (msg_of m) (drop_area s) _ h) [
  | inl k ↦ absurd (drop_area-none m s k)
  | inr h ↦ elim (Offers-append (msg_of m) (queue_head s.files) _ h) [
    | inl k ↦ absurd (queue_head-none m s.files k)
    | inr h ↦ elim (Offers-append (msg_of m) (total_card s) _ h) [
      | inl k ↦ absurd (total_card-none m s k)
      | inr h ↦ elim (Offers-append (msg_of m) (preset_tags available s) _ h) [
        | inl k ↦ absurd (preset_tags-none m available s k)
        | inr h ↦ Offers-append (msg_of m) (file_list s.files) (submit s) h
      ]
    ]
  ]
]

file_list-cards :
    (m : ListMsg) (files : List FileEntry)
    → Offers (msg_of m) (file_list files)
    → Any (λ e. Offers (msg_of m) (file_card e)) files
unfolding file_list
file_list-cards m [] (inl h) = h
file_list-cards m [] (inr h) = Offers-flat_map (msg_of m) file_card [] h
file_list-cards m (e ∷ files) h = Offers-flat_map (msg_of m) file_card (e ∷ files) h

card-start : (e : FileEntry) → ¬ Offers start_upload (file_card e)
unfolding file_card
card-start e h = ground arith

card-remove :
    (id : ℕ) (e : FileEntry)
    → Offers (remove id) (file_card e)
    → (e.id ≡ id) × (removable e.status ≡ true)
unfolding file_card
card-remove id e h = ground arith

cards-start : (files : List FileEntry) → ¬ Any (λ e. Offers start_upload (file_card e)) files
cards-start [] h = h
cards-start (e ∷ files) (inl h) = card-start e h
cards-start (e ∷ files) (inr h) = cards-start files h

cards-remove :
    (id : ℕ) (files : List FileEntry)
    → Any (λ e. Offers (remove id) (file_card e)) files
    → Any (λ e. (e.id ≡ id) × (removable e.status ≡ true)) files
cards-remove id [] h = h
cards-remove id (e ∷ files) (inl h) = inl (card-remove id e h)
cards-remove id (e ∷ files) (inr h) = inr (cards-remove id files h)

submit-start :
    (s : State) → Offers start_upload (submit s) → (s.uploading ≡ false) × (0 < pending_count s)
unfolding submit
submit-start s h = ground arith

submit-remove : (id : ℕ) (s : State) → ¬ Offers (remove id) (submit s)
unfolding submit
submit-remove id s h = ground arith

-- On a safe page, where an upload can be started no loop runs and some file waits; and a file that
-- can be taken out is in the queue, and waits or has failed.
pub offered_when :
    (available : List Tag) (s : State)
    → IsSafe s
    → (Offers start_upload (view_page available s) → (s.run ≡ none) × (0 < pending_count s))
      × ((id : ℕ)
          → Offers (remove id) (view_page available s)
          → Any (λ e. (e.id ≡ id) × (removable e.status ≡ true)) s.files)
offered_when available s v = (
  λ h. elim (view_page-parts of_start available s h) [
    | inl k ↦ absurd (cards-start s.files (file_list-cards of_start s.files k))
    | inr k ↦ (ground (arith, v.flag, submit-start s k), (submit-start s k).1)
  ],
  λ id h. elim (view_page-parts (of_remove id) available s h) [
    | inl k ↦ cards-remove id s.files (file_list-cards (of_remove id) s.files k)
    | inr k ↦ absurd (submit-remove id s k)
  ],
)

find-removed :
    (id : ℕ) (files : List FileEntry)
    → find (λ (x : FileEntry). x.id == id) (keep (λ (x : FileEntry). not (x.id == id)) files) ≡ none
find-removed id [] = refl
find-removed id (x ∷ files) = elim (Bool-cases (x.id == id)) [
  | inl p ↦ rw p (find-removed id files)
  | inr p ↦ rw (p, p) (find-removed id files)
]

-- Taking a waiting file out of the queue while an upload runs does not stop its own upload: the loop
-- holds the files of its start. When the file is the next of the loop, then after it is taken out,
-- and so is not in the queue, the answer to the current call makes the page call for its upload.
pub removed_is_uploaded :
    (s : State) (r : Run) (e : FileEntry) (rest : List FileEntry) (ok : Bool)
    (message : Option Text)
    → s.run ≡ some r
    → r.rest ≡ e ∷ rest
    → let t = (update (remove e.id) s).0 in
      (find (λ (x : FileEntry). x.id == e.id) t.files ≡ none)
      × ((update (answered ok message) t).1 ≡ call (upload e.id r.tags) ∷ [])
unfolding update answer_run advance
removed_is_uploaded s r e rest true message p q = (find-removed e.id s.files, rw (p, q) refl)
removed_is_uploaded s r e rest false message p q = (find-removed e.id s.files, rw (p, q) refl)
