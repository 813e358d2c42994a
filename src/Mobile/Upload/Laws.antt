-- ===== src/Mobile/Upload/Laws.antt =====
-- What the upload screen sends.
use zhici_photo_upload_platf.Mobile.Upload.{
  Asset, Body, Msg, Part, State, Upload, add_assets, garbage, initial, is_plain, json, json_null,
  loaded, on_error, on_load, on_timeout, part_of, permission, pick_images, picked, plain_name,
  press_tag, press_upload, preview, remove_at, remove_index, rows, send, tag_chips, take_photo,
  toggle_tag, update, upload_button, upload_of, view,
}
use zhici_photo_upload_platf.Prelude.{
  All, Bool, Bool-cases, List, Offers, Offers-append, Option, Text, [], ap, arith, codes, false,
  inl, inr, length, map, none, or_else, refl, some, suc, take, true, zero, ℕ, ◌++◌, ◌∷◌, ◌≡◌, ◌≤◌,
  label, lit,
}

-- Whatever messages came, in any order.
pub data Reach : State → Type 0 where
  start : Reach initial
  then : {s : State} → Reach s → (token : Option Text) (m : Msg) → Reach (update token m s).0

length-take-le {ℓ} : {A : Type ℓ} (n : ℕ) (xs : List A) → length (take n xs) ≤ n
length-take-le zero xs = omega arith
length-take-le (suc n) [] = omega arith
length-take-le (suc n) (x ∷ xs) = omega (arith, length-take-le n xs)

length-remove_index-le {ℓ} :
    {A : Type ℓ} (i : ℕ) (xs : List A) → length (remove_index i xs) ≤ length xs
unfolding remove_index
length-remove_index-le i [] = omega arith
length-remove_index-le zero (x ∷ xs) = omega arith
length-remove_index-le (suc i) (x ∷ xs) = omega (arith, length-remove_index-le i xs)

abbrev Few : State → Type 0
Few s = length s.files ≤ 10

add_assets-Few : (o : Option (List Asset)) (s : State) → Few s → Few (add_assets o s)
unfolding add_assets
add_assets-Few none s h = h
add_assets-Few (some []) s h = h
add_assets-Few (some (a ∷ new)) s h = length-take-le 10 (s.files ++ a ∷ new)

loaded-Few : (status : ℕ) (b : Body) (s : State) → Few s → Few (loaded status b s).0
unfolding loaded
loaded-Few status garbage s h = ground (arith, h)
loaded-Few status json_null s h = ground (arith, h)
loaded-Few status (json o) s h = ground (arith, h)

update-Few : (token : Option Text) (m : Msg) (s : State) → Few s → Few (update token m s).0
unfolding update toggle_tag
update-Few token pick_images s h = h
update-Few token take_photo s h = h
update-Few token press_upload s h = h
update-Few token (remove_at i) s h = omega (arith, length-remove_index-le i s.files, h)
update-Few token (press_tag t) s h = ground (arith, h)
update-Few token (picked o) s h = add_assets-Few o s h
update-Few token (permission true) s h = h
update-Few token (permission false) s h = h
update-Few token (on_load status b) s h = loaded-Few status b s h
update-Few token on_error s h = h
update-Few token on_timeout s h = h

Reach-Few : {s : State} → Reach s → Few s
Reach-Few start = omega arith
Reach-Few (then {s} r token m) = update-Few token m s (Reach-Few r)

rows-press : (i : ℕ) (fs : List Asset) → Offers press_upload (rows i fs) → ⊥
unfolding rows
rows-press i [] o = o
rows-press i (f ∷ fs) (inl o) = o
rows-press i (f ∷ fs) (inr (inl o)) = o
rows-press i (f ∷ fs) (inr (inr (inl o))) = o
rows-press i (f ∷ fs) (inr (inr (inr (inl o)))) = absurd (cc)
rows-press i (f ∷ fs) (inr (inr (inr (inr o)))) = rows-press (suc i) fs o

tag_chips-press : (chosen ts : List Text) → Offers press_upload (tag_chips chosen ts) → ⊥
unfolding tag_chips
tag_chips-press chosen [] o = o
tag_chips-press chosen (t ∷ ts) (inl o) = absurd (cc)
tag_chips-press chosen (t ∷ ts) (inr o) = tag_chips-press chosen ts o

abbrev CanPress : State → Type 0
CanPress s = (s.pending ≡ false) × (1 ≤ length s.files)

abbrev state_of : List Text → Bool → List Asset → State
state_of tags b fs = record { files = fs; tags = tags; pending = b }

upload_button-press :
    (b : Bool) (tags : List Text) (f : Asset) (fs : List Asset)
    → Offers press_upload (upload_button (state_of tags b (f ∷ fs)))
    → CanPress (state_of tags b (f ∷ fs))
unfolding upload_button
upload_button-press true tags f fs (inl o) = absurd (cc)
upload_button-press true tags f fs (inr o) = absurd o
upload_button-press false tags f fs o = (refl, omega arith)

preview-press :
    (available tags : List Text) (b : Bool) (fs : List Asset)
    → Offers press_upload (preview available (state_of tags b fs))
    → CanPress (state_of tags b fs)
unfolding preview
preview-press available tags b [] o = absurd o
preview-press available tags b (f ∷ fs) (inl o) = absurd o
preview-press available tags b (f ∷ fs) (inr o) =
    let s = state_of tags b (f ∷ fs) in
    let after =
      label "subtitle" (lit "添加标签（可选）" ∷ []) ∷ (tag_chips tags available ++ upload_button s) in
    elim (Offers-append press_upload (rows 0 (f ∷ fs)) after o) [
      | inl o' ↦ absurd (rows-press 0 (f ∷ fs) o')
      | inr (inl o') ↦ absurd o'
      | inr (inr o') ↦
          elim (Offers-append press_upload (tag_chips tags available) (upload_button s) o') [
            | inl o'' ↦ absurd (tag_chips-press tags available o'')
            | inr o'' ↦ upload_button-press b tags f fs o''
          ]
    ]

view-press :
    (available : List Text) (s : State) → Offers press_upload (view available s) → CanPress s
unfolding view
view-press available s (inl o) = absurd o
view-press available s (inr (inl o)) = absurd o
view-press available s (inr (inr (inl o))) = absurd o
view-press available s (inr (inr (inr (inl o)))) = absurd o
view-press available s (inr (inr (inr (inr (inl o))))) = absurd (cc)
view-press available s (inr (inr (inr (inr (inr (inl o)))))) = absurd (cc)
view-press available s (inr (inr (inr (inr (inr (inr o)))))) =
    preview-press available s.tags s.pending s.files o

-- A name of letters, digits, dots, lines and hyphens that is not empty.
abbrev pub IsPlainName : Text → Type 0
IsPlainName t = (1 ≤ length t) × All (λ c. is_plain c ≡ true) t

plain_name-All : (t : Text) → All (λ c. is_plain c ≡ true) (plain_name t)
unfolding plain_name
plain_name-All [] = tt
plain_name-All (c ∷ t) = elim (Bool-cases (is_plain c)) [
  | inl e ↦ (ground (arith, e), plain_name-All t)
  | inr e ↦ (ground (arith, e), plain_name-All t)
]

plain_name-IsPlainName :
    (o : Option Text) → IsPlainName (plain_name (or_else o (codes "photo.jpg")))
unfolding plain_name
plain_name-IsPlainName none = (omega arith, plain_name-All (codes "photo.jpg"))
plain_name-IsPlainName (some []) = (omega arith, plain_name-All (codes "photo.jpg"))
plain_name-IsPlainName (some (c ∷ t)) = (omega arith, plain_name-All (c ∷ t))

parts-IsPlainName : (fs : List Asset) → All (λ (p : Part). IsPlainName p.name) (map part_of fs)
unfolding part_of
parts-IsPlainName [] = tt
parts-IsPlainName (f ∷ fs) = (plain_name-IsPlainName f.file_name, parts-IsPlainName fs)

length-map {ℓ κ} :
    {A : Type ℓ} {B : Type κ} (f : A → B) (xs : List A) → length (map f xs) ≡ length xs
length-map f [] = refl
length-map f (x ∷ xs) = ap suc (length-map f xs)

map-uri :
    (fs : List Asset) → map (λ (p : Part). p.uri) (map part_of fs) ≡ map (λ (f : Asset). f.uri) fs
unfolding part_of
map-uri [] = refl
map-uri (f ∷ fs) = ap (◌∷◌ f.uri) (map-uri fs)

-- After any messages, where the screen offers to upload: no upload is under way; pressing the button
-- sends one request of one to ten files, in the order in which they are shown, whose names are not
-- empty and have only letters, digits, dots, lines and hyphens; and then the screen does not offer to
-- upload again while the request waits.
pub press_uploads :
    (token : Option Text) (available : List Text) {s : State}
    → Reach s
    → Offers press_upload (view available s)
    → (s.pending ≡ false)
      × ((u : Upload) × ((update token press_upload s).1 ≡ send u ∷ [])
          × (map (λ (p : Part). p.uri) u.parts ≡ map (λ (f : Asset). f.uri) s.files)
          × (1 ≤ length u.parts)
          × (length u.parts ≤ 10)
          × All (λ (p : Part). IsPlainName p.name) u.parts)
      × (Offers press_upload (view available (update token press_upload s).0) → ⊥)
unfolding update upload_of
press_uploads token available {s} r o =
    let (p, h) = view-press available s o in
    let n = length-map part_of s.files in
    (
      p,
      (
        upload_of token s,
        refl,
        map-uri s.files,
        omega (arith, n, h),
        omega (arith, n, Reach-Few r),
        parts-IsPlainName s.files,
      ),
      λ o'. absurd (cc (view-press available _ o').0),
    )
