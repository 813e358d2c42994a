-- ===== src/Prelude/View.antt =====
-- What a component renders: the visible leaves of its tree in document order. Wrappers, styles and
-- animations are dropped. A control carries the message that its handler stands for.
use Prim.Native.Nat.{ℕ, ◌+◌, ◌-◌, ◌/◌, ◌≤◌}
use Prim.Native.String.{String}
use mathlib.Core.Logic.{◌⊎◌, inl, inr}
use mathlib.Core.Path.{◌≡◌}
use mathlib.Core.Option.{Option}
use mathlib.Core.Bool.{Bool, true, false}
use mathlib.Core.List.{List, [], ◌∷◌, ◌++◌, map, flat_map}
use zhici_photo_upload_platf.Prelude.Texts.{Text}
use zhici_photo_upload_platf.Prelude.Lists.{Any, length}

-- A piece of text: a literal, a text of the state, a number, or a value that a formatter prints.
pub data Inline : Type 0 where
  lit : String → Inline
  txt : Text → Inline
  num : ℕ → Inline
  file_size : ℕ → Inline
  -- the two words of a size, its number and its unit
  size_number size_unit : ℕ → Inline
  -- thousandths of a percent
  percent : ℕ → Inline
  date date_time : Text → Inline
  -- a text in upper case
  upper : Text → Inline

-- A `File` of the browser.
pub record File : Type 0 where
  pub file_name : Text
  pub mime : Text
  pub size : ℕ

-- A file with the id and the preview that its entry in a queue gets.
pub record Stamped : Type 0 where
  pub file : File
  pub id : ℕ
  pub preview : ℕ

pub data Node (M : Type 0) : Type 0 where
  -- an element of a class, with its text
  label : String → List Inline → Node M
  -- an element that only carries classes, some of them by the state
  box : List String → Node M
  -- an image of a class, its address and its alternative text
  image : String → Text → Text → Node M
  -- a control of a class: enabled or not, its caption, the message of a click
  button : String → Bool → List Inline → M → Node M
  -- a control behind a confirmation with a title: the message of the confirmed click
  confirm : String → List Inline → M → Node M
  -- a control that asks for a text, with a title and the text to start from: the message of the
  -- answer, `none` when it was called off
  ask : String → String → Text → (Option Text → M) → Node M
  -- an entry field that hides what is entered
  secret : String → Text → (Text → M) → Node M
  -- an entry field that takes no more than a number of code units
  limited : String → ℕ → Text → (Text → M) → Node M
  -- a choice between captions, each with its message: the one that is chosen, and all
  choice : String → List (String × M) → Node M
  -- a pager: the current page, the number of items, that of one page, and the message of a page
  pagination : (current total size : ℕ) → (ℕ → M) → Node M
  -- a line or an area of text for which a key is sent too, with the shift key or without
  text_area : String → Text → (Text → M) → (key : String → Bool → M) → Node M
  -- a link of a class to a page, which is navigation and no message
  link : String → String → List Inline → Node M
  -- a link of a class to an address outside of the application
  outer_link : String → Text → List Inline → Node M
  -- an entry field of a class or a placeholder: its value, and the message of a change
  input : String → Text → (Text → M) → Node M
  -- a bar or a ring of a class, filled to one number of another
  gauge : String → ℕ → ℕ → Node M
  -- a small line through a list of numbers
  chart : String → List ℕ → Node M
  -- a field for any number of texts: those it has, those it suggests, and the message of a change
  tag_field : String → List Text → List Text → (List Text → M) → Node M
  -- a control that picks files of some types: the message of a choice
  file_field : String → List Text → (List Stamped → M) → Node M
  -- a place to drop files on: the messages of dragging over it and off it, and of a drop
  drop_zone : List String → M → M → (List Stamped → M) → Node M

-- The user can send the message by one of the nodes: a disabled control sends nothing.
abbrev pub Sends : {M : Type 0} → M → Node M → Type 0
Sends m (label c t) = ⊥
Sends m (box cs) = ⊥
Sends m (image c s t) = ⊥
Sends m (button c enabled t n) = (enabled ≡ true) × (m ≡ n)
Sends m (confirm c t n) = m ≡ n
Sends m (ask c t v f) = (o : Option Text) × (m ≡ f o)
Sends m (secret c v f) = (t : Text) × (m ≡ f t)
Sends m (limited c n v f) = (t : Text) × (length t ≤ n) × (m ≡ f t)
Sends {M = M} m (choice v os) = Any (λ (o : String × M). m ≡ o.1) os
Sends m (pagination current total size f) =
    (p : ℕ) × (1 ≤ p) × (p ≤ 1 + (total - 1) / size) × (m ≡ f p)
Sends m (text_area c v f key) =
    ((t : Text) × (m ≡ f t)) ⊎ ((k : String) × (shift : Bool) × (m ≡ key k shift))
Sends m (link c to t) = ⊥
Sends m (outer_link c to t) = ⊥
Sends m (input c v f) = (t : Text) × (m ≡ f t)
Sends m (gauge c n k) = ⊥
Sends m (chart c ns) = ⊥
Sends m (tag_field c v o f) = (ts : List Text) × (m ≡ f ts)
Sends m (file_field c a f) = (fs : List Stamped) × (m ≡ f fs)
Sends m (drop_zone cs over leave f) =
    (m ≡ over) ⊎ ((m ≡ leave) ⊎ ((fs : List Stamped) × (m ≡ f fs)))

abbrev pub Offers : {M : Type 0} → M → List (Node M) → Type 0
Offers m = Any (Sends m)

-- `condition && <element>`.
abbrev pub when {ℓ} : {A : Type ℓ} → Bool → List A → List A
when true ns = ns
when false ns = []

-- The message is offered by the first part or by the second.
pub Offers-append :
    {M : Type 0} (m : M) (xs ys : List (Node M)) → Offers m (xs ++ ys) → Offers m xs ⊎ Offers m ys
Offers-append m [] ys h = inr h
Offers-append m (x ∷ xs) ys (inl h) = inl (inl h)
Offers-append m (x ∷ xs) ys (inr h) = elim (Offers-append m xs ys h) [
  | inl k ↦ inl (inr k)
  | inr k ↦ inr k
]

pub Offers-append_right :
    {M : Type 0} (m : M) (xs ys : List (Node M)) → Offers m ys → Offers m (xs ++ ys)
Offers-append_right m [] ys h = h
Offers-append_right m (x ∷ xs) ys h = inr (Offers-append_right m xs ys h)

-- The message is offered by the nodes of one of the items.
pub Offers-flat_map {ℓ} :
    {M : Type 0} {A : Type ℓ} (m : M) (f : A → List (Node M)) (xs : List A)
    → Offers m (flat_map f xs)
    → Any (λ x. Offers m (f x)) xs
unfolding flat_map
Offers-flat_map m f [] h = h
Offers-flat_map m f (x ∷ xs) h = elim (Offers-append m (f x) (flat_map f xs) h) [
  | inl k ↦ inl k
  | inr k ↦ inr (Offers-flat_map m f xs k)
]

-- The message is offered by the node of one of the items.
pub Offers-map {ℓ} :
    {M : Type 0} {A : Type ℓ} (m : M) (f : A → Node M) (xs : List A)
    → Offers m (map f xs)
    → Any (λ x. Sends m (f x)) xs
Offers-map m f [] h = h
Offers-map m f (x ∷ xs) (inl h) = inl h
Offers-map m f (x ∷ xs) (inr h) = inr (Offers-map m f xs h)
