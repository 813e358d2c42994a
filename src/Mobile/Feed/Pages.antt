-- ===== src/Mobile/Feed/Pages.antt =====
-- What the list shows while the server's pages stay as they are: the pages in order.
use mathlib.Core.List.{append-nil}
use mathlib.Core.Path.{subst}
use native.Mathlib.Decide.{dec_lt}
use zhici_photo_upload_platf.Media.{Image}
use zhici_photo_upload_platf.Mobile.Feed.{
  Listing, State, commit, end_reached, is_seen, run_effect, items_of,
}
use zhici_photo_upload_platf.Prelude.{
  List, [], arith, false, none, some, suc, true, zero, ℕ, ◌++◌, ◌≡◌, ◌≤◌, Bool-cases, Option, inl,
  inr, is_empty, length, refl, ◌+◌, ◌<◌, ◌∙◌, ap, length-append, sym, ◌∷◌, Bool,
}

-- What the server has for one search: its pages, the first with the number 1, and how many images
-- there are in all. The identity of the array of a page is that of its answer.
pub record Server : Type 0 where
  pub page : ℕ → List Image
  pub total : ℕ
  pub identity : ℕ → ℕ

unfoldable pub listing : Server → ℕ → Listing
listing v k = record { items = v.page k; total = v.total; identity = v.identity k }

-- The first pages, in order.
unfoldable pub upto : Server → ℕ → List Image
upto v zero = []
upto v (suc k) = upto v k ++ v.page (suc k)

-- The effect has run for the data that the query of the page has.
abbrev pub IsShown : Server → State → Type 0
IsShown v s = is_seen (some (listing v s.page)) s ≡ true

abbrev pub IsNew : Server → State → Type 0
IsNew v s = is_seen (some (listing v s.page)) s ≡ false

-- The query of a page has no data, then the page's data, and keeps it. Renders, answers and scrolls to
-- the end come in any order.
pub data Step (v : Server) : State → State → Type 0 where
  renders_waiting : (s : State) → IsNew v s → Step v s (commit none s).0
  renders : (s : State) → Step v s (commit (some (listing v s.page)) s).0
  scrolls_waiting : (s : State) → IsNew v s → Step v s (end_reached true none s)
  scrolls : (s : State) → IsShown v s → Step v s (end_reached false (some (listing v s.page)) s)

pub data Reach (v : Server) (s : State) : State → Type 0 where
  here : Reach v s s
  next : {t u : State} → Reach v s t → Step v t u → Reach v s u

-- There are a number of pages, at least one, none of them is empty, and the total counts their images.
pub record HasPages (v : Server) (n : ℕ) : Type 0 where
  pub some_page : 1 ≤ n
  pub full : (k : ℕ) → 1 ≤ k → k ≤ n → is_empty (v.page k) ≡ false
  pub counted : v.total ≡ length (upto v n)

-- The page is shown below those before it, or it is still to come: then those before it are shown.
-- Before anything was rendered, the list is the one that the run began with.
pub data InOrder (v : Server) (n : ℕ) (z s : State) : Type 0 where
  shown :
      IsShown v s
      → s.all_images ≡ upto v s.page
      → s.prev_page ≡ s.page
      → (1 ≤ s.page) × (s.page ≤ n)
      → InOrder v n z s
  unrendered : IsNew v s → s.page ≡ 1 → s ≡ z → InOrder v n z s
  first : IsNew v s → s.page ≡ 1 → s.all_images ≡ [] → InOrder v n z s
  coming :
      (k : ℕ)
      → IsNew v s
      → s.page ≡ suc k
      → s.all_images ≡ upto v k
      → s.prev_page ≡ k
      → (1 ≤ k) × (k < n)
      → InOrder v n z s

pub is_seen-run_effect : (l : Listing) (s : State) → is_seen (some l) (run_effect (some l) s) ≡ true
unfolding is_seen run_effect
is_seen-run_effect l s = ground arith

is_seen-waiting : (l : Listing) (s : State) → is_seen (some l) (run_effect none s) ≡ false
unfolding is_seen run_effect
is_seen-waiting l s = refl

-- After turning the page, nothing has been seen of it.
is_seen-next :
    (l l' : Listing) (s : State)
    → is_seen (some l) s ≡ true
    → is_seen (some l') (record s { page = s.page + 1 }) ≡ false
unfolding is_seen
is_seen-next l l' s h = ground (arith, h)

all_images-first :
    (o : Option Listing) (s : State) → s.page ≡ 1 → (run_effect o s).all_images ≡ items_of o
unfolding run_effect
all_images-first o s h = rw h refl

all_images-coming :
    (o : Option Listing) (s : State) (k : ℕ)
    → s.page ≡ suc k
    → s.prev_page ≡ k
    → 1 ≤ k
    → (run_effect o s).all_images ≡ s.all_images ++ items_of o
unfolding run_effect
all_images-coming o s k e p h = ground (arith, e, p, h)

prev_page-full :
    (l : Listing) (s : State)
    → is_empty l.items ≡ false
    → (run_effect (some l) s).prev_page ≡ s.page
unfolding run_effect
prev_page-full l s h = rw h refl

is_empty-length {ℓ} : {A : Type ℓ} (xs : List A) → is_empty xs ≡ false → 1 ≤ length xs
is_empty-length [] h = cc
is_empty-length (x ∷ xs) h = omega arith

end_reached-waiting : (b : Bool) (s : State) → end_reached b none s ≡ s
unfolding end_reached
end_reached-waiting b s = ground arith

module _ (v : Server) (n : ℕ) (pages : HasPages v n) (z : State) where
  waiting-InOrder : (s : State) → IsNew v s → InOrder v n z s → InOrder v n z (run_effect none s)
  unfolding run_effect
  waiting-InOrder s new (shown h a p b) = cc
  waiting-InOrder s new (unrendered h e k) =
      first (is_seen-waiting _ s) e (all_images-first none s e)
  waiting-InOrder s new (first h e k) = first (is_seen-waiting _ s) e (all_images-first none s e)
  waiting-InOrder s new (coming k h e a p b) =
      coming k (is_seen-waiting _ s) e
        (all_images-coming none s k e p b.0 ∙ append-nil s.all_images ∙ a) p b

  first_loaded : (s : State) → s.page ≡ 1 → InOrder v n z (run_effect (some (listing v s.page)) s)
  unfolding listing upto run_effect
  first_loaded s e =
      let l = listing v s.page in
      let full : is_empty (v.page s.page) ≡ false =
        rw e (pages.full 1 (omega arith) pages.some_page) in
      shown (is_seen-run_effect l s) (all_images-first (some l) s e ∙ rw e refl)
        (prev_page-full l s full) (omega (arith, e), omega (arith, e, pages.some_page))

  pub loaded-InOrder :
      (s : State)
      → IsNew v s
      → InOrder v n z s
      → InOrder v n z (run_effect (some (listing v s.page)) s)
  unfolding listing upto run_effect
  loaded-InOrder s new (shown h a p b) = cc
  loaded-InOrder s new (unrendered h e k) = first_loaded s e
  loaded-InOrder s new (first h e k) = first_loaded s e
  loaded-InOrder s new (coming k h e a p b) =
      let l = listing v s.page in
      let full : is_empty (v.page s.page) ≡ false =
        rw e (pages.full (suc k) (omega arith) (omega (arith, b))) in
      shown (is_seen-run_effect l s) (all_images-coming (some l) s k e p b.0 ∙ rw (e, a) refl)
        (prev_page-full l s full) (omega (arith, e), omega (arith, e, b))

  renders-InOrder :
      (s : State) → InOrder v n z s → InOrder v n z (commit (some (listing v s.page)) s).0
  unfolding commit
  renders-InOrder s h = elim (Bool-cases (is_seen (some (listing v s.page)) s)) [
    | inl e ↦ rw (e, commit) h
    | inr e ↦ rw (e, commit) (loaded-InOrder s e h)
  ]

  length-upto-lt : (p m : ℕ) → p < m → m ≤ n → length (upto v p) < length (upto v m)
  unfolding upto
  length-upto-lt p zero h b = absurd (omega arith)
  length-upto-lt p (suc m) h b = ground (
    arith,
    length-append (upto v m) (v.page (suc m)),
    pages.full (suc m) (omega arith) b,
    length-upto-lt p m,
    is_empty-length (v.page (suc m)),
  )

  -- Scrolling to the end below the last page turns the page, and on the last page nothing.
  pub end_reached-turns :
      (s : State)
      → s.all_images ≡ upto v s.page
      → s.page < n
      → end_reached false (some (listing v s.page)) s ≡ record s { page = s.page + 1 }
  unfolding end_reached listing
  end_reached-turns s a h =
      ground (arith, ap length a, pages.counted, length-upto-lt s.page n h (omega arith))

  end_reached-stays :
      (s : State)
      → s.all_images ≡ upto v s.page
      → s.page ≡ n
      → end_reached false (some (listing v s.page)) s ≡ s
  unfolding end_reached listing
  end_reached-stays s a h =
      ground (arith, ap length a, pages.counted, ap (λ (k : ℕ). length (upto v k)) h)

  pub turned-InOrder :
      (s : State)
      → IsShown v s
      → s.all_images ≡ upto v s.page
      → s.prev_page ≡ s.page
      → (1 ≤ s.page) × (s.page < n)
      → InOrder v n z (record s { page = s.page + 1 })
  turned-InOrder s h a p b =
      coming s.page (is_seen-next (listing v s.page) (listing v (s.page + 1)) s h) (omega arith) a p
        b

  scrolls-InOrder :
      (s : State)
      → IsShown v s
      → InOrder v n z s
      → InOrder v n z (end_reached false (some (listing v s.page)) s)
  scrolls-InOrder s i (unrendered h e k) = cc
  scrolls-InOrder s i (first h e k) = cc
  scrolls-InOrder s i (coming k h e a p b) = cc
  scrolls-InOrder s i (shown h a p b) = elim (dec_lt s.page n) [
    | yes l ↦
        subst (InOrder v n z) (sym (end_reached-turns s a l)) (turned-InOrder s h a p (b.0, l))
    | no l ↦ subst (InOrder v n z) (sym (end_reached-stays s a (omega (arith, b)))) (shown h a p b)
  ]

  Step-InOrder : {s t : State} → Step v s t → InOrder v n z s → InOrder v n z t
  unfolding commit is_seen
  Step-InOrder (renders_waiting s new) h = waiting-InOrder s new h
  Step-InOrder (renders s) h = renders-InOrder s h
  Step-InOrder (scrolls_waiting s new) h =
      subst (InOrder v n z) (sym (end_reached-waiting true s)) h
  Step-InOrder (scrolls s i) h = scrolls-InOrder s i h

  Reach-InOrder : {s t : State} → InOrder v n z s → Reach v s t → InOrder v n z t
  Reach-InOrder h here = h
  Reach-InOrder h (next r st) = Step-InOrder st (Reach-InOrder h r)

-- Where the server's pages stay as they are, none of them is empty, and its total counts their images:
-- however often the list is rendered while a page is on its way, in whatever order the pages come and
-- the user scrolls, from a first page that is still to come, the list is the pages up to the one that
-- is asked for, in order, each once; while that one is on its way, those before it, and none while it is
-- the first. Only before anything is rendered it is the list from before.
pub pages_in_order :
    (v : Server) (n : ℕ)
    → HasPages v n
    → {s t : State} → IsNew v s
    → s.page ≡ 1
    → Reach v s t
    → InOrder v n s t
pages_in_order v n pages {s} i e r = Reach-InOrder v n pages s (unrendered i e refl) r
