-- ===== src/Mobile/Feed/Tests.antt =====
-- A list of two pages, and the theorems at it.
use zhici_photo_upload_platf.Gallery.Tests.{image_of_id}
use zhici_photo_upload_platf.Media.{Image}
use zhici_photo_upload_platf.Mobile.Feed.{State, commit, initial, is_seen}
use zhici_photo_upload_platf.Mobile.Feed.Pages.{
  HasPages, InOrder, IsNew, Reach, Server, Step, listing, pages_in_order, upto,
}
use zhici_photo_upload_platf.Mobile.Feed.Reaching.{every_image_comes}
use zhici_photo_upload_platf.Prelude.{
  List, [], arith, if◌then◌else◌, leb, none, refl, ℕ, ◌+◌, ◌∷◌, ◌≡◌,
}

-- Two pages of one image each; the numbers beyond have the second.
abbrev page_of : ℕ → List Image
page_of k = if leb k 1 then image_of_id 1 ∷ [] else image_of_id 2 ∷ []

abbrev two_pages : Server
two_pages = record { page = page_of; total = 2; identity = λ k. k + 10 }

two_pages-HasPages : HasPages two_pages 2
unfolding upto
two_pages-HasPages = record {
  some_page = omega arith;
  full = λ k h l. ground arith;
  counted = refl;
}

initial-IsNew : IsNew two_pages initial
unfolding is_seen listing
initial-IsNew = refl

abbrev waiting_once : State
waiting_once = (commit none initial).0

waiting_once-Reach : Reach two_pages initial waiting_once
waiting_once-Reach = Reach.next Reach.here (Step.renders_waiting initial initial-IsNew)

waiting_in_order : InOrder two_pages 2 initial waiting_once
waiting_in_order =
    pages_in_order two_pages 2 two_pages-HasPages initial-IsNew refl waiting_once-Reach

two_pages_come : (u : State) × Reach two_pages waiting_once u × (u.all_images ≡ upto two_pages 2)
two_pages_come =
    every_image_comes two_pages 2 two_pages-HasPages initial-IsNew refl waiting_once-Reach
