-- ===== src/Mobile/Feed/Loading.antt =====
-- The list while a page is on its way, and after the server's images have changed.
use mathlib.Core.List.{append-nil}
use zhici_photo_upload_platf.Mobile.Feed.{Listing, State, commit, is_seen, joins, run_effect}
use zhici_photo_upload_platf.Prelude.{
  [], arith, false, if◌then◌else◌, none, some, suc, true, zero, ℕ, ◌==◌, ◌≡◌, ◌≢◌,
}

abbrev pub commit_times : ℕ → State → State
commit_times zero s = s
commit_times (suc n) s = commit_times n (commit none s).0

-- While the query of a page that is to be joined has no data, the effect sets the state after each
-- render, since each render makes a new empty array: each render asks for another one, and the list
-- is what it was, or empty on the first page.
pub waiting_renders_again :
    (n : ℕ) (s : State)
    → joins s ≡ true
    → ((commit none (commit_times n s)).1 ≡ true)
      × ((commit none (commit_times n s)).0.all_images ≡ (if s.page == 1 then [] else s.all_images))
unfolding commit is_seen run_effect
waiting_renders_again zero s h = (h, ground (arith, append-nil s.all_images, h))
waiting_renders_again (suc n) s h =
    let (more, same) = waiting_renders_again n (commit none s).0 h in
    (more, ground (arith, same, append-nil s.all_images, h))

-- On a later page, an answer with changed images, as after deleting one or giving it another name,
-- changes nothing of the list; on the first page the list becomes what the answer says.
pub changes_reach_first_page :
    (l : Listing) (s : State)
    → is_seen (some l) s ≡ false
    → s.prev_page ≡ s.page
    → (s.page ≡ 1 → (commit (some l) s).0.all_images ≡ l.items)
      × (s.page ≢ 1 → (commit (some l) s).0.all_images ≡ s.all_images)
unfolding commit run_effect
changes_reach_first_page l s h p = ground (arith, h, p)
