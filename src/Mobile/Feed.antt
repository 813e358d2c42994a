-- ===== src/Mobile/Feed.antt =====
-- The endless list of mobile/src/screens/GalleryScreen.tsx and LandingScreen.tsx, whose code for it is
-- the same: the page that is asked for, the images that have come so far, and the effect that joins
-- them after a render.
pub mod Pages
pub mod Reaching
pub mod Loading
mod Tests
use zhici_photo_upload_platf.Api.{ListParams}
use zhici_photo_upload_platf.Media.{Image}
use zhici_photo_upload_platf.Prelude.{
  Bool, List, Option, Text, [], false, if◌then◌else◌, is_empty, length, ltb, map, none, not, some,
  ℕ, ◌&&◌, ◌++◌, ◌+◌, ◌==◌, ◌||◌,
}

-- A query's data. The number stands for the identity of the array `items`.
pub record Listing : Type 0 where
  pub items : List Image
  pub total : ℕ
  pub identity : ℕ

pub record State : Type 0 where
  pub page : ℕ
  pub search : Text
  pub tag_filter : Option Text
  pub refresh_key : ℕ
  pub all_images : List Image
  -- the reference `prevPage`
  pub prev_page : ℕ
  -- the array and the page that the effect ran for last; `none` for an array that was made in that
  -- render
  pub seen : Option (ℕ × ℕ)

abbrev pub initial : State
initial = record {
  page = 1;
  search = [];
  tag_filter = none;
  refresh_key = 0;
  all_images = [];
  prev_page = 0;
  seen = none;
}

-- Whether the effect's dependencies `[newItems, page]` are those of its last run. While the query has
-- no data, `newItems` is an array that this render has made.
unfoldable pub is_seen : Option Listing → State → Bool
is_seen none s = false
is_seen (some l) s = elim s.seen [
  | none ↦ false
  | some (identity, page) ↦ identity == l.identity && page == s.page
]

abbrev pub items_of : Option Listing → List Image
items_of none = []
items_of (some l) = l.items

abbrev pub total_of : Option Listing → ℕ
total_of none = 0
total_of (some l) = l.total

-- Whether the effect sets the state: then the screen is rendered again.
abbrev pub joins : State → Bool
joins s = s.page == 1 || ltb s.prev_page s.page

abbrev seen_at : ℕ → Option Listing → Option (ℕ × ℕ)
seen_at page none = none
seen_at page (some l) = some (l.identity, page)

-- The effect.
unfoldable pub run_effect : Option Listing → State → State
run_effect o s = record s {
  all_images =
      if s.page == 1
      then items_of o
      else if ltb s.prev_page s.page
      then s.all_images ++ items_of o
      else s.all_images;
  prev_page = if is_empty (items_of o) then s.prev_page else s.page;
  seen = seen_at s.page o;
}

-- A render with what the query has, and the effect after it; and whether that asks for another render.
unfoldable pub commit : Option Listing → State → State × Bool
commit o s = if is_seen o s then (s, false) else (run_effect o s, joins s)

-- `isRefreshing`, of the query's `isLoading`.
abbrev pub is_refreshing : Bool → State → Bool
is_refreshing is_loading s = is_loading && is_empty s.all_images

-- `onEndReached`
unfoldable pub end_reached : Bool → Option Listing → State → State
end_reached is_loading o s =
    if not (is_refreshing is_loading s) && ltb (length s.all_images) (total_of o)
    then record s { page = s.page + 1 }
    else s

-- `handleRefresh`
unfoldable pub refresh : State → State
refresh s = record s { page = 1; refresh_key = s.refresh_key + 1 }

-- The parameters of the query; `PAGE_SIZE` is 20. No order is asked for.
unfoldable pub feed_params : State → ListParams
feed_params s = record {
  page = s.page;
  limit = 20;
  tag = s.tag_filter;
  search = some s.search;
  sort = none;
}
