-- ===== src/Profile.antt =====
-- frontend/src/pages/profile/ProfilePage.tsx: the user's own page. The clock is a parameter, and so
-- is how many days ago a time is.
pub mod View
pub mod Types
pub mod Top
pub mod Sparks
mod Tests
use zhici_photo_upload_platf.Api.{Call, list, logout}
use zhici_photo_upload_platf.Auth.{User, user}
use zhici_photo_upload_platf.Detail.View.{second_part}
use zhici_photo_upload_platf.Media.{
  Effect, Image, call, end_session, image_page, navigate, notice, page_at, page_with, success,
}
use zhici_photo_upload_platf.Prelude.{
  List, Option, String, Text, [], codes, file_size, if◌then◌else◌, keep, leb, length, lit, ltb, map,
  none, some, take, text_eq, truthy, when, ℕ, ◌&&◌, ◌*◌, ◌+◌, ◌-◌, ◌==◌, ◌∷◌,
}

-- What the page reads from outside. `recent` is the answer to the page's query.
pub record Env : Type 0 where
  pub user : Option User
  pub refresh_token : Option Text
  pub recent : List Image
  pub total : ℕ
  pub hour : ℕ
  pub minute : ℕ
  -- the date of today, as `toLocaleDateString` prints it
  pub today : Text

pub data Msg : Type 0 where
  edit_profile change_password open_gallery open_mine open_upload log_out : Msg
  open_image : ℕ → Msg
  -- the call that logs out has ended, well or not
  logged_out : Msg

pub record Greeting : Type 0 where
  pub kana : String
  pub en : String

-- `useGreeting`; the page does not show its third text.
unfoldable pub greeting : ℕ → Greeting
greeting hour =
    if ltb hour 6
    then record { kana = "凌 晨"; en = "late night" }
    else if ltb hour 11
    then record { kana = "早 上"; en = "good morning" }
    else if ltb hour 14
    then record { kana = "中 午"; en = "noontime" }
    else if ltb hour 18
    then record { kana = "下 午"; en = "good afternoon" }
    else if ltb hour 22
    then record { kana = "晚 上"; en = "good evening" }
    else record { kana = "深 夜"; en = "late evening" }

unfoldable pub images_query : Call
images_query =
    list (record { page = 1; limit = 100; tag = none; search = none; sort = some "newest" })

-- One file type with the number of its files and their size.
pub record TypeStat : Type 0 where
  pub ext : Text
  pub count : ℕ
  pub size : ℕ

-- `toUpperCase`, of a mime type, which is of ASCII.
abbrev pub upper_ascii : Text → Text
upper_ascii t = map (λ c. if leb b'a' c && leb c b'z' then c - 32 else c) t

-- `(mime_type?.split('/')[1] ?? 'other').toUpperCase()`.
unfoldable pub ext_of : Option Text → Text
ext_of none = codes "OTHER"
ext_of (some m) = elim (second_part m) [ none ↦ codes "OTHER" | some t ↦ upper_ascii t ]

-- One more file of a type, in the groups in the order in which their types came up.
unfoldable pub add_to : Text → ℕ → List TypeStat → List TypeStat
add_to ext size [] = record { ext = ext; count = 1; size = size } ∷ []
add_to ext size (g ∷ gs) =
    let rest = add_to ext size gs in
    if text_eq g.ext ext
    then record { ext = g.ext; count = g.count + 1; size = g.size + size } ∷ gs
    else g ∷ rest

unfoldable pub group : List Image → List TypeStat → List TypeStat
unfolding add_to ext_of
group [] gs = gs
group (i ∷ rest) gs = group rest (add_to (ext_of i.mime_type) i.file_size gs)

-- `arr.sort((a, b) => b.size - a.size)`, which is stable.
unfoldable pub insert_stat : TypeStat → List TypeStat → List TypeStat
insert_stat a [] = a ∷ []
insert_stat a (b ∷ bs) =
    let rest = insert_stat a bs in if ltb a.size b.size then b ∷ rest else a ∷ b ∷ bs

unfoldable pub sort_stats : List TypeStat → List TypeStat
unfolding insert_stat
sort_stats [] = []
sort_stats (g ∷ gs) = insert_stat g (sort_stats gs)

unfoldable pub type_stats : List Image → List TypeStat
unfolding sort_stats group
type_stats is = take 4 (sort_stats (group is []))

-- How many of the images are of the day that was so many days ago.
uploads_on : (days_ago : Text → ℕ) → ℕ → List Image → ℕ
uploads_on days_ago d is = length (keep (λ (i : Image). days_ago i.created_at == d) is)

-- `trendData`: the seven days up to today.
unfoldable pub trend : (days_ago : Text → ℕ) → List Image → List ℕ
unfolding uploads_on
trend days_ago is = map (λ d. uploads_on days_ago d is) (6 ∷ 5 ∷ 4 ∷ 3 ∷ 2 ∷ 1 ∷ 0 ∷ [])

unfoldable pub max_size : List TypeStat → ℕ
max_size [] = 1
max_size (g ∷ gs) = let rest = max_size gs in if ltb rest g.size then g.size else rest

abbrev pub quota_bytes : ℕ
quota_bytes = 5 * 1024 * 1024 * 1024

abbrev log_out_effects : Option Text → List Effect
log_out_effects none = []
log_out_effects (some t) = when (truthy t) (call (logout t) ∷ [])

-- The state of the page is the clock's alone.
unfoldable pub effects : Env → Msg → List Effect
effects env edit_profile = notice (lit "编辑资料：开发中" ∷ []) ∷ []
effects env change_password = notice (lit "修改密码：开发中" ∷ []) ∷ []
effects env open_gallery = navigate (page_at "/gallery") ∷ []
effects env open_mine = navigate (page_with "/gallery" "?mine=1") ∷ []
effects env open_upload = navigate (page_at "/upload") ∷ []
effects env (open_image id) = navigate (image_page id) ∷ []
effects env log_out = log_out_effects env.refresh_token
effects env logged_out = end_session ∷ success (lit "已登出" ∷ []) ∷ navigate (page_at "/login") ∷ []
