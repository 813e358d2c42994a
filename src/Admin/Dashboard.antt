-- ===== src/Admin/Dashboard.antt =====
-- frontend/src/pages/admin/DashboardPage.tsx: the command palette, the chart of uploads and the page
-- around them. `toLowerCase` is a parameter.
pub mod View
pub mod Lines
pub mod Chart
pub mod Commands
mod Tests
use zhici_photo_upload_platf.Api.{Call, list_users, stats, tag_stats, update_user, upload_trend}
use zhici_photo_upload_platf.Auth.{Role, admin, user}
use zhici_photo_upload_platf.Media.{Effect, call, invalidate, navigate, page_at, success}
use zhici_photo_upload_platf.Prelude.{
  Bool, List, Option, String, Text, [], false, if◌then◌else◌, length, lit, ltb, map, none, not,
  some, str_eq, true, when, ℕ, ◌&&◌, ◌*◌, ◌+◌, ◌-◌, ◌∷◌,
}
use zhici_photo_upload_platf.Spark.{max_val}

-- A command of the palette.
pub record Command : Type 0 where
  pub title : String
  pub desc : String
  pub icon : String
  pub path : String

abbrev command : String → String → String → String → Command
command l d i p = record { title = l; desc = d; icon = i; path = p }

-- `COMMANDS`.
abbrev pub commands : List Command
commands =
    command "前往图库" "gallery" "◫" "/gallery"
    ∷ command "上传图片" "upload" "↑" "/upload"
    ∷ command "用户管理" "admin/users" "人" "/admin/users"
    ∷ command "图片管理" "admin/images" "⊞" "/admin/images"
    ∷ command "标签管理" "admin/tags" "⌗" "/admin/tags"
    ∷ command "个人中心" "profile" "○" "/profile"
    ∷ []

pub data Range : Type 0 where
  d7 d30 d90 : Range

-- The page's state, with that of the palette.
pub record State : Type 0 where
  pub cmd_open : Bool
  pub query : Text
  pub range : Range

pub data Msg : Type 0 where
  open_palette close_palette open_users : Msg
  set_query : Text → Msg
  pick : String → Msg
  -- a key on the window, and whether the command or the control key is held
  key_down : (held : Bool) (key : String) → Msg
  set_range : Range → Msg
  set_role : ℕ → Role → Msg
  role_answered : Bool → Msg

unfoldable pub initial : State
initial = record { cmd_open = false; query = []; range = d30 }

-- The query is emptied whenever the palette opens.
abbrev with_open : Bool → State → State
with_open true s = record s { cmd_open = true; query = if s.cmd_open then s.query else [] }
with_open false s = record s { cmd_open = false }

-- The handler of the window's keys.
unfoldable pub key_pressed : Bool → String → State → State
key_pressed held key s =
    let t = (if held && str_eq key "k" then with_open (not s.cmd_open) s else s) in
    if str_eq key "Escape" then with_open false t else t

abbrev role_value : Role → String
role_value user = "user"
role_value admin = "admin"

unfoldable pub update : Msg → State → State × List Effect
unfolding key_pressed
update open_palette s = (with_open true s, [])
update close_palette s = (with_open false s, [])
update open_users s = (s, navigate (page_at "/admin/users") ∷ [])
update (set_query t) s = (record s { query = t }, [])
update (pick to) s = (with_open false s, navigate (page_at to) ∷ [])
update (key_down held key) s = (key_pressed held key s, [])
update (set_range r) s = (record s { range = r }, [])
update (set_role id r) s = (s, call (update_user id (role_value r)) ∷ [])
update (role_answered ok) s =
    (s, when ok (invalidate "admin-users-recent" none ∷ success (lit "角色已更新" ∷ []) ∷ []))

-- The queries of the page; the range is only part of a key.
unfoldable pub queries : State → List Call
queries s = stats ∷ upload_trend ∷ tag_stats ∷ list_users (some 1) 5 none ∷ []

-- The uploads of one day.
pub record DayCount : Type 0 where
  pub day : Text
  pub count : ℕ

-- A point of the chart. With n + 1 points (and n at least 1), `x` is in parts of 1/n; and `y` is in
-- parts of 1/m for the most uploads m of a day (or 1).
pub record Point : Type 0 where
  pub x : ℕ
  pub y : ℕ
  pub day : Text
  pub count : ℕ

-- `Math.max(data.length - 1, 1)`, for a number of points.
abbrev pub steps_for : ℕ → ℕ
steps_for n = if ltb 2 n then n - 1 else 1

abbrev pub steps : List DayCount → ℕ
steps ds = steps_for (length ds)

abbrev pub counts : List DayCount → List ℕ
counts ds = map (λ (d : DayCount). d.count) ds

-- `PX + i / steps * innerW` and `PY + innerH - count / maxVal * innerH`: PX is 32, PY 16, innerW 316 and
-- innerH 128.
unfoldable pub points_from : ℕ → ℕ → ℕ → List DayCount → List Point
points_from n m i [] = []
points_from n m i (d ∷ ds) =
    record { x = 32 * n + i * 316; y = 144 * m - d.count * 128; day = d.day; count = d.count }
    ∷ points_from n m (i + 1) ds

unfoldable pub points : List DayCount → List Point
unfolding points_from max_val
points ds = points_from (steps ds) (max_val (counts ds)) 0 ds

abbrev pub distance : ℕ → ℕ → ℕ
distance a b = (a - b) + (b - a)

-- The loop of `handleMouseMove` behind its first round.
unfoldable pub closest_from : ℕ → Point → List Point → Point
closest_from mx best [] = best
closest_from mx best (p ∷ ps) =
    let nearer = closest_from mx p ps in
    let same = closest_from mx best ps in
    if ltb (distance p.x mx) (distance best.x mx) then nearer else same

-- The point that the tooltip shows when the mouse is at `mx`, in the same parts.
unfoldable pub closest : ℕ → List Point → Option Point
unfolding closest_from
closest mx [] = none
closest mx (p ∷ ps) = some (closest_from mx p ps)
