-- ===== src/Admin/Dashboard/View.antt =====
-- What the dashboard shows.
use zhici_photo_upload_platf.Admin.Dashboard.{
  Command, DayCount, Msg, Range, State, close_palette, commands, d30, d7, d90, open_palette,
  open_users, pick, role_value, set_query, set_range, set_role, max_val, counts, points,
}
use zhici_photo_upload_platf.Auth.{Role, admin, user}
use zhici_photo_upload_platf.Prelude.{
  Bool, List, Node, String, Text, [], box, button, chart, choice, codes, false, file_size, flat_map,
  gauge, if◌then◌else◌, input, is_empty, keep, label, lit, map, num, or_else, some, take, true, txt,
  upper, when, ℕ, ◌&&◌, ◌++◌, ◌==◌, ◌||◌, ◌∷◌, Inline,
}
use zhici_photo_upload_platf.Admin.Dashboard.Lines.{captions, last_seven, simulated}

-- `text.includes(part)`.
unfoldable pub starts_with : Text → Text → Bool
starts_with [] t = true
starts_with (c ∷ s) [] = false
starts_with (c ∷ s) (d ∷ t) = c == d && starts_with s t

unfoldable pub contains : Text → Text → Bool
unfolding starts_with
contains part [] = starts_with part []
contains part (c ∷ t) = starts_with part (c ∷ t) || contains part t

abbrev pub command_matches : (lower : Text → Text) → Text → Command → Bool
command_matches lower query c =
    contains query (codes c.title) || contains (lower query) (codes c.desc)

unfoldable pub filtered : (lower : Text → Text) → Text → List Command
filtered lower query = keep (command_matches lower query) commands

unfoldable pub command_item : Command → List (Node Msg)
command_item c =
    button "ad-cmd-item" true (lit c.icon ∷ lit c.title ∷ lit c.desc ∷ []) (pick c.path) ∷ []

-- `CommandPalette`.
unfoldable pub palette : (lower : Text → Text) → State → List (Node Msg)
unfolding command_item
palette lower s = when s.cmd_open (
    button "ad-cmd-overlay" true [] close_palette
    ∷ input "搜索命令..." s.query set_query
    ∷ label "ad-kbd" (lit "Esc" ∷ [])
    ∷ flat_map command_item (filtered lower s.query))

-- What the page reads of the answers; a number that is missing is 0.
pub record Stats : Type 0 where
  pub total_users : ℕ
  pub total_images : ℕ
  pub total_storage : ℕ
  pub today_uploads : ℕ

pub record TopTag : Type 0 where
  pub tag_name : Text
  pub image_count : ℕ

pub record UserRow : Type 0 where
  pub id : ℕ
  pub username : Text
  pub email : Text
  pub role : Role
  pub storage_used : ℕ

pub record Env : Type 0 where
  pub is_loading : Bool
  pub stats : Stats
  pub trend : List DayCount
  pub top_tags : List TopTag
  pub users : List UserRow
  -- the hour and the minute of the day, of universal time
  pub hour : ℕ
  pub minute : ℕ

abbrev is_range : Range → Range → Bool
is_range d7 d7 = true
is_range d30 d30 = true
is_range d90 d90 = true
is_range _ _ = false

abbrev range_button : Range → Range → String → List (Node Msg)
range_button current r caption =
    box ("ad-range-btn" ∷ when (is_range current r) ("on" ∷ []))
    ∷ button "ad-range-btn" true (lit caption ∷ []) (set_range r)
    ∷ []

unfoldable pub top : State → List (Node Msg)
top s =
    label "ad-top-title" (lit "仪表盘 " ∷ lit "· admin panel" ∷ [])
    ∷ button "ad-cmd-trigger" true (lit "search anything" ∷ lit "⌘K" ∷ []) open_palette
    ∷ (range_button s.range d7 "7d"
        ++ (range_button s.range d30 "30d" ++ range_button s.range d90 "90d"))

-- `Sparkline` shows nothing without a number.
abbrev spark_of : List ℕ → List (Node Msg)
spark_of [] = []
spark_of (n ∷ ns) = chart "ad-spark" (n ∷ ns) ∷ []

abbrev tile : String → List Inline → List ℕ → List (Node Msg)
tile caption value ns = label "ad-kpi" (lit caption ∷ value) ∷ spark_of ns

-- The tiles, with what `kpiSparks` gives each.
unfoldable pub tiles : Stats → List DayCount → List (Node Msg)
unfolding simulated last_seven
tiles s trend =
    tile "TOTAL USERS" (num s.total_users ∷ []) (simulated 2 s.total_users)
    ++ (tile "TOTAL IMAGES" (num s.total_images ∷ []) (simulated 5 s.total_images)
        ++ (tile "STORAGE" (file_size s.total_storage ∷ []) (simulated 1000000 s.total_storage)
            ++ tile "TODAY UPLOADS" (num s.today_uploads ∷ []) (last_seven (counts trend))))

unfoldable pub tag_row : ℕ → TopTag → List (Node Msg)
tag_row most t =
    label "ad-tag-name" (txt t.tag_name ∷ [])
    ∷ gauge "ad-tag-bar-fill" t.image_count most
    ∷ label "ad-tag-total" (num t.image_count ∷ [])
    ∷ []

unfoldable pub charts : Env → List (Node Msg)
unfolding tag_row captions
charts env =
    label "ad-cbox-head" (lit "上传趋势" ∷ lit "upload trend · daily" ∷ [])
    ∷ ((if is_empty env.trend
          then label "ad-chart-empty" (lit "暂无数据" ∷ []) ∷ []
          else chart "ad-trend-svg" (counts env.trend)
            ∷ map (λ t. label "text" (txt t ∷ [])) (captions (points env.trend)))
        ++ label "ad-cbox-head" (lit "标签热度" ∷ lit "top tags" ∷ [])
          ∷ (if is_empty env.top_tags
              then label "ad-chart-empty" (lit "暂无标签数据" ∷ []) ∷ []
              else flat_map (tag_row (max_val (map (λ (t : TopTag). t.image_count) env.top_tags)))
                  (take 6 env.top_tags)))

unfoldable pub user_row : UserRow → List (Node Msg)
user_row u =
    label "ad-user-av" (upper (take 1 (or_else (some u.username) u.email)) ∷ [])
    ∷ label "ad-user-name" (txt u.username ∷ [])
    ∷ label "ad-user-email" (txt u.email ∷ [])
    ∷ choice (role_value u.role)
        (("USER", set_role u.id user) ∷ ("ADMIN", set_role u.id admin) ∷ [])
    ∷ label "ad-user-storage" (file_size u.storage_used ∷ [])
    ∷ []

-- The recent users, and the state of the system, which is a constant.
unfoldable pub tables : Env → List (Node Msg)
unfolding user_row
tables env =
    label "ad-cbox-head" (lit "近期用户" ∷ [])
    ∷ button "ad-cbox-link" true (lit "管理 →" ∷ []) open_users
    ∷ (flat_map user_row env.users
        ++ (when (is_empty env.users) (label "ad-chart-empty" (lit "暂无用户数据" ∷ []) ∷ [])
            ++ label "ad-cbox-head" (lit "系统状态" ∷ lit "system health" ∷ [])
              ∷ label "ad-health-row" (lit "PostgreSQL" ∷ lit "● healthy" ∷ [])
              ∷ label "ad-health-row" (lit "Redis" ∷ lit "● healthy" ∷ [])
              ∷ label "ad-health-row" (lit "MinIO / S3" ∷ lit "● healthy" ∷ [])
              ∷ label "ad-health-row" (lit "Print sync" ∷ lit "● running" ∷ [])
              ∷ label "ad-health-row" (lit "Nginx" ∷ lit "● healthy" ∷ [])
              ∷ label "ad-health-row" (lit "API" ∷ lit "● healthy" ∷ [])
              ∷ label "ad-health-row"
                  (lit "API uptime" ∷ num env.hour ∷ lit "h " ∷ num env.minute ∷ lit "m" ∷ [])
              ∷ []))

unfoldable pub view_page : (lower : Text → Text) → Env → State → List (Node Msg)
view_page lower env s =
    if env.is_loading
    then label "ad-loading" (lit "○" ∷ []) ∷ []
    else palette lower s ++ (top s ++ (tiles env.stats env.trend ++ (charts env ++ tables env)))
