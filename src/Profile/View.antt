-- ===== src/Profile/View.antt =====
-- What the profile shows.
use zhici_photo_upload_platf.Auth.{User, is_admin_role}
use zhici_photo_upload_platf.Format.{round_div}
use zhici_photo_upload_platf.Media.{Image}
use zhici_photo_upload_platf.Prelude.{
  Bool, Inline, List, Node, Option, Text, [], button, chart, confirm, date, file_size, flat_map,
  gauge, if◌then◌else◌, image, is_empty, label, length, lit, ltb, none, num, or_else, size_number,
  size_unit, some, take, true, txt, upper, when, ℕ, ◌*◌, ◌++◌, ◌==◌, ◌∷◌,
}
use zhici_photo_upload_platf.Profile.{
  Env, Msg, TypeStat, change_password, edit_profile, greeting, log_out, max_size, open_gallery,
  open_image, open_mine, open_upload, quota_bytes, trend, type_stats,
}

-- `GaugeRing`, for a used part of a quota: full from there on, with the rounded percentage.
unfoldable pub gauge_ring : Bool → ℕ → ℕ → List (Node Msg)
gauge_ring capped used quota =
    let part = (if ltb quota used then quota else used) in
    gauge "pf-gauge" part quota
    ∷ label "pf-gauge-pct"
        (num (round_div (100 * (if capped then part else used)) quota) ∷ lit "%" ∷ [])
    ∷ label "pf-gauge-lbl" (lit "USED" ∷ [])
    ∷ []

-- `Sparkline`.
unfoldable pub sparkline : List ℕ → List (Node Msg)
sparkline [] = []
sparkline (n ∷ ns) = chart "pf-spark" (n ∷ ns) ∷ []

abbrev two_digits : ℕ → List Inline
two_digits n = when (ltb n 10) (lit "0" ∷ []) ++ num n ∷ []

unfoldable pub side : Bool → User → List (Node Msg)
side is_admin u =
    label "pf-avatar-big" (upper (take 1 u.username) ∷ [])
    ∷ label "pf-uname" (txt u.username ∷ [])
    ∷ label "pf-umail" (txt u.email ∷ [])
    ∷ label "pf-urole" (lit (if is_admin then "★ ADMINISTRATOR" else "· REGISTERED USER") ∷ [])
    ∷ label "pf-uquote" (lit "\"keep what catches the light\"" ∷ [])
    ∷ label "pf-mi" (lit "个人中心 " ∷ lit "overview" ∷ [])
    ∷ button "pf-mi" true (lit "编辑资料 " ∷ lit "edit" ∷ []) edit_profile
    ∷ button "pf-mi" true (lit "修改密码 " ∷ lit "security" ∷ []) change_password
    ∷ button "pf-mi" true (lit "返回图库 " ∷ lit "gallery" ∷ []) open_gallery
    ∷ confirm "pf-mi-danger" (lit "登出 " ∷ lit "logout" ∷ []) log_out
    ∷ []

unfoldable pub greet : Env → User → List (Node Msg)
unfolding greeting
greet env u =
    let g = greeting env.hour in
    label "pf-kana" (lit g.kana ∷ lit " · " ∷ lit g.en ∷ [])
    ∷ label "pf-greet-h" (lit "回来啦，" ∷ txt u.username ∷ lit "。" ∷ [])
    ∷ label "pf-time" (two_digits env.hour ++ lit ":" ∷ two_digits env.minute)
    ∷ label "pf-date" (txt env.today ∷ [])
    ∷ []

unfoldable pub breakdown_row : ℕ → TypeStat → List (Node Msg)
breakdown_row most t =
    label "pf-bd-name" (txt t.ext ∷ lit " " ∷ lit "· " ∷ num t.count ∷ lit " files" ∷ [])
    ∷ label "pf-bd-val" (file_size t.size ∷ [])
    ∷ gauge "pf-bd-fill" t.size most
    ∷ []

unfoldable pub breakdown : List TypeStat → List (Node Msg)
unfolding breakdown_row max_size
breakdown ts =
    if ltb 0 (length ts)
    then flat_map (breakdown_row (max_size ts)) ts
    else label "pf-bd-empty" (lit "暂无上传记录" ∷ []) ∷ []

unfoldable pub quota : Bool → User → List TypeStat → List (Node Msg)
unfolding gauge_ring breakdown
quota is_admin u ts =
    label "pf-sec-label" (lit "STORAGE QUOTA" ∷ [])
    ∷ label "pf-sec-title" (lit "影像存储 · 配额" ∷ [])
    ∷ label "pf-q-used" (size_number u.storage_used ∷ size_unit u.storage_used ∷ [])
    ∷ label "pf-q-quota"
        (lit "/ " ∷ (if is_admin then lit "∞ admin" ∷ [] else num 5 ∷ lit " GB" ∷ []))
    ∷ (gauge_ring is_admin u.storage_used quota_bytes ++ breakdown ts)

abbrev or_one : ℕ → ℕ
or_one n = if n == 0 then 1 else n

-- The tiles; the line below the storage, whose last value is the percentage, goes by its rounding.
unfoldable pub tiles : (days_ago : Text → ℕ) → Bool → Env → User → List (Node Msg)
unfolding sparkline
tiles days_ago is_admin env u =
    let types = length (type_stats env.recent) in
    label "pf-tile-label" (lit "UPLOADED" ∷ [])
    ∷ label "pf-tile-val" (num env.total ∷ [])
    ∷ (sparkline (trend days_ago env.recent)
        ++ label "pf-tile-label" (lit "FILE TYPES" ∷ [])
          ∷ label "pf-tile-val" (num types ∷ [])
          ∷ (sparkline (2 ∷ 3 ∷ 3 ∷ 4 ∷ 4 ∷ 5 ∷ or_one types ∷ [])
              ++ label "pf-tile-label" (lit "STORAGE" ∷ [])
                ∷ label "pf-tile-val" (size_number u.storage_used ∷ size_unit u.storage_used ∷ [])
                ∷ (sparkline (
                      5
                      ∷ 8
                      ∷ 12
                      ∷ 18
                      ∷ 25
                      ∷ 30
                      ∷ or_one (round_div (100 * u.storage_used) quota_bytes)
                      ∷ [])
                    ++ label "pf-tile-label" (lit "ROLE" ∷ [])
                      ∷ label "pf-role-val" (lit (if is_admin then "★" else "○") ∷ [])
                      ∷ label "pf-role-text"
                          (lit (if is_admin then "Administrator" else "User") ∷ [])
                      ∷ [])))

unfoldable pub feed_item : Image → List (Node Msg)
feed_item img =
    button "pf-fi" true [] (open_image img.id)
    ∷ label "pf-fi-d" (date img.created_at ∷ [])
    ∷ label "pf-fi-t" (lit "上传了 " ∷ txt img.filename ∷ lit "· " ∷ file_size img.file_size ∷ [])
    ∷ image "pf-fi-thumb" (or_else img.thumbnail_url img.url) []
    ∷ []

unfoldable pub feed : List Image → List (Node Msg)
unfolding feed_item
feed is =
    label "pf-feed-head" (lit "近期影像 " ∷ lit "· recent uploads" ∷ [])
    ∷ button "pf-feed-link" true (lit "查看全部 →" ∷ []) open_mine
    ∷ (if is_empty is
        then label "pf-feed-empty" (lit "暂无上传记录" ∷ [])
          ∷ button "" true (lit "+ 上传第一张" ∷ []) open_upload
          ∷ []
        else flat_map feed_item (take 6 is))

abbrev view_user : (days_ago : Text → ℕ) → Env → Option User → List (Node Msg)
view_user days_ago env none = []
view_user days_ago env (some u) =
    let is_admin = is_admin_role u.role in
    side is_admin u
    ++ (greet env u
        ++ (quota is_admin u (type_stats env.recent)
            ++ (tiles days_ago is_admin env u ++ feed env.recent)))

unfoldable pub view_page : (days_ago : Text → ℕ) → Env → List (Node Msg)
view_page days_ago env = view_user days_ago env env.user
