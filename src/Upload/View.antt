-- ===== src/Upload/View.antt =====
-- What the upload page shows: the drop zone, the queue, and the button that starts the upload.
-- The files that a message brings get their ids and previews from the environment.
use zhici_photo_upload_platf.Media.{Tag}
use zhici_photo_upload_platf.Prelude.{
  Bool, List, Node, String, Text, [], box, button, drop_zone, false, file_field, file_size,
  flat_map, gauge, if◌then◌else◌, image, includes, is_empty, keep, label, length, lit, ltb, map,
  not, num, percent, tag_field, take, true, txt, when, ℕ, ◌&&◌, ◌++◌, ◌==◌, ◌∷◌,
}
use zhici_photo_upload_platf.Upload.{
  FileEntry, Msg, State, Status, allowed_image_types, clear_all, done, drag_leave, drag_over, drop,
  failed, is_pending, pending, pick_files, remove, set_tags, start_upload, toggle_tag, uploading,
}

-- `FunnelIcon`: three particles while something is dragged over the page.
unfoldable pub funnel_icon : Bool → List (Node Msg)
funnel_icon active =
    box ("up-funnel" ∷ [])
    ∷ when active
        (box ("up-particle" ∷ []) ∷ box ("up-particle" ∷ []) ∷ box ("up-particle" ∷ []) ∷ [])

-- `CircleProgress`, for 0 of 0 an empty ring.
unfoldable pub circle_progress : ℕ → ℕ → List (Node Msg)
circle_progress value total =
    (if total == 0 then gauge "up-circle" 0 1 else gauge "up-circle" value total)
    ∷ label "up-circle-val" (num value ∷ [])
    ∷ label "up-circle-total" (lit "/" ∷ num total ∷ [])
    ∷ []

abbrev status_class : Status → String
status_class pending = "pending"
status_class uploading = "uploading"
status_class done = "done"
status_class failed = "error"

-- What a card shows of the status below the size.
abbrev status_nodes : FileEntry → Status → List (Node Msg)
status_nodes e pending = []
status_nodes e uploading =
    gauge "up-prog-bar" e.progress 100000 ∷ label "up-prog-pct" (percent e.progress ∷ []) ∷ []
status_nodes e done = label "up-status-done" (lit "✓" ∷ lit "done" ∷ []) ∷ []
status_nodes e failed = label "up-status-err" (lit "⚠ " ∷ e.error_msg) ∷ []

abbrev pub removable : Status → Bool
removable pending = true
removable failed = true
removable _ = false

-- `FileCard`. The preview is the address of an object that only the browser has.
unfoldable pub file_card : FileEntry → List (Node Msg)
file_card e =
    box ("up-file-card" ∷ status_class e.status ∷ [])
    ∷ image "up-thumb" [] e.file.file_name
    ∷ label "up-file-name" (txt e.file.file_name ∷ [])
    ∷ label "up-file-size" (file_size e.file.size ∷ [])
    ∷ (status_nodes e e.status
        ++ when (removable e.status)
            (button "up-remove-btn" true (lit "✕" ∷ []) (remove e.id) ∷ []))

unfoldable pub drop_area : State → List (Node Msg)
drop_area s =
    drop_zone ("up-dz" ∷ when s.dragging ("active" ∷ [])) drag_over drag_leave drop
    ∷ (funnel_icon s.dragging
        ++ label "up-dz-kana" (lit "投 · 影" ∷ [])
          ∷ label "up-dz-title" (lit "把影像，" ∷ lit "放" ∷ lit "进这里" ∷ [])
          ∷ label "up-dz-sub" (lit "拖拽图片到此区域" ∷ lit "或" ∷ [])
          ∷ label "up-dz-dots" (lit "· · ·" ∷ [])
          ∷ label "up-dz-btn" (lit "选择文件" ∷ [])
          ∷ file_field "up-dz-btn" allowed_image_types pick_files
          ∷ label "up-dz-formats"
              (lit "PNG · JPG · WEBP · GIF · BMP" ∷ lit "·" ∷ lit "≤ 1GB / 张" ∷ [])
          ∷ when s.dragging (box ("up-dz-pulse" ∷ []) ∷ []))

abbrev pub is_failed : Status → Bool
is_failed failed = true
is_failed _ = false

unfoldable pub pending_count : State → ℕ
pending_count s = length (keep (λ (e : FileEntry). is_pending e.status) s.files)

unfoldable pub total_valid : State → ℕ
total_valid s = length (keep (λ (e : FileEntry). not (is_failed e.status)) s.files)

unfoldable pub queue_head : List FileEntry → List (Node Msg)
queue_head files =
    label "up-q-title" (lit "上传队列" ∷ [])
    ∷ when (ltb 0 (length files)) (
        label "up-q-sub" (lit " · " ∷ num (length files) ∷ lit " 个文件" ∷ [])
        ∷ button "up-q-clear" true (lit "全部清除" ∷ []) clear_all
        ∷ [])

unfoldable pub total_card : State → List (Node Msg)
unfolding total_valid circle_progress
total_card s = when s.uploading (
    circle_progress s.done_count (total_valid s)
    ++ label "up-total-label" (lit "UPLOADING" ∷ [])
      ∷ label "up-total-detail"
          (num s.done_count ∷ lit " / " ∷ num (total_valid s) ∷ lit " 张完成" ∷ [])
      ∷ (if total_valid s == 0
          then gauge "up-total-bar" 0 1
          else gauge "up-total-bar" s.done_count (total_valid s))
      ∷ [])

-- The button of a tag that is offered for all files.
unfoldable pub preset_tag : List Text → Tag → List (Node Msg)
preset_tag tags t =
    box ("up-preset-tag" ∷ when (includes tags t.name) ("on" ∷ []))
    ∷ button "up-preset-tag" true (txt t.name ∷ []) (toggle_tag t.name)
    ∷ []

unfoldable pub preset_tags : List Tag → State → List (Node Msg)
preset_tags available s =
    label "up-preset-label" (lit "批量打标签" ∷ [])
    ∷ (flat_map (preset_tag s.tags) (take 6 available)
        ++ tag_field "up-tag-select" s.tags (map (λ (t : Tag). t.name) available) set_tags ∷ [])

unfoldable pub file_list : List FileEntry → List (Node Msg)
file_list files =
    when (is_empty files) (label "up-empty-hint" (lit "从左侧拖入图片" ∷ []) ∷ [])
    ++ flat_map file_card files

unfoldable pub submit : State → List (Node Msg)
submit s = when (ltb 0 (pending_count s) && not s.uploading) (
    button "up-submit" true (lit "上传 " ∷ num (pending_count s) ∷ lit " 张影像" ∷ lit "→" ∷ [])
      start_upload
    ∷ [])

-- The page, with the tags that the backend lists.
unfoldable pub view_page : List Tag → State → List (Node Msg)
view_page available s =
    drop_area s
    ++ (queue_head s.files
        ++ (total_card s ++ (preset_tags available s ++ (file_list s.files ++ submit s))))
