-- ===== src/Upload.antt =====
-- frontend/src/pages/upload/UploadPage.tsx: the queue of files, and the upload of one after another.
-- An upload that is running is part of the state: the handler's loop, between two answers.
pub mod View
pub mod Queue
pub mod Safety
pub mod Completion
pub mod Rounds
pub mod Sending
pub mod Offered
mod Tests
use zhici_photo_upload_platf.Api.{upload}
use zhici_photo_upload_platf.Media.{
  Effect, call, error_text, invalidate, later, navigate, page_at, revoke_url, success,
}
use zhici_photo_upload_platf.Prelude.{
  Bool, File, Inline, List, Option, Stamped, Text, [], codes, false, find, if◌then◌else◌, includes,
  keep, leb, lit, ltb, map, none, not, num, some, suc, text_eq, true, when, zero, ℕ, ◌%◌, ◌&&◌, ◌*◌,
  ◌++◌, ◌+◌, ◌/◌, ◌==◌, ◌∷◌,
}

pub data Status : Type 0 where
  pending uploading done failed : Status

-- A file in the queue. The number `id` stands for the text that `makeEntry` makes unique by the time
-- and a random number, `preview` for the object URL. The progress is in thousandths of a percent.
pub record FileEntry : Type 0 where
  pub id : ℕ
  pub file : File
  pub preview : ℕ
  pub status : Status
  pub progress : ℕ
  pub error_msg : List Inline

-- The loop of `handleUpload`: the entry whose upload is awaited, those after it, how many are done,
-- and the tags at the start.
pub record Run : Type 0 where
  pub current : FileEntry
  pub rest : List FileEntry
  pub done_so_far : ℕ
  pub tags : List Text

pub record State : Type 0 where
  pub files : List FileEntry
  pub dragging : Bool
  pub tags : List Text
  pub uploading : Bool
  pub done_count : ℕ
  pub run : Option Run

pub data Msg : Type 0 where
  drag_over drag_leave clear_all start_upload : Msg
  drop pick_files : List Stamped → Msg
  remove : ℕ → Msg
  toggle_tag : Text → Msg
  set_tags : List Text → Msg
  -- the ticker of the running upload, by a random amount below 18 percent
  tick : ℕ → Msg
  -- the answer to the running upload: whether it went well, and the message of an error's response
  answered : Bool → Option Text → Msg

unfoldable pub initial : State
initial = record {
  files = [];
  dragging = false;
  tags = [];
  uploading = false;
  done_count = 0;
  run = none;
}

-- frontend/src/utils/constants.ts
abbrev pub upload_max_size_bytes : ℕ
upload_max_size_bytes = 1 * 1024 * 1024 * 1024

abbrev pub allowed_image_types : List Text
allowed_image_types =
    codes "image/png"
    ∷ codes "image/jpeg"
    ∷ codes "image/gif"
    ∷ codes "image/webp"
    ∷ codes "image/bmp"
    ∷ []

unfoldable pub type_allowed : File → Bool
type_allowed f = includes allowed_image_types f.mime

unfoldable pub fits : File → Bool
unfolding type_allowed
fits f = type_allowed f && leb f.size upload_max_size_bytes

unfoldable pub make_entry : Stamped → FileEntry
unfolding fits type_allowed
make_entry f = record {
  id = f.id;
  file = f.file;
  preview = f.preview;
  status = if fits f.file then pending else failed;
  progress = 0;
  error_msg = if not (type_allowed f.file) then lit "不支持的格式" ∷ [] else lit "超过大小限制" ∷ [];
}

-- A number as text, in decimal digits; one digit for each unit of fuel.
decimal_from : ℕ → ℕ → Text → Text
decimal_from zero n acc = acc
decimal_from (suc fuel) n acc =
    let more = decimal_from fuel (n / 10) ((b'0' + n % 10) ∷ acc) in
    if ltb n 10 then (b'0' + n) ∷ acc else more

unfoldable pub decimal : ℕ → Text
unfolding decimal_from
decimal n = decimal_from (suc n) n []

-- `e.file.name + e.file.size`.
unfoldable pub file_key : FileEntry → Text
unfolding decimal
file_key e = e.file.file_name ++ decimal e.file.size

unfoldable pub add_files : List Stamped → List FileEntry → List FileEntry
add_files incoming prev =
    prev ++ keep (λ e. not (includes (map file_key prev) (file_key e))) (map make_entry incoming)

-- `prev.map(e => e.id === id ? change(e) : e)`.
unfoldable pub change : ℕ → (FileEntry → FileEntry) → List FileEntry → List FileEntry
change id f = map (λ e. if e.id == id then f e else e)

abbrev pub begun : FileEntry → FileEntry
begun e = record e { status = uploading; progress = 0 }

abbrev pub finished : FileEntry → FileEntry
finished e = record e { status = done; progress = 100000 }

abbrev pub broken : Option Text → FileEntry → FileEntry
broken message e = record e { status = failed; error_msg = error_text message "上传失败" }

abbrev pub ticked : ℕ → FileEntry → FileEntry
ticked amount e = if ltb e.progress 85000 then record e { progress = e.progress + amount } else e

abbrev pub is_pending : Status → Bool
is_pending pending = true
is_pending _ = false

-- The next round of the loop, or its end.
unfoldable pub advance : List Text → ℕ → List FileEntry → State → State × List Effect
unfolding change
advance tags n [] s = (
  record s { uploading = false; run = none },
  invalidate "images" none
      ∷ when (ltb 0 n) (
          success (num n ∷ lit " 张上传成功，即将跳转图库…" ∷ [])
          ∷ later 2000 (navigate (page_at "/gallery"))
          ∷ []),
)
advance tags n (e ∷ rest) s = (
  record s {
    files = change e.id begun s.files;
    run = some (record { current = e; rest = rest; done_so_far = n; tags = tags });
  },
  call (upload e.id tags) ∷ [],
)

-- `handleUpload` up to its first wait. The page offers it only while nothing is uploaded.
start : List FileEntry → State → State × List Effect
unfolding advance
start [] s = (s, [])
start (e ∷ rest) s = advance s.tags 0 (e ∷ rest) (record s { uploading = true; done_count = 0 })

tick_run : ℕ → Option Run → State → State
tick_run amount none s = s
tick_run amount (some r) s = record s { files = change r.current.id (ticked amount) s.files }

answer_run : Bool → Option Text → Option Run → State → State × List Effect
unfolding advance
answer_run ok message none s = (s, [])
answer_run true message (some r) s =
    advance r.tags (r.done_so_far + 1) r.rest
      (record s { files = change r.current.id finished s.files; done_count = r.done_so_far + 1 })
answer_run false message (some r) s =
    advance r.tags r.done_so_far r.rest
      (record s { files = change r.current.id (broken message) s.files })

abbrev revoked : Option FileEntry → List Effect
revoked none = []
revoked (some e) = revoke_url e.preview ∷ []

abbrev pub tag_toggled : Text → List Text → List Text
tag_toggled t ts = if includes ts t then keep (λ x. not (text_eq x t)) ts else ts ++ t ∷ []

unfoldable pub update : Msg → State → State × List Effect
unfolding add_files start tick_run answer_run
update drag_over s = (record s { dragging = true }, [])
update drag_leave s = (record s { dragging = false }, [])
update (drop incoming) s = (record s { dragging = false; files = add_files incoming s.files }, [])
update (pick_files incoming) s = (record s { files = add_files incoming s.files }, [])
update (remove id) s = (
  record s { files = keep (λ e. not (e.id == id)) s.files },
  revoked (find (λ (e : FileEntry). e.id == id) s.files),
)
update clear_all s = (record s { files = [] }, [])
update (toggle_tag t) s = (record s { tags = tag_toggled t s.tags }, [])
update (set_tags ts) s = (record s { tags = ts }, [])
update start_upload s = start (keep (λ (e : FileEntry). is_pending e.status) s.files) s
update (tick amount) s = (tick_run amount s.run s, [])
update (answered ok message) s = answer_run ok message s.run s
