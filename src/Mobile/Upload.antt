-- ===== src/Mobile/Upload.antt =====
-- mobile/src/screens/UploadScreen.tsx: the photos that are picked, their tags, and the one request that
-- uploads them. What the system's picker and the server answer comes back as a message.
pub mod Laws
mod Tests
use zhici_photo_upload_platf.Prelude.{
  Bool, Inline, List, Option, String, Text, [], codes, false, file_size, if◌then◌else◌, includes,
  is_empty, keep, leb, lit, ltb, map, none, not, num, or_else, some, suc, take, text_eq, true, txt,
  zero, ℕ, ◌&&◌, ◌++◌, ◌==◌, ◌||◌, ◌∷◌, Node, button, image, label, length, ◌*◌,
}

-- What the picker tells of a photo.
pub record Asset : Type 0 where
  pub uri : Text
  pub file_name : Option Text
  pub mime_type : Option Text
  pub file_size : Option ℕ

pub record State : Type 0 where
  pub files : List Asset
  pub tags : List Text
  -- `uploadMutation.isPending`
  pub pending : Bool

-- A part `files` of the form that is sent.
pub record Part : Type 0 where
  pub uri : Text
  pub mime : Text
  pub name : Text

-- The request: the token of its header, and its form. Without a token the header spells `null`.
pub record Upload : Type 0 where
  pub token : Option Text
  pub parts : List Part
  pub tags : Option (List Text)

-- The text of a response: JSON with a field `message` or without, `null`, or no JSON.
pub data Body : Type 0 where
  json : Option Text → Body
  json_null : Body
  garbage : Body

pub data Msg : Type 0 where
  -- the controls of the screen
  pick_images take_photo press_upload : Msg
  remove_at : ℕ → Msg
  press_tag : Text → Msg
  -- the answers: photos (`none` when called off), the permission, and how the request ended
  picked : Option (List Asset) → Msg
  permission : Bool → Msg
  on_load : (status : ℕ) → Body → Msg
  on_error on_timeout : Msg

pub data Effect : Type 0 where
  launch_library request_camera launch_camera : Effect
  send : Upload → Effect
  invalidate_my_images go_to_gallery : Effect
  alert : (title : String) → List Inline → Effect

abbrev pub initial : State
initial = record { files = []; tags = []; pending = false }

-- The class `[a-zA-Z0-9._-]`.
abbrev pub is_plain : ℕ → Bool
is_plain c =
    (leb 97 c && leb c 122)
    || (leb 65 c && leb c 90)
    || (leb 48 c && leb c 57)
    || c == 46
    || c == 95
    || c == 45

abbrev plain_code : ℕ → ℕ
plain_code c = if is_plain c then c else 95

-- `name.replace(/[^a-zA-Z0-9._-]/g, '_')`
unfoldable pub plain_name : Text → Text
plain_name [] = []
plain_name (c ∷ t) = plain_code c ∷ plain_name t

unfoldable pub part_of : Asset → Part
part_of f = record {
  uri = f.uri;
  mime = or_else f.mime_type (codes "image/jpeg");
  name = plain_name (or_else f.file_name (codes "photo.jpg"));
}

-- `mutationFn` up to `xhr.send`
unfoldable pub upload_of : Option Text → State → Upload
upload_of token s = record {
  token = token;
  parts = map part_of s.files;
  tags = if is_empty s.tags then none else some s.tags;
}

-- `[...prev, ...result.assets].slice(0, 10)`
unfoldable pub add_assets : Option (List Asset) → State → State
add_assets none s = s
add_assets (some new) s = if is_empty new then s else record s { files = take 10 (s.files ++ new) }

unfoldable pub remove_index {ℓ} : {A : Type ℓ} → ℕ → List A → List A
remove_index i [] = []
remove_index zero (x ∷ xs) = xs
remove_index (suc i) (x ∷ xs) = x ∷ remove_index i xs

unfoldable pub toggle_tag : Text → State → State
toggle_tag t s =
    if includes s.tags t
    then record s { tags = keep (λ x. not (text_eq x t)) s.tags }
    else record s { tags = s.tags ++ t ∷ [] }

-- `onError`: the alert with the error's message.
abbrev failed : List Inline → State → State × List Effect
failed msg s = (record s { pending = false }, alert "上传失败" msg ∷ [])

abbrev http_error : ℕ → List Inline
http_error status = lit "HTTP " ∷ num status ∷ []

-- The message of an error's response, if there is one.
abbrev message_of : ℕ → Body → List Inline
message_of status (json (some [])) = http_error status
message_of status (json (some (c ∷ t))) = txt (c ∷ t) ∷ []
message_of status (json none) = http_error status
message_of status json_null = http_error status
message_of status garbage = http_error status

-- `onSuccess`
abbrev succeeded : State → State × List Effect
succeeded s = (record s { files = []; pending = false }, invalidate_my_images ∷ go_to_gallery ∷ [])

-- `xhr.onload`. Reading a good response that is not JSON throws in the handler, so that the promise is
-- never settled.
unfoldable pub loaded : ℕ → Body → State → State × List Effect
loaded status garbage s =
    if leb 200 status && ltb status 300 then (s, []) else failed (http_error status) s
loaded status b s =
    if leb 200 status && ltb status 300 then succeeded s else failed (message_of status b) s

unfoldable pub update : Option Text → Msg → State → State × List Effect
update token pick_images s = (s, launch_library ∷ [])
update token take_photo s = (s, request_camera ∷ [])
update token press_upload s = (record s { pending = true }, send (upload_of token s) ∷ [])
update token (remove_at i) s = (record s { files = remove_index i s.files }, [])
update token (press_tag t) s = (toggle_tag t s, [])
update token (picked o) s = (add_assets o s, [])
update token (permission true) s = (s, launch_camera ∷ [])
update token (permission false) s = (s, alert "请允许相机权限" [] ∷ [])
update token (on_load status b) s = loaded status b s
update token on_error s = failed (lit "XHR error" ∷ []) s
update token on_timeout s = failed (lit "Upload timeout" ∷ []) s

-- `UPLOAD_MAX_SIZE_BYTES`
abbrev max_size : ℕ
max_size = 1 * 1024 * 1024 * 1024

abbrev or_zero : Option ℕ → ℕ
or_zero none = 0
or_zero (some n) = n

abbrev shown_name : ℕ → Option Text → List Inline
shown_name i none = lit "photo_" ∷ num i ∷ []
shown_name i (some []) = lit "photo_" ∷ num i ∷ []
shown_name i (some (c ∷ t)) = txt (c ∷ t) ∷ []

-- The rows of the photos from an index on.
unfoldable pub rows : ℕ → List Asset → List (Node Msg)
rows i [] = []
rows i (f ∷ fs) =
    let size = or_zero f.file_size in
    image "thumb" f.uri []
    ∷ label "fileName" (shown_name i f.file_name)
    ∷ label "fileSize" (file_size size ∷ (if ltb max_size size then lit " (超限)" ∷ [] else []))
    ∷ button "removeBtn" true (lit "✕" ∷ []) (remove_at i)
    ∷ rows (suc i) fs

unfoldable pub tag_chips : List Text → List Text → List (Node Msg)
tag_chips chosen [] = []
tag_chips chosen (t ∷ ts) =
    button (if includes chosen t then "chip chipActive" else "chip") true (txt t ∷ []) (press_tag t)
    ∷ tag_chips chosen ts

-- The button that uploads.
unfoldable pub upload_button : State → List (Node Msg)
upload_button s =
    button "uploadBtn" (not (s.pending || is_empty s.files))
      (if s.pending then [] else lit "上传 " ∷ num (length s.files) ∷ lit " 张" ∷ []) press_upload
    ∷ []

unfoldable pub preview : List Text → State → List (Node Msg)
preview available s =
    if is_empty s.files
    then []
    else label "subtitle" (lit "已选 " ∷ num (length s.files) ∷ lit " 张" ∷ [])
      ∷ (rows 0 s.files
          ++ (label "subtitle" (lit "添加标签（可选）" ∷ [])
              ∷ (tag_chips s.tags available ++ upload_button s)))

-- The screen, with the names of the tags that there are.
unfoldable pub view : List Text → State → List (Node Msg)
view available s =
    label "title" (lit "上传图片" ∷ [])
    ∷ label "dropIcon" (lit "╋" ∷ [])
    ∷ label "dropText" (lit "选择图片上传" ∷ [])
    ∷ label "dropHint" (lit "支持 PNG, JPEG, GIF, WebP, BMP" ∷ [])
    ∷ button "pickBtn" true (lit "相册" ∷ []) pick_images
    ∷ button "pickBtnOutline" true (lit "拍照" ∷ []) take_photo
    ∷ preview available s
