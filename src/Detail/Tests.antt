-- ===== src/Detail/Tests.antt =====
-- A canvas and a key, and the theorems at them.
use zhici_photo_upload_platf.Comments
use zhici_photo_upload_platf.Detail.{Env, State}
use zhici_photo_upload_platf.Prelude.{List, [], codes, false, none, true, ℕ, ◌∷◌}

abbrev canvas : List ℕ
canvas = 1 ∷ 2 ∷ 3 ∷ 255 ∷ []

abbrev env : Env
env = record { id = 3; user = none; is_loading = true; img = none; tags = [] }

abbrev shown : State
shown = record { colors = []; flipped = false }

abbrev comments_env : zhici_photo_upload_platf.Comments.Env
comments_env = record {
  image_id = 3;
  is_authenticated = true;
  user = none;
  is_loading = false;
  comments = [];
}

abbrev drafted : zhici_photo_upload_platf.Comments.State
drafted = record { draft = codes "hello"; pending = false }
