-- ===== src/Profile/Tests.antt =====
-- Three images, and the theorem at them.
use zhici_photo_upload_platf.Detail.View.{second_part, until_slash}
use zhici_photo_upload_platf.Media.{Image}
use zhici_photo_upload_platf.Prelude.{
  All, List, String, Text, [], codes, length, none, refl, some, true, ℕ, ◌∷◌, ◌≡◌, ◌≤◌, ◌⊎◌,
}
use zhici_photo_upload_platf.Profile.{
  TypeStat, add_to, ext_of, group, insert_stat, sort_stats, type_stats,
}
use zhici_photo_upload_platf.Profile.Top.{Exact, Sorted, type_stats_lem}
use zhici_photo_upload_platf.Profile.Types.{files_of, has, total_size}

abbrev image_with : String → ℕ → Image
image_with mime size = record {
  id = size;
  filename = codes "a";
  url = codes "/a";
  thumbnail_url = none;
  download_url = none;
  alt_text = none;
  username = none;
  mime_type = some (codes mime);
  file_size = size;
  width = none;
  height = none;
  view_count = none;
  created_at = [];
  tags = [];
}

abbrev three : List Image
three = image_with "image/png" 5 ∷ image_with "image/gif" 7 ∷ image_with "image/png" 4 ∷ []

three_stats :
    (length (type_stats three) ≤ 4)
    × Sorted (type_stats three)
    × All (Exact three) (type_stats three)
    × ((e : Text)
        → (has e (type_stats three) ≡ true)
          ⊎ All (λ (g : TypeStat). total_size (files_of e three) ≤ g.size) (type_stats three))
three_stats = type_stats_lem three

-- The two PNG files come first, with 9 bytes.
three_types :
    type_stats three
    ≡ record { ext = codes "PNG"; count = 2; size = 9 }
      ∷ record { ext = codes "GIF"; count = 1; size = 7 }
      ∷ []
unfolding type_stats sort_stats group insert_stat add_to ext_of second_part until_slash
three_types = refl
