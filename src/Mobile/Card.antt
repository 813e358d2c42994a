-- ===== src/Mobile/Card.antt =====
-- mobile/src/components/ImageCard.tsx, TagChip.tsx and EmptyState.tsx, for messages of any screen.
use zhici_photo_upload_platf.Media.{Image, ImageTag}
use zhici_photo_upload_platf.Prelude.{
  Bool, List, Node, Option, String, Text, [], button, file_size, if◌then◌else◌, image, label, lit,
  map, none, or_else, some, take, true, txt, when, ◌++◌, ◌∷◌,
}

module _ {M : Type 0} where
  -- `TagChip`
  abbrev pub tag_chip : Bool → Text → M → Node M
  tag_chip active name m =
      button (if active then "chip chipActive" else "chip") true (txt name ∷ []) m

  -- `EmptyState`
  abbrev pub empty_state : String → List (Node M)
  empty_state message = label "icon" (lit "◷" ∷ []) ∷ label "text" (lit message ∷ []) ∷ []

  -- `showUploader && img.username`
  abbrev pub uploader_badge : Bool → Option Text → List (Node M)
  uploader_badge shown none = []
  uploader_badge shown (some []) = []
  uploader_badge shown (some (c ∷ s)) = when shown (label "uploaderText" (txt (c ∷ s) ∷ []) ∷ [])

  abbrev pub action_buttons : Option (Node M × Node M) → List (Node M)
  action_buttons none = []
  action_buttons (some (rename, delete)) = rename ∷ delete ∷ []

  -- `ImageCard`; the buttons for a new name and for deleting are given together.
  unfoldable pub image_card : Bool → Option (Node M × Node M) → M → Image → List (Node M)
  image_card show_uploader actions go img =
      button "card" true [] go
      ∷ image "image" (or_else img.thumbnail_url img.url) []
      ∷ (uploader_badge show_uploader img.username
          ++ (label "filename" (txt img.filename ∷ [])
              ∷ label "size" (file_size img.file_size ∷ [])
              ∷ (map (λ (t : ImageTag). label "tag" (txt t.name ∷ [])) (take 2 img.tags)
                  ++ action_buttons actions)))
