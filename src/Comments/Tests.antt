-- ===== src/Comments/Tests.antt =====
-- A comment on its way, and the theorems at it.
use zhici_photo_upload_platf.Auth.Tests.{ann}
use zhici_photo_upload_platf.Comments.{Comment, Env, State, code_points, remove}
use zhici_photo_upload_platf.Comments.Laws.{Fits, Permitted, delete_own_only}
use zhici_photo_upload_platf.Comments.View.{comment_item, may_delete, view_section}
use zhici_photo_upload_platf.Prelude.{
  Any, Offers, Text, [], arith, codes, false, inl, inr, is_space, refl, some, trim, true, ◌∷◌, ◌≡◌,
  flat_map,
}

abbrev hello : Comment
hello = record {
  id = 5;
  user_id = 7;
  username = some (codes "ann");
  content = codes "hello";
  created_at = [];
}

abbrev env : Env
env = record {
  image_id = 3;
  is_authenticated = true;
  user = some ann;
  is_loading = false;
  comments = hello ∷ [];
}

abbrev drafted : State
drafted = record { draft = codes " hi "; pending = false }

abbrev hi : Text
hi = trim (codes " hi ")

hi-Fits : Fits hi
unfolding trim code_points is_space
hi-Fits = (λ e. absurd (cc), omega arith)

hello_offered : Offers (remove 5) (view_section env drafted)
unfolding view_section comment_item may_delete flat_map
hello_offered = inr (inr (inr (inr (inr (inl (refl, refl))))))

hello_deleted : Any (λ (c : Comment). (c.id ≡ 5) × Permitted (some ann) c) (hello ∷ [])
hello_deleted = delete_own_only env drafted 5 hello_offered
