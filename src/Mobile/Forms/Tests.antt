-- ===== src/Mobile/Forms/Tests.antt =====
-- A filled form of the mobile client.
use zhici_photo_upload_platf.Api.{login, register}
use zhici_photo_upload_platf.Mobile.Device.{call}
use zhici_photo_upload_platf.Mobile.Forms.{
  Form, has_at, login_view, register_view, submit, update_login, update_register,
}
use zhici_photo_upload_platf.Mobile.Forms.Laws.{CanSend, form_sends}
use zhici_photo_upload_platf.Prelude.{Offers, [], codes, false, leb, length, ◌&&◌, ◌↔◌, ◌∷◌, ◌≡◌}

abbrev typed_in : Form
typed_in = record {
  username = codes "ann";
  email = codes "a@b.c";
  password = codes "secret";
  error = [];
  pending = false;
}

typed_in_sends :
    (Offers submit (login_view typed_in)
      ↔ CanSend (has_at typed_in.email && leb 6 (length typed_in.password)) typed_in)
    × (Offers submit (register_view typed_in)
        ↔ CanSend
            (leb 2 (length typed_in.username)
              && has_at typed_in.email
              && leb 6 (length typed_in.password))
            typed_in)
    × ((update_login submit typed_in).1 ≡ call (login (codes "a@b.c") (codes "secret")) ∷ [])
    × ((update_register submit typed_in).1
        ≡ call (register (codes "ann") (codes "a@b.c") (codes "secret")) ∷ [])
    × (Offers submit (login_view (update_login submit typed_in).0) → ⊥)
    × (Offers submit (register_view (update_register submit typed_in).0) → ⊥)
typed_in_sends = form_sends typed_in
