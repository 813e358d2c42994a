-- ===== src/Admin/Tests.antt =====
-- The administration's pages, and the theorems at them.
use zhici_photo_upload_platf.Admin.Tags
use zhici_photo_upload_platf.Admin.Users
use zhici_photo_upload_platf.Admin.Tags.{color_dot, create_form, create, set_name}
use zhici_photo_upload_platf.Admin.Tags.Naming.{IsShort}
use zhici_photo_upload_platf.Admin.Users.{reset_password}
use zhici_photo_upload_platf.Prelude.{
  Offers, [], arith, codes, false, flat_map, inl, inr, is_space, refl, trim, true,
}

abbrev named : zhici_photo_upload_platf.Admin.Tags.State
named = record {
  new_name = codes " sea ";
  new_color = codes "#c8a96e";
  custom_color = [];
  pending = false;
}

named-IsShort : IsShort named
named-IsShort = omega arith

sea_offered : Offers zhici_photo_upload_platf.Admin.Tags.create (create_form named)
unfolding create_form color_dot flat_map trim is_space
sea_offered = ground arith

renaming_offered :
    Offers
      (zhici_photo_upload_platf.Admin.Tags.set_name (codes "sky"))
      (zhici_photo_upload_platf.Admin.Tags.view_page true [] named)
unfolding zhici_photo_upload_platf.Admin.Tags.view_page create_form
renaming_offered = inr (inr (inr (inr (inr (inl (codes "sky", omega arith, refl))))))

abbrev first_page : zhici_photo_upload_platf.Admin.Users.State
first_page = record { page = 1; search = [] }

second_page_offered :
    Offers
      (zhici_photo_upload_platf.Admin.Users.set_page 2)
      (zhici_photo_upload_platf.Admin.Users.view_page [] 30 first_page)
unfolding zhici_photo_upload_platf.Admin.Users.view_page flat_map
second_page_offered = inr (inr (inl (2, omega arith, omega arith, refl)))
