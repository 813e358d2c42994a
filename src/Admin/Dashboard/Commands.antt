-- ===== src/Admin/Dashboard/Commands.antt =====
-- Where the command palette leads.
use mathlib.Core.Path.{subst}
use zhici_photo_upload_platf.Routes.{
  Route, Page, gallery_page, images_page, not_found_page, profile_page, redirect, render, tags_page,
  upload_page, users_page, visit,
}
use zhici_photo_upload_platf.Admin.Dashboard.{
  Command, State, close_palette, commands, pick, set_query,
}
use zhici_photo_upload_platf.Admin.Dashboard.View.{command_item, filtered, palette, command_matches}
use zhici_photo_upload_platf.Auth.{AuthState}
use zhici_photo_upload_platf.Prelude.{
  All, Any, Bool, Bool-cases, List, Offers, Offers-flat_map, Option, String, Text, [], arith,
  button, false, flat_map, inl, input, inr, keep, label, lit, refl, some, true, when, ◌∷◌, ◌≡◌, ◌≢◌,
}
use zhici_photo_upload_platf.Routes.Guards.{All-Any, IsRouter, visit_shows}

pick-item :
    (to : String) (cs : List Command)
    → Any (λ c. Offers (pick to) (command_item c)) cs
    → Any (λ (c : Command). c.path ≡ to) cs
unfolding command_item
pick-item to [] o = o
pick-item to (c ∷ cs) (inl o) = inl (ground arith)
pick-item to (c ∷ cs) (inr o) = inr (pick-item to cs o)

pick-when :
    (b : Bool) (query : Text) (p : String) (cs : List Command)
    → Offers (pick p) (
        when b (
          button "ad-cmd-overlay" true [] close_palette
          ∷ input "搜索命令..." query set_query
          ∷ label "ad-kbd" (lit "Esc" ∷ [])
          ∷ flat_map command_item cs))
    → Any (λ (c : Command). c.path ≡ p) cs
pick-when false query p cs o = absurd o
pick-when true query p cs (inl o) = absurd (ground arith)
pick-when true query p cs (inr (inl o)) = absurd (ground arith)
pick-when true query p cs (inr (inr (inl o))) = absurd o
pick-when true query p cs (inr (inr (inr o))) =
    pick-item p cs (Offers-flat_map (pick p) command_item cs o)

Any-keep : {A : Type 0} (P : A → Type 0) (f : A → Bool) (xs : List A) → Any P (keep f xs) → Any P xs
Any-keep P f [] a = a
Any-keep P f (x ∷ xs) a = elim (Bool-cases (f x)) [
  | inl e ↦ elim (rw e at a) [ inl k ↦ inl k | inr k ↦ inr (Any-keep P f xs k) ]
  | inr e ↦ inr (Any-keep P f xs (rw e at a))
]

-- An address leads to a page of its own at once.
abbrev pub LeadsTo : (String → Option Route) → AuthState → String → Type 0
LeadsTo match a to = (p : Page) × (visit match 1 a to ≡ some p) × (p ≢ not_found_page)

All-commands :
    (match : String → Option Route) (a : AuthState)
    → IsRouter match
    → a.is_authenticated ≡ true
    → a.is_admin ≡ true
    → All (λ (c : Command). LeadsTo match a c.path) commands
unfolding render redirect
All-commands match a m h e = (
  (
    gallery_page,
    visit_shows match 0 a "/gallery" _ gallery_page m.exact.1.1.1.0 (rw h refl),
    λ p. absurd (cc),
  ),
  (
    (
      upload_page,
      visit_shows match 0 a "/upload" _ upload_page m.exact.1.1.1.1.0 (rw h refl),
      λ p. absurd (cc),
    ),
    (
      (
        users_page,
        visit_shows match 0 a "/admin/users" _ users_page m.exact.1.1.1.1.1.1.1.1.0
            (rw (h, e) refl),
        λ p. absurd (cc),
      ),
      (
        (
          images_page,
          visit_shows match 0 a "/admin/images" _ images_page m.exact.1.1.1.1.1.1.1.1.1.0
              (rw (h, e) refl),
          λ p. absurd (cc),
        ),
        (
          (
            tags_page,
            visit_shows match 0 a "/admin/tags" _ tags_page m.exact.1.1.1.1.1.1.1.1.1.1.0
                (rw (h, e) refl),
            λ p. absurd (cc),
          ),
          (
            (
              profile_page,
              visit_shows match 0 a "/profile" _ profile_page m.exact.1.1.1.1.1.0 (rw h refl),
              λ p. absurd (cc),
            ),
            tt,
          ),
        ),
      ),
    ),
  ),
)

-- Whatever is typed into the command palette, each command that it offers leads an administrator to a
-- page of its own, without a redirect.
pub commands-lead :
    (match : String → Option Route) (a : AuthState) (lower : Text → Text) (s : State) (to : String)
    → IsRouter match
    → a.is_authenticated ≡ true
    → a.is_admin ≡ true
    → Offers (pick to) (palette lower s)
    → (p : Page) × (visit match 1 a to ≡ some p) × (p ≢ not_found_page)
unfolding palette filtered
commands-lead match a lower s to m h e o =
    let k =
      Any-keep (λ (c : Command). c.path ≡ to) (command_matches lower s.query) commands
        (pick-when s.cmd_open s.query to _ o) in
    let (c, l, q) =
      All-Any {P = λ c. LeadsTo match a c.path} {Q = λ c. c.path ≡ to} commands
        (All-commands match a m h e) k in
    subst (LeadsTo match a) q l
