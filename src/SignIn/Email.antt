-- ===== src/SignIn/Email.antt =====
-- Which texts the forms take for an e-mail address.
use zhici_photo_upload_platf.Prelude.{
  All, Text, [], arith, refl, true, truthy, ◌++◌, ◌∷◌, ◌≡◌, ◌≢◌, &&_both, ==_iff, ap, inl, inr,
  ||_either, ◌&&◌, ◌==◌, ◌↔◌, ◌∙◌, truthy-≢, ≢-truthy,
}
use zhici_photo_upload_platf.SignIn.{
  all_plain, at_sign, domain, dot, plain, rest_of_domain, is_email, rest_of_email,
}

-- `[^\s@]+`.
abbrev pub Plain : Text → Type 0
Plain t = (t ≢ []) × All (λ c. plain c ≡ true) t

-- An address is a name, the sign @, a host, a full stop and an ending; none of the three is empty or
-- has a space or a sign @.
pub record IsEmail (t : Text) : Type 0 where
  pub user : Text
  pub host : Text
  pub ending : Text
  pub user_ok : Plain user
  pub host_ok : Plain host
  pub ending_ok : Plain ending
  pub parts : t ≡ user ++ (at_sign ∷ host ++ (dot ∷ ending))

all_plain_sound : (s : Text) → all_plain s ≡ true → All (λ c. plain c ≡ true) s
unfolding all_plain
all_plain_sound [] h = tt
all_plain_sound (c ∷ s) h = ground (arith, all_plain_sound s)

all_plain_complete : (s : Text) → All (λ c. plain c ≡ true) s → all_plain s ≡ true
unfolding all_plain
all_plain_complete [] h = refl
all_plain_complete (c ∷ s) h = ground (arith, all_plain_complete s h.1)

-- What is read after the first character of a part.
abbrev AfterHost : Text → Type 0
AfterHost s =
    (host : Text) × (ending : Text) × All (λ c. plain c ≡ true) host
    × Plain ending
    × (s ≡ host ++ (dot ∷ ending))

abbrev AfterUser : Text → Type 0
AfterUser s =
    (user : Text) × (d : Text) × All (λ c. plain c ≡ true) user
    × (domain d ≡ true)
    × (s ≡ user ++ (at_sign ∷ d))

rest_of_domain_sound : (s : Text) → rest_of_domain s ≡ true → AfterHost s
unfolding rest_of_domain
rest_of_domain_sound [] h = absurd (cc)
rest_of_domain_sound (c ∷ s) h =
    elim (||_either (c == dot && truthy s && all_plain s) (plain c && rest_of_domain s) h) [
      | inl k ↦
          ([], s, tt, (ground (arith, truthy-≢ s), ground (arith, all_plain_sound s)), ground arith)
      | inr k ↦
          let (p, r) = &&_both (plain c) (rest_of_domain s) k in
          let (host, ending, hh, he, e) = rest_of_domain_sound s r in
          (c ∷ host, ending, (p, hh), he, ap (◌∷◌ c) e)
    ]

rest_of_domain_complete :
    (host ending : Text)
    → All (λ c. plain c ≡ true) host
    → Plain ending
    → rest_of_domain (host ++ (dot ∷ ending)) ≡ true
unfolding rest_of_domain
rest_of_domain_complete [] ending h e =
    ground (arith, ≢-truthy ending e.0, all_plain_complete ending e.1)
rest_of_domain_complete (c ∷ host) ending h e =
    ground (arith, rest_of_domain_complete host ending h.1 e)

domain_sound :
    (s : Text)
    → domain s ≡ true
    → (host : Text) × (ending : Text) × Plain host × Plain ending × (s ≡ host ++ (dot ∷ ending))
unfolding domain
domain_sound [] h = absurd (cc)
domain_sound (c ∷ s) h =
    let (p, r) = &&_both (plain c) (rest_of_domain s) h in
    let (host, ending, hh, he, e) = rest_of_domain_sound s r in
    (c ∷ host, ending, (λ k. absurd (cc), (p, hh)), he, ap (◌∷◌ c) e)

domain_complete :
    (host ending : Text) → Plain host → Plain ending → domain (host ++ (dot ∷ ending)) ≡ true
unfolding domain
domain_complete [] ending h e = absurd (h.0 refl)
domain_complete (c ∷ host) ending h e = ground (arith, rest_of_domain_complete host ending h.1.1 e)

rest_of_email_sound : (s : Text) → rest_of_email s ≡ true → AfterUser s
unfolding rest_of_email
rest_of_email_sound [] h = absurd (cc)
rest_of_email_sound (c ∷ s) h =
    elim (||_either (c == at_sign && domain s) (plain c && rest_of_email s) h) [
      | inl k ↦
          ([], s, tt, (&&_both _ _ k).1, ap (λ x. x ∷ s) ((==_iff c at_sign).0 (&&_both _ _ k).0))
      | inr k ↦
          let (p, r) = &&_both (plain c) (rest_of_email s) k in
          let (u, d, hu, hd, e) = rest_of_email_sound s r in (c ∷ u, d, (p, hu), hd, ap (◌∷◌ c) e)
    ]

rest_of_email_complete :
    (u d : Text)
    → All (λ c. plain c ≡ true) u
    → domain d ≡ true
    → rest_of_email (u ++ (at_sign ∷ d)) ≡ true
unfolding rest_of_email
rest_of_email_complete [] d h e = ground arith
rest_of_email_complete (c ∷ u) d h e = ground (arith, rest_of_email_complete u d h.1 e)

is_email_sound : (s : Text) → is_email s ≡ true → IsEmail s
unfolding is_email
is_email_sound [] h = absurd (cc)
is_email_sound (c ∷ s) h =
    let (p, r) = &&_both (plain c) (rest_of_email s) h in
    let (u, d, hu, hd, e) = rest_of_email_sound s r in
    let (host, ending, hh, he, e') = domain_sound d hd in
    record {
      user = c ∷ u;
      host = host;
      ending = ending;
      user_ok = (λ k. absurd (cc), (p, hu));
      host_ok = hh;
      ending_ok = he;
      parts = ap (◌∷◌ c) (e ∙ ap (λ x. u ++ (at_sign ∷ x)) e');
    }

is_email_complete :
    (u host ending : Text)
    → Plain u
    → Plain host
    → Plain ending
    → is_email (u ++ (at_sign ∷ host ++ (dot ∷ ending))) ≡ true
unfolding is_email
is_email_complete [] host ending hu hh he = absurd (hu.0 refl)
is_email_complete (c ∷ u) host ending hu hh he = ground (
  arith,
  rest_of_email_complete u (host ++ (dot ∷ ending)) hu.1.1 (domain_complete host ending hh he),
)

-- The forms take a text for an e-mail address exactly if it is a name, the sign @, a host, a full
-- stop and an ending, of which none is empty or has white space or a sign @.
pub is_email_iff : (s : Text) → (is_email s ≡ true) ↔ IsEmail s
is_email_iff s = (
  is_email_sound s,
  λ h.
      ap is_email h.parts
      ∙ is_email_complete h.user h.host h.ending h.user_ok h.host_ok h.ending_ok,
)
