-- ===== src/Auth/Forms/Email.antt =====
-- forms.ts: the pattern /^[^\s@]+@[^\s@]+\.[^\s@]+$/ as an automaton, and the shape of an email.
use flash_pay.Prelude.{
  ℕ, Text, ◌≡◌, ◌≢◌, ◌↔◌, refl, ap, ◌∙◌, Bool, true, false, ◌&&◌, ◌||◌, not, Bool-cases, inl, inr,
  [], ◌∷◌, ◌++◌, ◌==◌, if◌then◌else◌, is_space, all, arith,
}

-- The class [^\s@]; 64 is `@`.
unfoldable pub is_plain : ℕ → Bool
is_plain c = not (is_space c) && not (c == 64)

-- The tail after the dot: [^\s@]+ to the end.
unfoldable pub plain_tail : Text → Bool
plain_tail [] = false
plain_tail (c ∷ s) = is_plain c && all is_plain s

-- A non-empty part of the domain has been read; 46 is the dot. A dot is also a plain unit, so the
-- first one after which plain units alone follow serves.
unfoldable pub domain_rest : Text → Bool
unfolding plain_tail
domain_rest [] = false
domain_rest (c ∷ s) = ((c == 46) && plain_tail s) || (is_plain c && domain_rest s)

unfoldable pub domain : Text → Bool
unfolding domain_rest
domain [] = false
domain (c ∷ s) = is_plain c && domain_rest s

-- A non-empty local part has been read.
unfoldable pub local_rest : Text → Bool
unfolding domain
local_rest [] = false
local_rest (c ∷ s) = if c == 64 then domain s else is_plain c && local_rest s

unfoldable pub email_pattern : Text → Bool
unfolding local_rest
email_pattern [] = false
email_pattern (c ∷ s) = is_plain c && local_rest s

-- A non-empty text without white space and `@`.
pub record IsPart (s : Text) : Type 0 where
  pub nonempty : s ≢ []
  pub plain : all is_plain s ≡ true

-- local@host.tld, where each part is non-empty and has neither white space nor `@`.
pub record IsEmail (s : Text) : Type 0 where
  pub local : Text
  pub host : Text
  pub tld : Text
  pub local_part : IsPart local
  pub host_part : IsPart host
  pub tld_part : IsPart tld
  pub shape : s ≡ local ++ 64 ∷ (host ++ 46 ∷ tld)

and-true : (a b : Bool) → (a && b) ≡ true → (a ≡ true) × (b ≡ true)
and-true a b h = ground arith

plain_tail_sound : (s : Text) → plain_tail s ≡ true → IsPart s
unfolding plain_tail
plain_tail_sound [] h = cc
plain_tail_sound (c ∷ s) h = record { nonempty = λ e. cc; plain = h }

plain_tail_complete : (s : Text) → IsPart s → plain_tail s ≡ true
unfolding plain_tail
plain_tail_complete [] h = absurd (h.nonempty refl)
plain_tail_complete (c ∷ s) h = h.plain

abbrev DomainRest : Text → Type 0
DomainRest s =
    (more : Text) × (tld : Text) × (s ≡ more ++ 46 ∷ tld) × (all is_plain more ≡ true) × IsPart tld

domain_rest_sound : (s : Text) → domain_rest s ≡ true → DomainRest s
unfolding domain_rest
domain_rest_sound [] h = cc
domain_rest_sound (c ∷ s) h = elim (Bool-cases ((c == 46) && plain_tail s)) [
  | inl here ↦
      let (dot, tail) = and-true (c == 46) (plain_tail s) here in
      let e : c ≡ 46 = ground arith in ([], s, ap (λ x. x ∷ s) e, refl, plain_tail_sound s tail)
  | inr later ↦
      let both : (is_plain c && domain_rest s) ≡ true = ground arith in
      let (plain, rest) = and-true (is_plain c) (domain_rest s) both in
      let (more, tld, e, p, part) = domain_rest_sound s rest in
      (c ∷ more, tld, ap (λ x. c ∷ x) e, rw plain p, part)
]

domain_rest_complete :
    (more tld : Text)
    → all is_plain more ≡ true
    → IsPart tld
    → domain_rest (more ++ 46 ∷ tld) ≡ true
unfolding domain_rest
domain_rest_complete [] tld p part = rw (plain_tail_complete tld part) refl
domain_rest_complete (c ∷ more) tld p part =
    ground
      (arith, domain_rest_complete more tld (and-true (is_plain c) (all is_plain more) p).1 part)

local_rest_sound :
    (s : Text)
    → local_rest s ≡ true
    → (more : Text) × (d : Text) × (s ≡ more ++ 64 ∷ d)
      × (all is_plain more ≡ true)
      × (domain d ≡ true)
unfolding local_rest
local_rest_sound [] h = cc
local_rest_sound (c ∷ s) h = elim (Bool-cases (c == 64)) [
  | inl at_sign ↦ let e : c ≡ 64 = ground arith in ([], s, ap (λ x. x ∷ s) e, refl, ground arith)
  | inr other ↦
      let both : (is_plain c && local_rest s) ≡ true = ground arith in
      let (plain, rest) = and-true (is_plain c) (local_rest s) both in
      let (more, d, e, p, dom) = local_rest_sound s rest in
      (c ∷ more, d, ap (λ x. c ∷ x) e, rw plain p, dom)
]

local_rest_complete :
    (more d : Text)
    → all is_plain more ≡ true
    → domain d ≡ true
    → local_rest (more ++ 64 ∷ d) ≡ true
unfolding local_rest is_plain
local_rest_complete [] d p dom = dom
local_rest_complete (c ∷ more) d p dom =
    ground (arith, local_rest_complete more d (and-true (is_plain c) (all is_plain more) p).1 dom)

IsPart-cons : (c : ℕ) (s : Text) → is_plain c ≡ true → all is_plain s ≡ true → IsPart (c ∷ s)
IsPart-cons c s p q = record { nonempty = λ e. cc; plain = rw p q }

email_pattern_sound : (s : Text) → email_pattern s ≡ true → IsEmail s
unfolding email_pattern domain
email_pattern_sound [] h = cc
email_pattern_sound (c ∷ s) h =
    let (plain, rest) = and-true (is_plain c) (local_rest s) h in
    let (more, d, e, p, dom) = local_rest_sound s rest in finish c s more d plain e p dom
  where
    finish :
        (c : ℕ) (s more d : Text)
        → is_plain c ≡ true
        → s ≡ more ++ 64 ∷ d
        → all is_plain more ≡ true
        → domain d ≡ true
        → IsEmail (c ∷ s)
    finish c s more [] plain e p dom = cc
    finish c s more (h ∷ d) plain e p dom =
        let (host_plain, rest) = and-true (is_plain h) (domain_rest d) dom in
        let (host, tld, e', p', part) = domain_rest_sound d rest in
        record {
          local = c ∷ more;
          host = h ∷ host;
          tld = tld;
          local_part = IsPart-cons c more plain p;
          host_part = IsPart-cons h host host_plain p';
          tld_part = part;
          shape = ap (λ x. c ∷ x) (e ∙ ap (λ x. more ++ 64 ∷ h ∷ x) e');
        }

domain_complete : (host tld : Text) → IsPart host → IsPart tld → domain (host ++ 46 ∷ tld) ≡ true
unfolding domain
domain_complete [] tld hp tp = absurd (hp.nonempty refl)
domain_complete (h ∷ host) tld hp tp =
    let (a, b) = and-true (is_plain h) (all is_plain host) hp.plain in
    rw (a, domain_rest_complete host tld b tp) refl

email_pattern_complete :
    (local d : Text) → IsPart local → domain d ≡ true → email_pattern (local ++ 64 ∷ d) ≡ true
unfolding email_pattern
email_pattern_complete [] d lp dom = absurd (lp.nonempty refl)
email_pattern_complete (c ∷ local) d lp dom =
    let (a, b) = and-true (is_plain c) (all is_plain local) lp.plain in
    rw (a, local_rest_complete local d b dom) refl

-- The email pattern accepts exactly the texts local@host.tld whose parts are non-empty and hold
-- neither white space nor `@`; the host may itself hold dots.
pub email_pattern_iff : (s : Text) → (email_pattern s ≡ true) ↔ IsEmail s
email_pattern_iff s = (
  email_pattern_sound s,
  λ e. rw e.shape (
      email_pattern_complete e.local (e.host ++ 46 ∷ e.tld) e.local_part
        (domain_complete e.host e.tld e.host_part e.tld_part)),
)
