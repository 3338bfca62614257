-- ===== src/Auth/Forms/Laws.antt =====
-- forms.ts: which values the two forms accept.
use flash_pay.Prelude.{
  ℕ, ◌*◌, ◌≤◌, ◌<◌, Text, ◌≡◌, ◌≢◌, ◌↔◌, refl, true, false, Bool-cases, inl, inr, none, [], ◌∷◌,
  length, is_nonempty, text_eq_iff, trim, arith,
}
use flash_pay.Auth.Forms.{
  LoginFormValues, RegisterFormValues, count_utf8_bytes, unit_bytes, is_pair, email_error,
  validate_login_form, validate_register_form, has_login_errors, has_register_errors,
}
use flash_pay.Auth.Forms.Email.{IsEmail, email_pattern_iff}

unit_bytes-bounds : (c : ℕ) → (1 ≤ unit_bytes c) × (unit_bytes c ≤ 3)
unit_bytes-bounds c = (ground arith, ground arith)

-- A text takes at least as many bytes of UTF-8 as it has code units, and at most three times as
-- many.
pub count_utf8_bytes-bounds :
    (s : Text) → (length s ≤ count_utf8_bytes s) × (count_utf8_bytes s ≤ 3 * length s)
unfolding count_utf8_bytes
count_utf8_bytes-bounds [] = (omega arith, omega arith)
count_utf8_bytes-bounds (a ∷ []) = (ground arith, ground arith)
count_utf8_bytes-bounds (a ∷ b ∷ s) =
    let (lo, hi) = count_utf8_bytes-bounds s in
    let (lo', hi') = count_utf8_bytes-bounds (b ∷ s) in
    elim (Bool-cases (is_pair a b)) [
      | inl pair ↦ rw (pair, count_utf8_bytes) (omega arith, omega arith)
      | inr single ↦
          rw (single, count_utf8_bytes)
            (omega (arith, unit_bytes-bounds a), omega (arith, unit_bytes-bounds a))
    ]

ne-nil_iff : (s : Text) → (is_nonempty s ≡ true) ↔ (s ≢ [])
ne-nil_iff [] = (λ h. cc, λ h. absurd (h refl))
ne-nil_iff (c ∷ s) = (λ h e. cc, λ h. refl)

nonempty_of_length : (s : Text) → 0 < length s → is_nonempty s ≡ true
nonempty_of_length [] h = elim h [ ]
nonempty_of_length (c ∷ s) h = refl

module _ (lower : Text → Text) where
  email_error_iff : (email : Text) → (email_error lower email ≡ none) ↔ IsEmail (lower (trim email))
  unfolding email_error
  email_error_iff email =
      let (sound, complete) = email_pattern_iff (lower (trim email)) in
      (λ h. sound (ground arith), λ h. rw (complete h) refl)

  -- What a login form must hold to be sent.
  pub record IsLogin (v : LoginFormValues) : Type 0 where
    pub email : IsEmail (lower (trim v.email))
    pub password : trim v.password ≢ []
    pub fits : count_utf8_bytes v.password ≤ 72

  -- The login form has no errors exactly where the trimmed and lower-cased email is one, the
  -- password is not blank and it takes at most 72 bytes.
  pub validate_login_form_iff :
      (v : LoginFormValues) → (has_login_errors (validate_login_form lower v) ≡ false) ↔ IsLogin v
  unfolding validate_login_form
  validate_login_form_iff v =
      let (is_email, email_accepted) = email_error_iff v.email in
      let (given, shown) = ne-nil_iff (trim v.password) in
      (
        λ h. record {
          email = is_email (ground arith);
          password = given (ground arith);
          fits = ground arith;
        },
        λ l. ground (arith, email_accepted l.email, shown l.password, l.fits),
      )

  pub record IsRegistration (v : RegisterFormValues) : Type 0 where
    pub name_long : 2 ≤ length (trim v.name)
    pub name_short : length (trim v.name) ≤ 100
    pub email : IsEmail (lower (trim v.email))
    pub password_long : 8 ≤ length v.password
    pub password_fits : count_utf8_bytes v.password ≤ 72
    pub confirmed : v.confirm_password ≡ v.password

  -- The registration form has no errors exactly where the trimmed name has 2 to 100 code units,
  -- the trimmed and lower-cased email is one, the password has at least 8 code units and takes at
  -- most 72 bytes, and the confirmation is the password.
  pub validate_register_form_iff :
      (v : RegisterFormValues)
      → (has_register_errors (validate_register_form lower v) ≡ false) ↔ IsRegistration v
  unfolding validate_register_form
  validate_register_form_iff v =
      let (is_email, email_accepted) = email_error_iff v.email in
      let same = text_eq_iff v.confirm_password v.password in
      (
        λ h. record {
          name_long = ground arith;
          name_short = ground arith;
          email = is_email (ground arith);
          password_long = ground arith;
          password_fits = ground arith;
          confirmed = same.0 (ground arith);
        },
        λ r.
            let typed : is_nonempty v.confirm_password ≡ true =
              rw r.confirmed (nonempty_of_length v.password (omega arith)) in
            ground (arith, email_accepted r.email, same.1 r.confirmed, typed),
      )
