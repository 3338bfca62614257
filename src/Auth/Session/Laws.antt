-- ===== src/Auth/Session/Laws.antt =====
-- authSlice.ts: theorems on what the storage holds, over logins, logouts and reloads.
use flash_pay.Prelude.{
  ℕ, ◌+◌, ◌-◌, ◌%◌, ◌<◌, Text, ◌≡◌, refl, ap, ◌∙◌, true, false, ◌||◌, not, Bool-cases, inl, inr,
  Option, none, some, List, [], ◌∷◌, length, length-append, length-replicate, replicate,
  is_nonempty, text_eq, text_eq_self, lookup, insert, remove, lookup-insert, lookup-remove, arith,
  length-map, if◌then◌else◌,
}
use flash_pay.Auth.Session.{
  User, AuthState, AuthResponse, token_key, user_key, Storage, Platform, valid_user, replace_unit,
  pad_base64, parse_stored_user, is_token_expired, clear_stored_credentials, signed_out,
  hydrate_from, hydrate_auth_state, set_credentials, logout, ◌>>=◌,
}

-- `JSON.parse` of a stored user gives a value that reads as that user.
pub record StoresUsers (p : Platform) : Type 0 where
  pub reads_back : (u : User) → (p.json_parse (p.stringify_user u) >>= valid_user) ≡ some u
  pub nonempty : (u : User) → is_nonempty (p.stringify_user u) ≡ true

length-replace_unit : (a b : ℕ) (s : Text) → length (replace_unit a b s) ≡ length s
unfolding replace_unit
length-replace_unit a b s = length-map s _

-- The padding makes the length a multiple of four, adds at most three signs, and keeps the rest.
pub pad_base64-length :
    (s : Text) → (length (pad_base64 s) % 4 ≡ 0) × (length (pad_base64 s) < length s + 4)
unfolding pad_base64
pad_base64-length s =
    let t = replace_unit 95 47 (replace_unit 45 43 s) in
    let n = (4 - length t % 4) % 4 in
    let total = length-append t (replicate n 61) in
    let padding = length-replicate {A = ℕ} n 61 in
    let kept = length-replace_unit 95 47 (replace_unit 45 43 s) ∙ length-replace_unit 45 43 s in
    (omega (arith, total, padding, kept), omega (arith, total, padding, kept))

keys_differ : text_eq user_key token_key ≡ false
unfolding text_eq
keys_differ = refl

module _ (p : Platform) (laws : StoresUsers p) where
  stored_user : (u : User) → parse_stored_user p (some (p.stringify_user u)) ≡ some u
  unfolding parse_stored_user
  stored_user u = rw (laws.nonempty u) (laws.reads_back u)

  stored_token :
      (r : AuthResponse) (s : AuthState × Storage)
      → lookup token_key (set_credentials p r s).1 ≡ some r.token
  unfolding set_credentials
  stored_token r s =
      rw
        (
          lookup-insert user_key token_key (p.stringify_user r.user) (insert token_key r.token s.1),
          keys_differ,
        )
        (rw (lookup-insert token_key token_key r.token s.1, text_eq_self token_key) refl)

  stored_raw_user :
      (r : AuthResponse) (s : AuthState × Storage)
      → lookup user_key (set_credentials p r s).1 ≡ some (p.stringify_user r.user)
  unfolding set_credentials
  stored_raw_user r s =
      rw
        (
          lookup-insert user_key user_key (p.stringify_user r.user) (insert token_key r.token s.1),
          text_eq_self user_key,
        )
        refl

  -- What was stored by a login is read at the next start of the application: the same session,
  -- where the token is not empty and has not expired, and no session, with the stored
  -- credentials removed, where it is empty or has expired.
  pub hydrate-set_credentials :
      (r : AuthResponse) (s : AuthState × Storage)
      → hydrate_auth_state p (set_credentials p r s).1 ≡ (
          if not (is_nonempty r.token) || is_token_expired p r.token
          then (signed_out, clear_stored_credentials (set_credentials p r s).1)
          else set_credentials p r s)
  unfolding hydrate_auth_state set_credentials
  hydrate-set_credentials r s =
      let st = (set_credentials p r s).1 in
      ap (λ t. hydrate_from p st t (parse_stored_user p (lookup user_key st))) (stored_token r s)
      ∙ ap (λ u. hydrate_from p st (some r.token) (parse_stored_user p u)) (stored_raw_user r s)
      ∙ ap (hydrate_from p st (some r.token)) (stored_user r.user)

pub cleared :
    (st : Storage)
    → (lookup token_key (clear_stored_credentials st) ≡ none)
      × (lookup user_key (clear_stored_credentials st) ≡ none)
unfolding clear_stored_credentials
cleared st = (
  rw (lookup-remove user_key token_key (remove token_key st), keys_differ)
      (rw (lookup-remove token_key token_key st, text_eq_self token_key) refl),
  rw (lookup-remove user_key user_key (remove token_key st), text_eq_self user_key) refl,
)

pub data AuthAction : Type 0 where
  sign_in : AuthResponse → AuthAction
  sign_out : AuthAction

module _ (p : Platform) where
  abbrev pub run_action : AuthAction → AuthState × Storage → AuthState × Storage
  run_action (sign_in r) s = set_credentials p r s
  run_action sign_out s = logout s

  abbrev pub run_actions : List AuthAction → AuthState × Storage → AuthState × Storage
  run_actions [] s = s
  run_actions (a ∷ rest) s = run_actions rest (run_action a s)

-- The state is the session of a token and a user that the storage holds too, or it is signed out
-- and the storage holds no credentials.
pub data IsCoherent (p : Platform) (s : AuthState × Storage) : Type 0 where
  in_session :
      (t : Text) (u : User)
      → s.0 ≡ record { token = some t; user = some u; is_authenticated = true }
      → lookup token_key s.1 ≡ some t
      → parse_stored_user p (lookup user_key s.1) ≡ some u
      → IsCoherent p s
  out_of_session :
      s.0 ≡ signed_out → lookup token_key s.1 ≡ none → lookup user_key s.1 ≡ none → IsCoherent p s

module _ (p : Platform) where
  hydrate_from-IsCoherent :
      (st : Storage) (t : Option Text) (u : Option User)
      → lookup token_key st ≡ t
      → parse_stored_user p (lookup user_key st) ≡ u
      → IsCoherent p (hydrate_from p st t u)
  unfolding hydrate_from
  hydrate_from-IsCoherent st none u et eu = out_of_session refl (cleared st).0 (cleared st).1
  hydrate_from-IsCoherent st (some t) none et eu = out_of_session refl (cleared st).0 (cleared st).1
  hydrate_from-IsCoherent st (some t) (some u) et eu =
      elim (Bool-cases (not (is_nonempty t) || is_token_expired p t)) [
        | inl bad ↦ rw bad (out_of_session refl (cleared st).0 (cleared st).1)
        | inr good ↦ rw good (in_session t u refl et eu)
      ]

module _ (p : Platform) (laws : StoresUsers p) where
  run_actions-IsCoherent :
      (actions : List AuthAction) (s : AuthState × Storage)
      → IsCoherent p s
      → IsCoherent p (run_actions p actions s)
  run_actions-IsCoherent [] s h = h
  run_actions-IsCoherent (sign_in r ∷ rest) s h =
      run_actions-IsCoherent rest (set_credentials p r s) (
        in_session r.token r.user (unfold set_credentials in refl) (stored_token p laws r s)
          (ap (parse_stored_user p) (stored_raw_user p laws r s) ∙ stored_user p laws r.user))
  run_actions-IsCoherent (sign_out ∷ rest) s h =
      run_actions-IsCoherent rest (logout s)
        (unfold logout in out_of_session refl (cleared s.1).0 (cleared s.1).1)

  -- From the start of the application, with whatever the storage holds, and over any logins and
  -- logouts, the state and the storage agree: an authenticated state has the token and the user
  -- that are stored, and otherwise both are absent from the state and from the storage.
  pub session-IsCoherent :
      (st : Storage) (actions : List AuthAction)
      → IsCoherent p (run_actions p actions (hydrate_auth_state p st))
  session-IsCoherent st actions =
      run_actions-IsCoherent actions (hydrate_auth_state p st)
        (unfold hydrate_auth_state in hydrate_from-IsCoherent p st _ _ refl refl)
