-- ===== src/Auth/Query.antt =====
-- apps/frontend/src/store/baseApi.ts: the token on each request, and the logout on a reply 401.
use flash_pay.Prelude.{
  Text, text, ◌≡◌, ◌≢◌, refl, Bool-cases, inl, inr, Bool, true, false, none, some, ◌++◌, ◌==◌,
  if◌then◌else◌, is_nonempty, Map, lookup, insert, arith,
}
use flash_pay.Auth.Session.{AuthState, Storage, logout, signed_out, token_key, user_key}
use flash_pay.Auth.Session.Laws.{cleared}
use flash_pay.Failure.{ErrorStatus, http, named, FetchError}

-- The `prepareHeaders` of `rawBaseQuery`.
unfoldable pub prepare_headers : AuthState → Map Text → Map Text
prepare_headers state headers = elim state.token [
  | none ↦ headers
  | some token ↦
      if is_nonempty token
      then insert (text "Authorization") (text "Bearer " ++ token) headers
      else headers
]

-- What the raw query returns.
pub data QueryResult {ℓ} (A : Type ℓ) : Type ℓ where
  data_result : A → QueryResult A
  error_result : FetchError → QueryResult A

abbrev pub is_unauthorised : ErrorStatus → Bool
is_unauthorised (http n) = n == 401
is_unauthorised (named _) = false

-- `baseQueryWithAutoLogout`, from the result of the raw query on.
unfoldable pub base_query_with_auto_logout {ℓ} :
    {A : Type ℓ} → QueryResult A → AuthState × Storage → QueryResult A × (AuthState × Storage)
unfolding logout
base_query_with_auto_logout (data_result a) session = (data_result a, session)
base_query_with_auto_logout (error_result e) session =
    (error_result e, if is_unauthorised e.status then logout session else session)

unauthorised_iff : (s : ErrorStatus) → s ≡ http 401 → is_unauthorised s ≡ true
unauthorised_iff s e = rw e refl

unauthorised-eq : (s : ErrorStatus) → is_unauthorised s ≡ true → s ≡ http 401
unauthorised-eq (http n) h = ground arith
unauthorised-eq (named _) h = cc

-- A reply 401 is passed on, and leaves a session that is signed out, in the state and in the
-- storage.
pub auto_logout-unauthorised {ℓ} :
    {A : Type ℓ} (e : FetchError) (session : AuthState × Storage)
    → e.status ≡ http 401
    → let after = base_query_with_auto_logout {A = A} (error_result e) session in
      (after.0 ≡ error_result e)
      × (after.1.0 ≡ signed_out)
      × (lookup token_key after.1.1 ≡ none)
      × (lookup user_key after.1.1 ≡ none)
unfolding base_query_with_auto_logout
auto_logout-unauthorised e session denied =
    rw (unauthorised_iff e.status denied)
      (unfold logout in (refl, refl, (cleared session.1).0, (cleared session.1).1))

-- A result that is no reply 401.
abbrev pub IsOther {ℓ} : {A : Type ℓ} → QueryResult A → Type 0
IsOther (data_result _) = Unit
IsOther (error_result e) = e.status ≢ http 401

-- A result that is no reply 401 is passed on, and the session is left as it is.
pub auto_logout-unchanged {ℓ} :
    {A : Type ℓ} (r : QueryResult A) (session : AuthState × Storage)
    → IsOther r
    → base_query_with_auto_logout r session ≡ (r, session)
unfolding base_query_with_auto_logout
auto_logout-unchanged (data_result a) session h = refl
auto_logout-unchanged (error_result e) session h = elim (Bool-cases (is_unauthorised e.status)) [
  | inl denied ↦ absurd (h (unauthorised-eq e.status denied))
  | inr allowed ↦ rw (allowed) refl
]
