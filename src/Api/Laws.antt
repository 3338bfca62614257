-- ===== src/Api/Laws.antt =====
-- batchApi.ts, with AdminBatchesPage.tsx: what the server reads of a request for batches.
use flash_pay.Prelude.{
  ℕ, Text, text, ◌≡◌, refl, false, Option, none, some, [], ◌∷◌, ◌++◌, ◌or_else◌, if◌then◌else◌,
  is_nonempty, text_eq, starts_with, ◌==◌, ap, Map, lookup,
}
use flash_pay.Batch.{BatchPaymentStatus, pending, processing, success, failed}
use flash_pay.Api.{
  Param, number, name, BatchListQueryArgs, user_param, status_param, get_admin_batches_query,
  without_end_slash, is_absolute, build_url,
}

abbrev number_of : Option Param → Option ℕ
number_of (some (number n)) = some n
number_of _ = none

abbrev name_of : Option Param → Option Text
name_of (some (name t)) = some t
name_of _ = none

abbrev status_of_text : Text → Option BatchPaymentStatus
unfolding text_eq
status_of_text t =
    if text_eq t (text "pending")
    then some pending
    else if text_eq t (text "processing")
    then some processing
    else if text_eq t (text "success")
    then some success
    else if text_eq t (text "failed")
    then some failed
    else none

abbrev any_status : Option Text → Option BatchPaymentStatus
unfolding status_of_text
any_status none = none
any_status (some t) = status_of_text t

-- A reader of the parameters by their names.
abbrev pub read_params : Map Param → BatchListQueryArgs
unfolding lookup text_eq any_status
read_params m = record {
  limit = number_of (lookup (text "limit") m);
  offset = number_of (lookup (text "offset") m);
  user_id = name_of (lookup (text "user_id") m);
  status = any_status (name_of (lookup (text "status") m));
}

-- A user to filter by, where it is not the empty text.
abbrev pub some_user : Option Text → Option Text
some_user none = none
some_user (some id) = if is_nonempty id then some id else none

read_params-filters :
    (l o : ℕ) (u : Option Text) (s : Option BatchPaymentStatus)
    → read_params
        ((text "limit", number l) ∷ (text "offset", number o) ∷ (user_param u ++ status_param s))
      ≡ record { limit = some l; offset = some o; user_id = some_user u; status = s }
unfolding read_params
read_params-filters l o none none = refl
read_params-filters l o none (some pending) = refl
read_params-filters l o none (some _) = refl
read_params-filters l o (some []) none = refl
read_params-filters l o (some []) (some pending) = refl
read_params-filters l o (some []) (some _) = refl
read_params-filters l o (some (c ∷ id)) none = refl
read_params-filters l o (some (c ∷ id)) (some pending) = refl
read_params-filters l o (some (c ∷ id)) (some _) = refl

-- What a reader gets of a request for batches are the arguments, the limit being 100 and the
-- offset 0 where they are absent, and a user that is the empty text being absent.
pub read_params-get_admin_batches_query :
    (a : BatchListQueryArgs)
    → read_params (get_admin_batches_query (some a)).params ≡ record {
      limit = some (a.limit or_else 100);
      offset = some (a.offset or_else 0);
      user_id = some_user a.user_id;
      status = a.status;
    }
unfolding get_admin_batches_query
read_params-get_admin_batches_query a =
    read_params-filters (a.limit or_else 100) (a.offset or_else 0) a.user_id a.status

without_end_slash-append : (s : Text) → without_end_slash (s ++ text "/") ≡ s
unfolding without_end_slash
without_end_slash-append [] = refl
without_end_slash-append (c ∷ []) = refl
without_end_slash-append (c ∷ d ∷ s) = ap (λ t. c ∷ t) (without_end_slash-append (d ∷ s))

-- Of a base URL that is a path, the address of a batch is the same with a slash at the end of the
-- base and without one, and it lies below the base.
pub build_url-slash :
    (resolve : Text → Text → Text) (c : ℕ) (base path : Text)
    → (c == 104) ≡ false
    → without_end_slash (c ∷ base) ≡ c ∷ base
    → (build_url resolve (some ((c ∷ base) ++ text "/")) path ≡ (c ∷ base) ++ path)
      × (build_url resolve (some (c ∷ base)) path ≡ (c ∷ base) ++ path)
unfolding build_url is_absolute starts_with
build_url-slash resolve c base path relative plain = (
  rw (relative) (ap (λ s. s ++ path) (without_end_slash-append (c ∷ base))),
  rw (relative, plain) refl,
)
