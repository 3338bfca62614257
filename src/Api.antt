-- ===== src/Api.antt =====
-- apps/frontend/src/features/batches/store/batchApi.ts, .../users/store/usersApi.ts and
-- .../auth/store/authApi.ts: the requests that the endpoints hand to the base query, below the base
-- URL; and the addresses of useBatchStream.ts, which fetches by itself.
pub mod Laws
use flash_pay.Prelude.{
  ℕ, Text, text, Bool, true, false, ◌||◌, Option, none, some, List, [], ◌∷◌, ◌++◌, ◌==◌,
  if◌then◌else◌, ◌or_else◌, is_nonempty, starts_with, Map,
}
use flash_pay.Batch.{BatchPaymentStatus, status_text}
use flash_pay.Auth.Session.{Role, role_text}
use flash_pay.Auth.Forms.{LoginFormValues}
use flash_pay.Auth.Submit.{LoginRequest, RegisterRequest}
use flash_pay.Upload.{File}

pub data Method : Type 0 where
  get post patch delete : Method

pub data Body : Type 0 where
  no_body : Body
  file : File → Body
  role : Role → Body
  login : LoginRequest → Body
  register : RegisterRequest → Body

pub data Param : Type 0 where
  number : ℕ → Param
  name : Text → Param

-- What a `query` function returns; a text alone is a URL for the method GET.
pub record FetchArgs : Type 0 where
  pub url : Text
  pub method : Method
  pub params : Map Param
  pub body : Body

abbrev pub get_from : Text → Map Param → FetchArgs
get_from url params = record { url = url; method = get; params = params; body = no_body }

pub record BatchListQueryArgs : Type 0 where
  pub limit : Option ℕ
  pub offset : Option ℕ
  pub user_id : Option Text
  pub status : Option BatchPaymentStatus

pub record UsersListQueryArgs : Type 0 where
  pub limit : Option ℕ
  pub offset : Option ℕ

unfoldable pub upload_batch_query : File → FetchArgs
upload_batch_query f = record {
  url = text "/batches/upload";
  method = post;
  params = [];
  body = file f;
}

-- `params?.limit ?? n`, where a call without arguments hands `undefined`.
abbrev pub limit_or : ℕ → Option BatchListQueryArgs → ℕ
limit_or n none = n
limit_or n (some a) = a.limit or_else n

abbrev pub offset_or : ℕ → Option BatchListQueryArgs → ℕ
offset_or n none = n
offset_or n (some a) = a.offset or_else n

unfoldable pub get_batches_query : Option BatchListQueryArgs → FetchArgs
get_batches_query params = get_from (text "/batches") (
    (text "limit", number (limit_or 20 params)) ∷ (text "offset", number (offset_or 0 params)) ∷ [])

-- `...(params?.userId ? { user_id: params.userId } : {})`: an empty text is left out too.
abbrev pub user_param : Option Text → Map Param
user_param none = []
user_param (some id) = if is_nonempty id then (text "user_id", name id) ∷ [] else []

abbrev pub status_param : Option BatchPaymentStatus → Map Param
status_param none = []
status_param (some s) = (text "status", name (status_text s)) ∷ []

abbrev pub filter_params : Option BatchListQueryArgs → Map Param
filter_params none = []
filter_params (some a) = user_param a.user_id ++ status_param a.status

unfoldable pub get_admin_batches_query : Option BatchListQueryArgs → FetchArgs
get_admin_batches_query params = get_from (text "/admin/batches") (
    (text "limit", number (limit_or 100 params))
    ∷ (text "offset", number (offset_or 0 params))
    ∷ filter_params params)

unfoldable pub get_batch_by_id_query : Text → FetchArgs
get_batch_by_id_query batch_id = get_from (text "/batches/" ++ batch_id) []

abbrev pub users_limit : Option UsersListQueryArgs → ℕ
users_limit none = 100
users_limit (some a) = a.limit or_else 100

abbrev pub users_offset : Option UsersListQueryArgs → ℕ
users_offset none = 0
users_offset (some a) = a.offset or_else 0

unfoldable pub get_users_query : Option UsersListQueryArgs → FetchArgs
get_users_query params = get_from (text "/admin/users") (
    (text "limit", number (users_limit params))
    ∷ (text "offset", number (users_offset params))
    ∷ [])

unfoldable pub update_user_role_query : Text → Role → FetchArgs
update_user_role_query id r = record {
  url = text "/admin/users/" ++ (id ++ text "/role");
  method = patch;
  params = [];
  body = role r;
}

unfoldable pub delete_user_query : Text → FetchArgs
delete_user_query id = record {
  url = text "/admin/users/" ++ id;
  method = delete;
  params = [];
  body = no_body;
}

unfoldable pub login_query : LoginRequest → FetchArgs
login_query credentials = record {
  url = text "/auth/login";
  method = post;
  params = [];
  body = login credentials;
}

unfoldable pub register_query : RegisterRequest → FetchArgs
register_query values = record {
  url = text "/auth/register";
  method = post;
  params = [];
  body = register values;
}

-- `baseUrl.replace(/\/$/, '')`; 47 is the slash.
unfoldable pub without_end_slash : Text → Text
without_end_slash [] = []
without_end_slash (c ∷ []) = if c == 47 then [] else c ∷ []
without_end_slash (c ∷ d ∷ s) = c ∷ without_end_slash (d ∷ s)

-- `path.replace(/^\//, '')`
abbrev pub without_start_slash : Text → Text
without_start_slash [] = []
without_start_slash (c ∷ s) = if c == 47 then s else c ∷ s

-- `/^https?:\/\//.test(baseUrl)`
unfoldable pub is_absolute : Text → Bool
unfolding starts_with
is_absolute s = starts_with s (text "http://") || starts_with s (text "https://")

-- `VITE_API_BASE_URL ?? '/api'`
abbrev pub get_api_base_url : Option Text → Text
get_api_base_url none = text "/api"
get_api_base_url (some url) = url

-- `resolve path base` is `new URL(path, base).toString()`.
unfoldable pub build_url : (Text → Text → Text) → Option Text → Text → Text
unfolding without_end_slash is_absolute
build_url resolve env path =
    let base_url = get_api_base_url env in
    if is_absolute base_url
    then resolve (without_start_slash path) (without_end_slash base_url ++ text "/")
    else without_end_slash base_url ++ path

unfoldable pub build_batch_stream_url : (Text → Text → Text) → Option Text → Text → Text
unfolding build_url
build_batch_stream_url resolve env batch_id =
    build_url resolve env (text "/batches/" ++ (batch_id ++ text "/stream"))

unfoldable pub build_batch_detail_url : (Text → Text → Text) → Option Text → Text → Text
unfolding build_url
build_batch_detail_url resolve env batch_id = build_url resolve env (text "/batches/" ++ batch_id)
