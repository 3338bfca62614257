-- ===== src/Failure.antt =====
-- The errors of RTK Query as the pages read them: `getApiErrorMessage`, `getBatchErrorMessage` and
-- `getUploadErrorMessage`. `data` is the parsed body; a field of it that the declared response
-- types give as a text counts as missing where it is none.
use flash_pay.Prelude.{
  ℕ, Text, text, Option, none, some, ◌++◌, if◌then◌else◌, ◌or_else◌, is_nonempty,
}
use flash_pay.Prelude.Json.{Json, number, string, array, object, item, property}

-- The `status` of a `FetchBaseQueryError`: a status code, or a name such as FETCH_ERROR.
pub data ErrorStatus : Type 0 where
  http : ℕ → ErrorStatus
  named : Text → ErrorStatus

pub record FetchError : Type 0 where
  pub status : ErrorStatus
  pub payload : Option Json
  pub error : Option Text

-- A thrown or stored error: one with a `status`, or any other value.
pub data Failure : Type 0 where
  fetch_error : FetchError → Failure
  unknown : Failure

abbrev pub get_text : Option Json → Option Text
get_text (some (string s)) = some s
get_text _ = none

-- `data` where it is truthy and an object.
abbrev pub object_payload : Option Json → Option Json
object_payload (some (object fs)) = some (object fs)
object_payload (some (array items)) = some (array items)
object_payload _ = none

-- The common head of the three functions, with what is read from the body.
unfoldable pub error_message : (Json → Text) → Text → Failure → Text
error_message read fallback unknown = fallback
error_message read fallback (fetch_error e) = elim e.error [
  | some message ↦ message
  | none ↦ elim (object_payload e.payload) [ none ↦ fallback | some body ↦ read body ]
]

-- `getApiErrorMessage` of AdminUsersPage.tsx.
unfoldable pub users_error_message : Text → Failure → Text
unfolding error_message
users_error_message fallback =
    error_message (λ body. get_text (property (text "message") body) or_else fallback) fallback

-- `getApiErrorMessage` of AdminBatchesPage.tsx.
unfoldable pub admin_batches_error_message : Text → Failure → Text
unfolding error_message
admin_batches_error_message fallback =
    error_message
      (λ body.
        get_text (property (text "error") body)
        or_else (get_text (property (text "message") body) or_else fallback))
      fallback

unfoldable pub batch_fallback : Text
batch_fallback = text "Nao foi possivel carregar o lote."

-- `getBatchErrorMessage` of BatchDetailsPage.tsx and AdminBatchDetailsPage.tsx.
unfoldable pub batch_error_message : Failure → Text
unfolding error_message
batch_error_message =
    error_message (λ body. get_text (property (text "error") body) or_else batch_fallback)
      batch_fallback

unfoldable pub upload_fallback : Text
upload_fallback = text "Nao foi possivel enviar o lote."

abbrev pub nonempty_text : Option Json → Option Text
nonempty_text (some (string s)) = if is_nonempty s then some s else none
nonempty_text _ = none

-- The first of `errors`, where that is an array with an element.
abbrev pub first_item : Option Json → Option Json
first_item (some (array (item v rest))) = some v
first_item _ = none

abbrev pub shown : (ℕ → Text) → Option Json → Text
shown show (some (string s)) = s
shown show (some (number n)) = show n
shown show _ = text "undefined"

-- ``Linha ${line} (${column}): ${message}``
unfoldable pub line_message : (ℕ → Text) → Json → Text
line_message show v =
    text "Linha "
    ++ (shown show (property (text "line") v)
        ++ (text " ("
            ++ (shown show (property (text "column") v)
                ++ (text "): " ++ shown show (property (text "message") v)))))

-- `getUploadErrorMessage` of BatchUploadCard.tsx.
unfoldable pub upload_error_message : (ℕ → Text) → Failure → Text
unfolding error_message line_message
upload_error_message show =
    error_message
      (λ body. elim (nonempty_text (property (text "error") body)) [
        | some message ↦ message
        | none ↦ elim (first_item (property (text "errors") body)) [
          | none ↦ upload_fallback
          | some first ↦ line_message show first
        ]
      ])
      upload_fallback
