-- ===== src/LoadTest/Api.antt =====
-- run.mjs: `registerUser`, `uploadBatch`, `fetchBatchDetail` and `safeJson`. What each
-- `fetch` comes to, a reply or an error, is given by the environment.
use flash_pay.Prelude.{
  ℕ, ◌+◌, Text, text, Bool, ◌&&◌, Option, none, some, ◌++◌, leb, if◌then◌else◌, is_nonempty, trim,
  decimal,
}
use flash_pay.Prelude.Double.{Double}
use flash_pay.LoadTest.Outcome.{Outcome, done, thrown}

pub record HttpReply : Type 0 where
  pub status : ℕ
  pub body : Text

-- `response.ok`
abbrev pub is_ok : HttpReply → Bool
is_ok r = leb 200 r.status && leb r.status 299

-- What `safeJson` gives: `null`, a value, or `{ raw: text }` of a text that is no JSON.
pub data Payload (A : Type 0) : Type 0 where
  null : Payload A
  value : A → Payload A
  raw : Text → Payload A

abbrev pub parsed : {A : Type 0} → Text → Option (Option A) → Payload A
parsed body none = raw body
parsed body (some none) = null
parsed body (some (some v)) = value v

-- `decode` is `JSON.parse` with the reading of a value as an `A`: `none` where it throws, `some
-- none` for the literal `null`.
unfoldable pub safe_json : {A : Type 0} → (Text → Option (Option A)) → Text → Payload A
unfolding trim
safe_json decode body = if is_nonempty (trim body) then parsed body (decode body) else null

-- The fields that the program reads of a reply to a registration.
pub record Registration : Type 0 where
  pub token : Option Text
  pub user_id : Option Text

pub record LoadUser : Type 0 where
  pub email : Text
  pub token : Option Text
  pub user_id : Option Text

pub record RegisterBody : Type 0 where
  pub name : Text
  pub email : Text
  pub password : Text

-- `stamp` is `Date.now()` and `hex` is `Math.random().toString(16).slice(2, 8)`.
unfoldable pub load_email : Text → ℕ → Text → Text
unfolding decimal
load_email stamp user_index hex =
    text "load."
    ++ (stamp ++ (text "-" ++ (decimal user_index ++ (text "-" ++ (hex ++ text "@flashpay.test")))))

unfoldable pub register_url : Text → Text
register_url base_url = base_url ++ text "/api/auth/register"

unfoldable pub register_body : ℕ → Text → Text → RegisterBody
unfolding decimal
register_body user_index email password = record {
  name = text "Load User " ++ decimal (user_index + 1);
  email = email;
  password = password;
}

unfoldable pub upload_url : Text → Text
upload_url base_url = base_url ++ text "/api/batches/upload"

unfoldable pub detail_url : Text → Text → Text
detail_url base_url batch_id = base_url ++ (text "/api/batches/" ++ batch_id)

unfoldable pub stream_url : Text → Text → Text
unfolding detail_url
stream_url base_url batch_id = detail_url base_url batch_id ++ text "/stream"

abbrev pub failed_with : Text → ℕ → Text → Text
failed_with what status body =
    what ++ (text " failed (" ++ (decimal status ++ (text "): " ++ body)))

-- The text of a `TypeError`.
abbrev pub null_error : Text → Text
null_error key = text "Cannot read properties of null (reading '" ++ (key ++ text "')")

abbrev pub registered : Text → Payload Registration → Outcome LoadUser
registered email null = thrown (null_error (text "token"))
registered email (value r) = done (record { email = email; token = r.token; user_id = r.user_id })
registered email (raw _) = done (record { email = email; token = none; user_id = none })

-- `stringify` is `JSON.stringify`.
unfoldable pub register_user :
    (Text → Option (Option Registration))
    → (Payload Registration → Text)
    → Text
    → Outcome HttpReply
    → Outcome LoadUser
unfolding safe_json
register_user decode stringify email (thrown message) = thrown message
register_user decode stringify email (done reply) =
    let payload = safe_json decode reply.body in
    if is_ok reply
    then registered email payload
    else thrown (failed_with (text "register") reply.status (stringify payload))

-- `payload?.batch_id` of a payload that holds a text there, or nothing.
pub record Upload : Type 0 where
  pub ok : Bool
  pub status : ℕ
  pub payload : Payload (Option Text)
  pub upload_ms : Double

unfoldable pub upload_batch :
    (Text → Option (Option (Option Text))) → Outcome HttpReply → Double → Outcome Upload
unfolding safe_json
upload_batch decode (thrown message) upload_ms = thrown message
upload_batch decode (done reply) upload_ms = done (record {
  ok = is_ok reply;
  status = reply.status;
  payload = safe_json decode reply.body;
  upload_ms = upload_ms;
})

-- The counts of a detail; an absent one or `null` is `none`, which `?? 0` reads as 0.
pub record LoadCounts : Type 0 where
  pub pending : Option ℕ
  pub processing : Option ℕ
  pub success : Option ℕ
  pub failed : Option ℕ

pub record LoadDetail : Type 0 where
  pub status_count : Option LoadCounts
  pub total_payments : Option ℕ

-- No field of `{ raw: text }` is one of those that are read.
abbrev pub detail_of : Payload LoadDetail → Option LoadDetail
detail_of null = none
detail_of (value d) = some d
detail_of (raw _) = some (record { status_count = none; total_payments = none })

unfoldable pub fetch_batch_detail :
    (Text → Option (Option LoadDetail))
    → (Payload LoadDetail → Text)
    → Outcome HttpReply
    → Outcome (Option LoadDetail)
unfolding safe_json
fetch_batch_detail decode stringify (thrown message) = thrown message
fetch_batch_detail decode stringify (done reply) =
    let payload = safe_json decode reply.body in
    if is_ok reply
    then done (detail_of payload)
    else thrown (failed_with (text "detail") reply.status (stringify payload))

-- `detail.status_count ?? {}`
abbrev pub counts_of : LoadDetail → LoadCounts
counts_of d = elim d.status_count [
  | none ↦ record { pending = none; processing = none; success = none; failed = none }
  | some counts ↦ counts
]
