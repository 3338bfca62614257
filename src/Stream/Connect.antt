-- ===== src/Stream/Connect.antt =====
-- useBatchStream.ts: the loop of `connect`, the delays between attempts, and the hook's effect.
use flash_pay.Prelude.{
  ℕ, ◌+◌, ◌-◌, Text, text, Bool, true, false, ◌&&◌, ◌||◌, not, Option, some, List, [], ◌∷◌, ◌++◌,
  ◌==◌, leb, ltb, min, if◌then◌else◌, ◌or_else◌, get_elem?, is_nonempty, trim,
}
use flash_pay.Batch.{BatchStreamEvent}
use flash_pay.Details.Reducer.{
  initialize_batch_runtime, stream_connecting, stream_connected, stream_reconnect_scheduled,
  stream_failed,
}
use flash_pay.Stream.Consume.{
  Effect, dispatch, sync_batch_detail, log_out, Thrown, abort_error, an_error, other, Read, Ending,
  returned, threw, waiting, cleanup, consume_sse_stream,
}

abbrev pub retry_delays_ms : List ℕ
retry_delays_ms = 1000 ∷ 2000 ∷ 4000 ∷ 8000 ∷ []

-- At 0 the index is -1, where an array has nothing.
unfoldable pub get_reconnect_delay : ℕ → ℕ
get_reconnect_delay n =
    if n == 0 then 8000 else get_elem? retry_delays_ms (min (n - 1) 3) or_else 8000

unfoldable pub session_expired : Text
session_expired = text "Sessao expirada."

unfoldable pub no_permission : Text
no_permission = text "Voce nao tem permissao para acompanhar este lote."

unfoldable pub batch_not_found : Text
batch_not_found = text "Lote nao encontrado."

unfoldable pub connection_lost : Text
connection_lost = text "Conexao com o stream foi interrompida. Tentando novamente."

unfoldable pub connection_failed : Text
connection_failed = text "Falha ao conectar ao stream do lote."

unfoldable pub get_stream_error_message : Thrown → Text
get_stream_error_message abort_error = connection_failed
get_stream_error_message (an_error message) =
    if is_nonempty (trim message) then message else connection_failed
get_stream_error_message other = connection_failed

-- What `fetch` gives: a rejection, or a response with its status and whether it has a body.
pub data Reply : Type 0 where
  rejected : Thrown → Reply
  response : (status : ℕ) → (has_body : Bool) → Reply

-- The environment of one round of the loop: whether the cleanup runs during the fetch, the reply,
-- what the stream then gives, and whether the cleanup runs during the wait before the next round.
pub data Attempt : Type 0 where
  attempt : (unmounted : Bool) → Reply → List Read → (wait_unmounted : Bool) → Attempt

-- How a round goes on: `connect` has returned, or a retry is scheduled, or an answer is awaited.
pub data Next : Type 0 where
  finished : Next
  retry : (retry_count : ℕ) → (message : Text) → Next
  hanging : Next

pub record Round : Type 0 where
  pub effects : List Effect
  pub aborted : Bool
  pub completed : Bool
  pub next : Next

-- The `catch` of a round, with the retry count that the `try` has left.
unfoldable pub caught : ℕ → Bool → Thrown → Next
unfolding get_stream_error_message
caught retry_count true error = finished
caught retry_count false error = retry (retry_count + 1) (get_stream_error_message error)

-- An early return.
abbrev pub halted : Bool → List Effect → Round
halted unmounted effects = record {
  effects = effects;
  aborted = unmounted;
  completed = false;
  next = finished;
}

pub record Run : Type 0 where
  pub effects : List Effect
  pub aborted : Bool
  pub completed : Bool

-- The end of a round that failed: the retry is announced, and unless the cleanup runs during the
-- wait, which ends the call, the loop goes on with `later`.
abbrev pub schedule : Text → ℕ → Text → List Effect → Bool → Run → Run
schedule batch_id n message opening true later = record {
  effects =
      opening ++ dispatch (stream_reconnect_scheduled batch_id n message) ∷ cleanup batch_id true;
  aborted = true;
  completed = false;
}
schedule batch_id n message opening false later = record later {
  effects = opening ++ dispatch (stream_reconnect_scheduled batch_id n message) ∷ later.effects;
}

-- The end of a round: `later` is the rest of the loop, from a retry count.
abbrev pub after_round : Text → Round → List Effect → Bool → (ℕ → Run) → Next → Run
after_round batch_id r opening wait_unmounted later finished = record {
  effects = opening;
  aborted = r.aborted;
  completed = r.completed;
}
after_round batch_id r opening wait_unmounted later hanging = record {
  effects = opening;
  aborted = r.aborted;
  completed = r.completed;
}
after_round batch_id r opening wait_unmounted later (retry n message) =
    schedule batch_id n message opening wait_unmounted (later n)

-- What the tests on a response decide.
pub data Verdict : Type 0 where
  expired forbidden missing unusable usable : Verdict

unfoldable pub classify : ℕ → Bool → Verdict
classify status has_body =
    if status == 401
    then expired
    else if status == 403
    then forbidden
    else if status == 404
    then missing
    else if not (leb 200 status && ltb status 300) || not has_body
    then unusable
    else usable

unfoldable pub fail : Text → Text → List Effect
fail batch_id message = dispatch (stream_failed batch_id message) ∷ []

-- `show` is the text of a number in a template literal.
unfoldable pub bad_status : (ℕ → Text) → ℕ → Thrown
bad_status show status = an_error (text "Falha ao abrir o stream (" ++ (show status ++ text ")."))

module _ (show : ℕ → Text) (decode : Text → Option BatchStreamEvent) (batch_id : Text) where
  -- After `consumeSseStream`; the retry count is 0 by then.
  unfoldable pub after_stream : Bool → Bool → Ending → Next
  unfolding caught
  after_stream aborted completed returned =
      if aborted || completed then finished else retry 1 connection_lost
  after_stream aborted completed (threw error) = caught 0 aborted error
  after_stream aborted completed waiting = hanging

  unfoldable pub stream_round : Bool → List Read → Round
  unfolding after_stream
  stream_round unmounted reads =
      let c = consume_sse_stream decode batch_id unmounted false [] reads in
      record {
        effects = dispatch (stream_connected batch_id) ∷ sync_batch_detail ∷ c.effects;
        aborted = c.aborted;
        completed = c.completed;
        next = after_stream c.aborted c.completed c.ending;
      }

  -- What the `try` does with a response, and the `catch` where it throws.
  unfoldable pub handle_response : ℕ → Bool → ℕ → List Read → Verdict → Round
  unfolding fail bad_status stream_round caught
  handle_response retry_count unmounted status reads expired =
      halted unmounted (fail batch_id session_expired ++ log_out ∷ [])
  handle_response retry_count unmounted status reads forbidden =
      halted unmounted (fail batch_id no_permission)
  handle_response retry_count unmounted status reads missing =
      halted unmounted (fail batch_id batch_not_found)
  handle_response retry_count unmounted status reads unusable = record {
    effects = [];
    aborted = unmounted;
    completed = false;
    next = caught retry_count unmounted (bad_status show status);
  }
  handle_response retry_count unmounted status reads usable = stream_round unmounted reads

  -- The `try` and `catch` of a round, after the cleanup that ran during the fetch, if it did.
  unfoldable pub handle_reply : ℕ → Bool → Reply → List Read → Round
  unfolding handle_response classify caught
  handle_reply retry_count unmounted (rejected error) reads = record {
    effects = [];
    aborted = unmounted;
    completed = false;
    next = caught retry_count unmounted error;
  }
  handle_reply retry_count unmounted (response status has_body) reads =
      handle_response retry_count unmounted status reads (classify status has_body)

  -- The body of the `while` loop; at its head neither `aborted` nor `isCompleted` holds, since
  -- where one does a round returns. Where the list ends, the `fetch` has not been answered.
  unfoldable pub connect : ℕ → List Attempt → Run
  unfolding handle_reply
  connect retry_count [] = record {
    effects = dispatch (stream_connecting batch_id (some retry_count)) ∷ [];
    aborted = false;
    completed = false;
  }
  connect retry_count (attempt unmounted reply reads wait_unmounted ∷ rest) =
      let r = handle_reply retry_count unmounted reply reads in
      let opening =
        dispatch (stream_connecting batch_id (some retry_count))
        ∷ (cleanup batch_id unmounted ++ r.effects) in
      after_round batch_id r opening wait_unmounted (λ n. connect n rest) r.next

  -- The effect of `useBatchStream`: the token and the batch id are texts that may be missing.
  -- `closes` tells whether the cleanup runs after all that the attempts tell of.
  unfoldable pub use_batch_stream : Option Text → List Attempt → Bool → List Effect
  unfolding connect
  use_batch_stream token attempts closes =
      if not (is_nonempty batch_id) || not (is_nonempty (token or_else []))
      then []
      else let run = connect 0 attempts in
        dispatch (initialize_batch_runtime batch_id)
        ∷ (run.effects ++ cleanup batch_id (closes && not (run.aborted || run.completed)))
