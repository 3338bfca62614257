-- ===== src/Stream/Consume.antt =====
-- useBatchStream.ts: `consumeSseStream` with the callback that `connect` hands it. The environment
-- is a list of reads: what each `reader.read()` gives, and whether the effect's cleanup ran while
-- it was awaited. A chunk is the text that the streaming `TextDecoder` makes of the bytes.
use flash_pay.Prelude.{Text, Bool, true, false, ◌||◌, Option, List, [], ◌∷◌, ◌++◌, any}
use flash_pay.Batch.{BatchStreamEvent, payment_updated, batch_done}
use flash_pay.Details.Reducer.{Action, stream_event_received, stream_disconnected}
use flash_pay.Stream.Blocks.{parse_segments, segments_of, last_or_empty, without_last}

-- What the hook does to the outside: an action of the slice, the start of `syncBatchDetail`, the
-- `logout` action.
pub data Effect : Type 0 where
  dispatch : Action → Effect
  sync_batch_detail : Effect
  log_out : Effect

-- What a `catch` gets: a `DOMException` named AbortError, an `Error`, anything else.
pub data Thrown : Type 0 where
  abort_error : Thrown
  an_error : Text → Thrown
  other : Thrown

pub data ReadResult : Type 0 where
  chunk : Text → ReadResult
  closed : ReadResult
  failed : Thrown → ReadResult

pub data Read : Type 0 where
  read : (unmounted : Bool) → ReadResult → Read

pub data Ending : Type 0 where
  returned : Ending
  threw : Thrown → Ending
  waiting : Ending

-- The effects, `signal.aborted` and `isCompleted` at the end, and how the call ended; `waiting` if
-- the environment has given no further answer.
pub record Consumed : Type 0 where
  pub effects : List Effect
  pub aborted : Bool
  pub completed : Bool
  pub ending : Ending

abbrev pub is_done : BatchStreamEvent → Bool
is_done (payment_updated _) = false
is_done (batch_done _) = true

-- The callback, for the events of one chunk: the loop over the segments goes on after an abort.
unfoldable pub on_event : BatchStreamEvent → List Effect
on_event (payment_updated e) = dispatch (stream_event_received (payment_updated e)) ∷ []
on_event (batch_done e) = dispatch (stream_event_received (batch_done e)) ∷ sync_batch_detail ∷ []

unfoldable pub on_events : List BatchStreamEvent → List Effect
unfolding on_event
on_events [] = []
on_events (event ∷ events) = on_event event ++ on_events events

-- The cleanup while the connection is open: `isCompleted` is false then.
abbrev pub cleanup : Text → Bool → List Effect
cleanup batch_id true = dispatch (stream_disconnected batch_id) ∷ []
cleanup batch_id false = []

module _ (decode : Text → Option BatchStreamEvent) (batch_id : Text) where
  unfoldable pub consume_sse_stream : Bool → Bool → Text → List Read → Consumed
  unfolding on_events parse_segments segments_of
  consume_sse_stream true completed buffer reads = record {
    effects = [];
    aborted = true;
    completed = completed;
    ending = returned;
  }
  consume_sse_stream false completed buffer [] = record {
    effects = [];
    aborted = false;
    completed = completed;
    ending = waiting;
  }
  consume_sse_stream false completed buffer (read unmounted closed ∷ rest) = record {
    effects = cleanup batch_id unmounted;
    aborted = unmounted;
    completed = completed;
    ending = returned;
  }
  consume_sse_stream false completed buffer (read unmounted (failed error) ∷ rest) = record {
    effects = cleanup batch_id unmounted;
    aborted = unmounted;
    completed = completed;
    ending = threw error;
  }
  consume_sse_stream false completed buffer (read unmounted (chunk t) ∷ rest) =
      let segments = segments_of buffer t in
      let events = parse_segments decode (without_last segments) in
      let done = any is_done events in
      let next =
        consume_sse_stream (unmounted || done) (completed || done) (last_or_empty segments) rest in
      record next { effects = cleanup batch_id unmounted ++ (on_events events ++ next.effects) }
