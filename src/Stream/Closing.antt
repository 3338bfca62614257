-- ===== src/Stream/Closing.antt =====
-- Lists of actions that end a stream: `batch_done`, and nothing after it that opens a connection.
use flash_pay.Prelude.{
  Text, ◌≡◌, refl, ap, sym, ◌∙◌, true, List, [], ◌∷◌, ◌++◌, any, All, All-append,
}
use mathlib.Core.List.{append_assoc}
use flash_pay.Batch.{BatchDoneEvent, BatchStreamEvent, payment_updated, batch_done, event_batch_id}
use flash_pay.Details.Completion.{IsQuiet}
use flash_pay.Details.Reducer.{Action, stream_event_received}
use flash_pay.Stream.Consume.{Effect, dispatch, sync_batch_detail, log_out, is_done, on_events}

-- The actions among the effects, in their order.
abbrev pub actions_of : List Effect → List Action
actions_of [] = []
actions_of (dispatch a ∷ rest) = a ∷ actions_of rest
actions_of (_ ∷ rest) = actions_of rest

pub actions_of-append :
    (xs ys : List Effect) → actions_of (xs ++ ys) ≡ actions_of xs ++ actions_of ys
actions_of-append [] ys = refl
actions_of-append (dispatch a ∷ xs) ys = ap (λ l. a ∷ l) (actions_of-append xs ys)
actions_of-append (sync_batch_detail ∷ xs) ys = actions_of-append xs ys
actions_of-append (log_out ∷ xs) ys = actions_of-append xs ys

-- A `batch_done` of the batch is among the actions, and nothing after it opens a connection,
-- reports a failure or schedules a retry.
pub record IsClosing (batch_id : Text) (actions : List Action) : Type 0 where
  pub before : List Action
  pub event : BatchDoneEvent
  pub after : List Action
  pub split : actions ≡ before ++ stream_event_received (batch_done event) ∷ after
  pub quiet : All IsQuiet after
  pub own : event.batch_id ≡ batch_id

pub IsClosing-prepend :
    {batch_id : Text} (xs ys : List Action) → IsClosing batch_id ys → IsClosing batch_id (xs ++ ys)
IsClosing-prepend xs ys c = record {
  before = xs ++ c.before;
  event = c.event;
  after = c.after;
  split = ap (λ l. xs ++ l) c.split ∙ sym (append_assoc xs c.before _);
  quiet = c.quiet;
  own = c.own;
}

pub IsClosing-append :
    {batch_id : Text} (xs ys : List Action)
    → All IsQuiet ys
    → IsClosing batch_id xs
    → IsClosing batch_id (xs ++ ys)
IsClosing-append xs ys quiet c = record {
  before = c.before;
  event = c.event;
  after = c.after ++ ys;
  split = ap (λ l. l ++ ys) c.split ∙ append_assoc c.before _ ys;
  quiet = All-append IsQuiet c.after ys c.quiet quiet;
  own = c.own;
}

-- Every event is about the batch.
abbrev pub AllOwn : Text → List BatchStreamEvent → Type 0
AllOwn batch_id = All λ e. event_batch_id e ≡ batch_id

on_events-IsQuiet : (events : List BatchStreamEvent) → All IsQuiet (actions_of (on_events events))
unfolding on_events
on_events-IsQuiet [] = tt
on_events-IsQuiet (payment_updated e ∷ events) = (tt, on_events-IsQuiet events)
on_events-IsQuiet (batch_done e ∷ events) = (tt, on_events-IsQuiet events)

pub on_events-IsClosing :
    (batch_id : Text) (events : List BatchStreamEvent)
    → AllOwn batch_id events
    → any is_done events ≡ true
    → IsClosing batch_id (actions_of (on_events events))
unfolding on_events
on_events-IsClosing batch_id [] own done = cc
on_events-IsClosing batch_id (payment_updated e ∷ events) (_, own) done =
    IsClosing-prepend (stream_event_received (payment_updated e) ∷ [])
      (actions_of (on_events events)) (on_events-IsClosing batch_id events own done)
on_events-IsClosing batch_id (batch_done e ∷ events) (own, _) done = record {
  before = [];
  event = e;
  after = actions_of (on_events events);
  split = refl;
  quiet = on_events-IsQuiet events;
  own = own;
}
