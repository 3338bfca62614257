-- ===== src/Details/Completion.antt =====
-- batchDetailsSlice.ts: theorems on completed streams.
use flash_pay.Prelude.{Text, ◌≡◌, refl, List, [], ◌∷◌, All, ap, ◌∙◌, arith}
use flash_pay.Batch.{BatchDoneEvent, payment_updated, batch_done}
use flash_pay.Details.{completed, BatchRuntimeState, BatchDetailsState, batch_runtime_state}
use flash_pay.Details.Events.{stream-apply_payment_updated}
use flash_pay.Details.Isolation.{runtime_step, reduce-invariant, runtime-reduce_self}
use flash_pay.Details.Reducer.{
  Action, batch_detail_hydrated, initialize_batch_runtime, stream_connecting, stream_connected,
  stream_reconnect_scheduled, stream_failed, stream_disconnected, stream_event_received,
  get_batch_by_id_fulfilled, apply_event, note_event, reduce, reduce_all, set_disconnected,
  select_batch_stream_state,
}

-- An action that opens no connection, reports no failure of one and schedules none.
abbrev pub IsQuiet : Action → Type 0
IsQuiet (stream_connecting _ _) = ⊥
IsQuiet (stream_connected _) = ⊥
IsQuiet (stream_reconnect_scheduled _ _ _) = ⊥
IsQuiet (stream_failed _ _) = ⊥
IsQuiet _ = Unit

runtime_step-completed :
    (a : Action) (b : BatchRuntimeState)
    → IsQuiet a
    → b.stream.status ≡ completed
    → (runtime_step a b).stream.status ≡ completed
unfolding apply_event set_disconnected
runtime_step-completed (stream_connecting _ _) b quiet h = elim quiet [ ]
runtime_step-completed (stream_connected _) b quiet h = elim quiet [ ]
runtime_step-completed (stream_reconnect_scheduled _ _ _) b quiet h = elim quiet [ ]
runtime_step-completed (stream_failed _ _) b quiet h = elim quiet [ ]
runtime_step-completed (stream_event_received (payment_updated e)) b quiet h =
    ap (λ s. s.status) (stream-apply_payment_updated e (note_event (payment_updated e) b)) ∙ h
runtime_step-completed (stream_event_received (batch_done e)) b quiet h = refl
runtime_step-completed (stream_disconnected _) b quiet h = ground arith
runtime_step-completed (batch_detail_hydrated _) b quiet h = h
runtime_step-completed (initialize_batch_runtime _) b quiet h = h
runtime_step-completed (get_batch_by_id_fulfilled _) b quiet h = h

reduce_all-completed :
    (j : Text) (state : BatchDetailsState) (actions : List Action)
    → All IsQuiet actions
    → (batch_runtime_state state j).stream.status ≡ completed
    → (batch_runtime_state (reduce_all state actions) j).stream.status ≡ completed
unfolding reduce_all
reduce_all-completed j state [] quiet h = h
reduce_all-completed j state (a ∷ rest) (quiet, later) h =
    reduce_all-completed j (reduce state a) rest later (
      reduce-invariant (λ b. b.stream.status ≡ completed) j state a
        (λ _ k. runtime_step-completed a (batch_runtime_state state j) quiet k) h)

done-completed :
    (e : BatchDoneEvent) (b : BatchRuntimeState)
    → (apply_event (batch_done e) b).stream.status ≡ completed
unfolding apply_event
done-completed e b = refl

pub select_batch_stream_state-eq :
    (state : BatchDetailsState) (j : Text)
    → select_batch_stream_state state j ≡ (batch_runtime_state state j).stream
unfolding select_batch_stream_state batch_runtime_state
select_batch_stream_state-eq state j = ground arith

-- Once `batch_done` has been received, the stream of its batch reads as completed after any later
-- actions that open, fail or reschedule no connection: the late disconnect of a closing page,
-- further events and snapshots change nothing of that.
pub completed-reduce_all :
    (state : BatchDetailsState) (e : BatchDoneEvent) (actions : List Action)
    → All IsQuiet actions
    → (select_batch_stream_state
        (reduce_all (reduce state (stream_event_received (batch_done e))) actions)
        e.batch_id).status
      ≡ completed
completed-reduce_all state e actions quiet =
    let done = stream_event_received (batch_done e) in
    let start : (batch_runtime_state (reduce state done) e.batch_id).stream.status ≡ completed =
      ap (λ b. b.stream.status) (runtime-reduce_self state done)
      ∙ done-completed e (batch_runtime_state state e.batch_id) in
    rw (select_batch_stream_state-eq (reduce_all (reduce state done) actions) e.batch_id)
      (reduce_all-completed e.batch_id (reduce state done) actions quiet start)
