-- ===== src/Details/Isolation.antt =====
-- batchDetailsSlice.ts: which batch an action changes, and to what.
use mathlib.Core.Path.{subst, subst⁻¹}
use flash_pay.Prelude.{
  Bool-cases, inl, inr, Text, ◌≡◌, ◌≢◌, refl, ◌∙◌, none, some, List, [], ◌∷◌, if◌then◌else◌,
  text_eq, text_eq_iff, text_eq_self, lookup, lookup-insert, arith, All,
}
use flash_pay.Batch.{BatchDetail}
use flash_pay.Details.{
  connected, reconnecting, error, BatchRuntimeState, BatchDetailsState,
  calculate_completed_payments, calculate_progress, batch_runtime_state, with_batch_runtime_state,
}
use flash_pay.Details.Reducer.{
  Action, batch_detail_hydrated, initialize_batch_runtime, stream_connecting, stream_connected,
  stream_reconnect_scheduled, stream_failed, stream_disconnected, stream_event_received,
  get_batch_by_id_fulfilled, action_batch_id, set_connecting, set_disconnected, on_stream,
  apply_event, reduce, reduce_all, select_batch_runtime_state,
}

abbrev pub hydrate : BatchDetail → BatchRuntimeState → BatchRuntimeState
hydrate detail b = record b {
  detail = some detail;
  progress = calculate_progress detail.total_payments (calculate_completed_payments detail);
}

-- What an action does to the runtime state of its own batch.
abbrev pub runtime_step : Action → BatchRuntimeState → BatchRuntimeState
runtime_step (batch_detail_hydrated detail) b = hydrate detail b
runtime_step (initialize_batch_runtime _) b = b
runtime_step (stream_connecting _ n) b = on_stream (set_connecting n) b
runtime_step (stream_connected _) b =
    on_stream (λ s. record s { status = connected; retry_count = 0; last_error = none }) b
runtime_step (stream_reconnect_scheduled _ n message) b =
    on_stream (λ s. record s { status = reconnecting; retry_count = n; last_error = some message })
      b
runtime_step (stream_failed _ message) b =
    on_stream (λ s. record s { status = error; last_error = some message }) b
runtime_step (stream_disconnected _) b = on_stream set_disconnected b
runtime_step (stream_event_received event) b = apply_event event b
runtime_step (get_batch_by_id_fulfilled detail) b = hydrate detail b

pub reduce-eq :
    (state : BatchDetailsState) (a : Action)
    → reduce state a ≡ with_batch_runtime_state state (action_batch_id a) (runtime_step a)
unfolding reduce
reduce-eq state (batch_detail_hydrated detail) = refl
reduce-eq state (initialize_batch_runtime _) = refl
reduce-eq state (stream_connecting _ n) = refl
reduce-eq state (stream_connected _) = refl
reduce-eq state (stream_reconnect_scheduled _ n message) = refl
reduce-eq state (stream_failed _ message) = refl
reduce-eq state (stream_disconnected _) = refl
reduce-eq state (stream_event_received event) = refl
reduce-eq state (get_batch_by_id_fulfilled detail) = refl

pub lookup-reduce :
    (state : BatchDetailsState) (a : Action) (j : Text)
    → lookup j (reduce state a).by_id ≡ (
        if text_eq (action_batch_id a) j
        then some (runtime_step a (batch_runtime_state state (action_batch_id a)))
        else lookup j state.by_id)
lookup-reduce state a j = rw (reduce-eq state a) (
    unfold with_batch_runtime_state in
    lookup-insert (action_batch_id a) j
      (runtime_step a (batch_runtime_state state (action_batch_id a))) state.by_id)

pub runtime-reduce_self :
    (state : BatchDetailsState) (a : Action)
    → batch_runtime_state (reduce state a) (action_batch_id a)
      ≡ runtime_step a (batch_runtime_state state (action_batch_id a))
unfolding batch_runtime_state
runtime-reduce_self state a =
    rw (lookup-reduce state a (action_batch_id a), text_eq_self (action_batch_id a)) refl

pub runtime-reduce_ne :
    (state : BatchDetailsState) (a : Action) (j : Text)
    → action_batch_id a ≢ j
    → batch_runtime_state (reduce state a) j ≡ batch_runtime_state state j
unfolding batch_runtime_state
runtime-reduce_ne state a j ne =
    ground (arith, lookup-reduce state a j, text_eq_iff (action_batch_id a) j)

-- An invariant of one batch: the steps of its own actions keep it, others do not touch it.
module _ {ℓ} (P : BatchRuntimeState → Type ℓ) (j : Text) where
  pub reduce-invariant :
      (state : BatchDetailsState) (a : Action)
      → (action_batch_id a ≡ j
          → P (batch_runtime_state state j)
          → P (runtime_step a (batch_runtime_state state j)))
      → P (batch_runtime_state state j)
      → P (batch_runtime_state (reduce state a) j)
  reduce-invariant state a step h = elim (Bool-cases (text_eq (action_batch_id a) j)) [
    | inl same ↦
        let e = (text_eq_iff (action_batch_id a) j).0 same in
        subst (λ k. P (batch_runtime_state (reduce state a) k)) e
          (rw (runtime-reduce_self state a)
            (subst⁻¹ (λ k. P (runtime_step a (batch_runtime_state state k))) e (step e h)))
    | inr other ↦
        rw (runtime-reduce_ne state a j (λ e. cc ((text_eq_iff (action_batch_id a) j).1 e))) h
  ]

  pub reduce_all-invariant :
      ((a : Action) (b : BatchRuntimeState) → action_batch_id a ≡ j → P b → P (runtime_step a b))
      → (state : BatchDetailsState) (actions : List Action) → P (batch_runtime_state state j)
      → P (batch_runtime_state (reduce_all state actions) j)
  unfolding reduce_all
  reduce_all-invariant step state [] h = h
  reduce_all-invariant step state (a ∷ rest) h =
      reduce_all-invariant step (reduce state a) rest
        (reduce-invariant state a (step a (batch_runtime_state state j)) h)

pub select-reduce_ne :
    (state : BatchDetailsState) (a : Action) (j : Text)
    → action_batch_id a ≢ j
    → select_batch_runtime_state (reduce state a) j ≡ select_batch_runtime_state state j
unfolding select_batch_runtime_state
select-reduce_ne state a j ne =
    ground (arith, lookup-reduce state a j, text_eq_iff (action_batch_id a) j)

-- Actions for other batches, however many, leave all that is stored for a batch unchanged, its
-- absence included.
pub reduce_all-isolated :
    (j : Text) (state : BatchDetailsState) (actions : List Action)
    → All (λ a. action_batch_id a ≢ j) actions
    → select_batch_runtime_state (reduce_all state actions) j ≡ select_batch_runtime_state state j
unfolding reduce_all
reduce_all-isolated j state [] others = refl
reduce_all-isolated j state (a ∷ rest) (ne, others) =
    reduce_all-isolated j (reduce state a) rest others ∙ select-reduce_ne state a j ne
