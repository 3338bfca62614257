-- ===== src/Details/Ledger.antt =====
-- batchDetailsSlice.ts against an abstract view of a batch: its total and the status of each
-- payment, from which all that the slice counts is computed.
use mathlib.Core.Path.{subst}
use flash_pay.Prelude.{
  ℕ, ◌+◌, Text, ◌≡◌, refl, ap, sym, ◌∙◌, true, Bool-cases, inl, inr, Option, none, some, is_some,
  List, [], ◌∷◌, map, if◌then◌else◌, text_eq, text_eq_iff, count_if, Map, lookup, insert, arith,
}
use flash_pay.Batch.{
  BatchPaymentStatus, success, failed, same_status, BatchPayment, BatchDetail, BatchDoneEvent,
  BatchPaymentUpdatedEvent, payment_updated, batch_done,
}
use flash_pay.Details.{
  BatchRuntimeState, BatchDetailsState, get_count, calculate_progress, calculate_completed_payments,
  batch_runtime_state, close_detail, close_any_detail,
}
use flash_pay.Details.Counts.{IsCounted, count_status}
use flash_pay.Details.Isolation.{runtime_step, runtime-reduce_self, runtime-reduce_ne}
use flash_pay.Details.Consistency.{IsSettled, IsSound, AllFit, reduce_all-IsSound}
use flash_pay.Details.Reducer.{
  Action, batch_detail_hydrated, initialize_batch_runtime, stream_connecting, stream_connected,
  stream_reconnect_scheduled, stream_failed, stream_disconnected, stream_event_received,
  get_batch_by_id_fulfilled, action_batch_id, find_payment, replace_payment, update_payment,
  update_detail, apply_payment_updated, apply_to_payment, apply_to_detail, apply_event, note_event,
  reduce, reduce_all,
}

-- What is known of a batch.
pub record Ledger : Type 0 where
  pub total : ℕ
  pub statuses : Map BatchPaymentStatus

-- A payment that is listed gets a new status; another is ignored.
abbrev pub settle : Text → BatchPaymentStatus → Map BatchPaymentStatus → Map BatchPaymentStatus
unfolding lookup insert
settle id status m = if is_some (lookup id m) then insert id status m else m

abbrev pub statuses_of : List BatchPayment → Map BatchPaymentStatus
statuses_of = map λ p. (p.id, p.status)

abbrev pub ledger_of : BatchDetail → Ledger
ledger_of d = record { total = d.total_payments; statuses = statuses_of d.payments }

abbrev pub any_ledger : Option BatchDetail → Option Ledger
any_ledger none = none
any_ledger (some d) = some (ledger_of d)

-- What an action about a batch means for it.
abbrev pub ledger_step : Action → Option Ledger → Option Ledger
unfolding settle
ledger_step (batch_detail_hydrated d) l = some (ledger_of d)
ledger_step (get_batch_by_id_fulfilled d) l = some (ledger_of d)
ledger_step (stream_event_received (payment_updated e)) (some l) =
    some (record l { statuses = settle e.payment_id e.status l.statuses })
ledger_step (stream_event_received (batch_done e)) (some l) =
    some (record l { total = e.total_payments })
ledger_step _ l = l

abbrev pub ledger_run : Text → Option Ledger → List Action → Option Ledger
unfolding ledger_step
ledger_run j l [] = l
ledger_run j l (a ∷ rest) =
    ledger_run j (if text_eq (action_batch_id a) j then ledger_step a l else l) rest

is_some-lookup :
    (id : Text) (ps : List BatchPayment)
    → is_some (lookup id (statuses_of ps)) ≡ is_some (find_payment id ps)
unfolding lookup
is_some-lookup id [] = refl
is_some-lookup id (p ∷ ps) = ground (arith, is_some-lookup id ps)

statuses_of-replace_payment :
    (event : BatchPaymentUpdatedEvent) (ps : List BatchPayment)
    → is_some (find_payment event.payment_id ps) ≡ true
    → statuses_of (replace_payment event.payment_id (update_payment event) ps)
      ≡ insert event.payment_id event.status (statuses_of ps)
unfolding replace_payment update_payment insert
statuses_of-replace_payment event [] listed = cc
statuses_of-replace_payment event (p ∷ ps) listed =
    elim (Bool-cases (text_eq p.id event.payment_id)) [
      | inl same ↦ rw same refl
      | inr other ↦ rw other (
          ap (λ m. (p.id, p.status) ∷ m)
            (statuses_of-replace_payment event ps (rw other at listed)))
    ]

ledger_of-settle :
    (event : BatchPaymentUpdatedEvent) (d : BatchDetail) (o : Option BatchPayment)
    → find_payment event.payment_id d.payments ≡ o
    → settle event.payment_id event.status (statuses_of d.payments) ≡ (
        if is_some o
        then statuses_of (replace_payment event.payment_id (update_payment event) d.payments)
        else statuses_of d.payments)
unfolding settle
ledger_of-settle event d none found = rw (is_some-lookup event.payment_id d.payments, found) refl
ledger_of-settle event d (some p) found =
    rw (is_some-lookup event.payment_id d.payments, found)
      (sym (statuses_of-replace_payment event d.payments (rw found refl)))

module _ (event : BatchPaymentUpdatedEvent) (b : BatchRuntimeState) where
  ledger-apply_to_payment :
      (d : BatchDetail) (o : Option BatchPayment)
      → b.detail ≡ some d
      → find_payment event.payment_id d.payments ≡ o
      → any_ledger (apply_to_payment event b d o).detail
        ≡ some (record (ledger_of d) {
          statuses = settle event.payment_id event.status (statuses_of d.payments);
        })
  unfolding apply_to_payment update_detail
  ledger-apply_to_payment d none present found =
      ap any_ledger present
      ∙ ap (λ m. some (record { total = d.total_payments; statuses = m }))
          (sym (ledger_of-settle event d none found))
  ledger-apply_to_payment d (some p) present found =
      ap (λ m. some (record { total = d.total_payments; statuses = m }))
        (sym (ledger_of-settle event d (some p) found))

  ledger-apply_to_detail :
      (o : Option BatchDetail)
      → b.detail ≡ o
      → any_ledger (apply_to_detail event b o).detail
        ≡ ledger_step (stream_event_received (payment_updated event)) (any_ledger o)
  unfolding apply_to_detail ledger_step
  ledger-apply_to_detail none present = ap any_ledger present
  ledger-apply_to_detail (some d) present =
      ledger-apply_to_payment d (find_payment event.payment_id d.payments) present refl

ledger-close_any_detail :
    (e : BatchDoneEvent) (o : Option BatchDetail)
    → any_ledger (close_any_detail e o)
      ≡ ledger_step (stream_event_received (batch_done e)) (any_ledger o)
unfolding close_detail ledger_step
ledger-close_any_detail e none = refl
ledger-close_any_detail e (some d) = refl

ledger-runtime_step :
    (a : Action) (b : BatchRuntimeState)
    → any_ledger (runtime_step a b).detail ≡ ledger_step a (any_ledger b.detail)
unfolding apply_event apply_payment_updated ledger_step
ledger-runtime_step (batch_detail_hydrated d) b = refl
ledger-runtime_step (get_batch_by_id_fulfilled d) b = refl
ledger-runtime_step (stream_event_received (batch_done e)) b = ledger-close_any_detail e b.detail
ledger-runtime_step (stream_event_received (payment_updated e)) b =
    ledger-apply_to_detail e (note_event (payment_updated e) b) b.detail refl
ledger-runtime_step (initialize_batch_runtime _) b = refl
ledger-runtime_step (stream_connecting _ _) b = refl
ledger-runtime_step (stream_connected _) b = refl
ledger-runtime_step (stream_reconnect_scheduled _ _ _) b = refl
ledger-runtime_step (stream_failed _ _) b = refl
ledger-runtime_step (stream_disconnected _) b = refl

abbrev detail_ledger : BatchDetailsState → Text → Option Ledger
detail_ledger state j = any_ledger (batch_runtime_state state j).detail

ledger-reduce :
    (j : Text) (state : BatchDetailsState) (a : Action)
    → detail_ledger (reduce state a) j ≡ (
        if text_eq (action_batch_id a) j
        then ledger_step a (detail_ledger state j)
        else detail_ledger state j)
ledger-reduce j state a = elim (Bool-cases (text_eq (action_batch_id a) j)) [
  | inl same ↦ rw same (
      subst (λ k. detail_ledger (reduce state a) k ≡ ledger_step a (detail_ledger state k))
        ((text_eq_iff (action_batch_id a) j).0 same)
        (ap (λ (b : BatchRuntimeState). any_ledger b.detail) (runtime-reduce_self state a)
          ∙ ledger-runtime_step a (batch_runtime_state state (action_batch_id a))))
  | inr other ↦ rw other (
      ap (λ (b : BatchRuntimeState). any_ledger b.detail)
        (runtime-reduce_ne state a j (λ e. cc ((text_eq_iff (action_batch_id a) j).1 e))))
]

ledger-reduce_all :
    (j : Text) (state : BatchDetailsState) (actions : List Action)
    → detail_ledger (reduce_all state actions) j ≡ ledger_run j (detail_ledger state j) actions
unfolding reduce_all ledger_run
ledger-reduce_all j state [] = refl
ledger-reduce_all j state (a ∷ rest) =
    ledger-reduce_all j (reduce state a) rest
    ∙ ap (λ l. ledger_run j l rest) (ledger-reduce j state a)

abbrev pub count_of : BatchPaymentStatus → Map BatchPaymentStatus → ℕ
count_of s = count_if λ (_, status). same_status status s

count_of-statuses_of :
    (s : BatchPaymentStatus) (ps : List BatchPayment)
    → count_status s ps ≡ count_of s (statuses_of ps)
count_of-statuses_of s [] = refl
count_of-statuses_of s (p ∷ ps) = ground (arith, count_of-statuses_of s ps)

completed-IsCounted :
    (d : BatchDetail)
    → IsCounted d
    → calculate_completed_payments d
      ≡ count_of success (statuses_of d.payments) + count_of failed (statuses_of d.payments)
unfolding calculate_completed_payments get_count
completed-IsCounted d counted = omega (
  arith,
  counted.at success ∙ count_of-statuses_of success d.payments,
  counted.at failed ∙ count_of-statuses_of failed d.payments,
)

-- The stored state shows a ledger: no detail where nothing is known, else a detail with the total
-- and the statuses of the ledger, counts that are those of the statuses, and a progress that is
-- computed from the total and the payments that succeeded or failed.
abbrev pub Shows : BatchRuntimeState → Option Ledger → Type 0
Shows b none = b.detail ≡ none
Shows b (some l) =
    (d : BatchDetail) × (b.detail ≡ some d)
    × (ledger_of d ≡ l)
    × ((s : BatchPaymentStatus) → get_count d.status_count s ≡ count_of s l.statuses)
    × (b.progress
        ≡ calculate_progress l.total (count_of success l.statuses + count_of failed l.statuses))

IsSound-Shows : (b : BatchRuntimeState) → IsSound b → Shows b (any_ledger b.detail)
IsSound-Shows b sound = shows b.detail refl sound
  where
    shows :
        (o : Option BatchDetail) → b.detail ≡ o → IsSettled o b.progress → Shows b (any_ledger o)
    shows none e h = e
    shows (some d) e (counted, progress) = (
      d,
      e,
      refl,
      λ s. counted.at s ∙ count_of-statuses_of s d.payments,
      progress ∙ ap (calculate_progress d.total_payments) (completed-IsCounted d counted),
    )

-- The slice refines the ledger of a batch: run over any actions that fit, from a state in which
-- the batch is sound, it shows the ledger that the actions about this batch make of the one at
-- the start.
pub reduce_all-Shows :
    (j : Text) (state : BatchDetailsState) (actions : List Action)
    → AllFit j state actions
    → IsSound (batch_runtime_state state j)
    → Shows
        (batch_runtime_state (reduce_all state actions) j)
        (ledger_run j (any_ledger (batch_runtime_state state j).detail) actions)
reduce_all-Shows j state actions fits sound =
    subst (Shows (batch_runtime_state (reduce_all state actions) j))
      (ledger-reduce_all j state actions)
      (IsSound-Shows (batch_runtime_state (reduce_all state actions) j)
        (reduce_all-IsSound j state actions fits sound))
