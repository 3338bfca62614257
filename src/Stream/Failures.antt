-- ===== src/Stream/Failures.antt =====
-- useBatchStream.ts: the delays before a reconnection, runs of failed attempts, and the replies
-- that end the connection for good.
use native.Mathlib.Nat.{add-zero}
use flash_pay.Prelude.{
  ℕ, zero, suc, ◌+◌, ◌-◌, ◌*◌, ◌≤◌, Text, ◌≡◌, refl, Bool, true, false, Option, some, List, [], ◌∷◌,
  min, length, any, ◌==◌, ltb, if◌then◌else◌, arith,
}
use flash_pay.Batch.{BatchStreamEvent}
use flash_pay.Details.{BatchDetailsState, connecting, reconnecting, error}
use flash_pay.Details.Completion.{select_batch_stream_state-eq}
use flash_pay.Details.Isolation.{runtime-reduce_self}
use flash_pay.Details.Reducer.{
  stream_connecting, stream_reconnect_scheduled, stream_failed, set_connecting, reduce, reduce_all,
  select_batch_stream_state,
}
use flash_pay.Stream.Closing.{actions_of}
use flash_pay.Stream.Consume.{Effect, log_out, Thrown, Read}
use flash_pay.Stream.Connect.{
  get_reconnect_delay, get_stream_error_message, Attempt, attempt, rejected, response, connect,
  session_expired, no_permission, batch_not_found,
}

delay_capped : (n : ℕ) → 4 ≤ n → get_reconnect_delay n ≡ 8000
unfolding get_reconnect_delay
delay_capped n h =
    let some_delay : (n == 0) ≡ false = ground arith in
    let last_index : min (n - 1) 3 ≡ 3 = omega arith in rw (some_delay, last_index) refl

-- The delay before each reconnection in a row is 1 to 8 seconds, and the delay before the next one
-- is twice as long, up to 8 seconds.
pub reconnect_delay-doubles :
    (n : ℕ)
    → (1000 ≤ get_reconnect_delay (suc n))
      × (get_reconnect_delay (suc n) ≤ 8000)
      × (get_reconnect_delay (suc (suc n)) ≡ min 8000 (2 * get_reconnect_delay (suc n)))
reconnect_delay-doubles zero = unfold get_reconnect_delay in (omega arith, omega arith, refl)
reconnect_delay-doubles (suc zero) = unfold get_reconnect_delay in (omega arith, omega arith, refl)
reconnect_delay-doubles (suc (suc zero)) =
    unfold get_reconnect_delay in (omega arith, omega arith, refl)
reconnect_delay-doubles (suc (suc (suc n))) =
    let now = delay_capped (suc (suc (suc (suc n)))) (omega arith) in
    let later = delay_capped (suc (suc (suc (suc (suc n))))) (omega arith) in
    (omega (arith, now), omega (arith, now), omega (arith, now, later))

shift : (r n : ℕ) → r + suc n ≡ r + 1 + n
shift r n = omega arith

-- The rounds that fail: the `fetch` rejects, and the page stays open.
abbrev pub rejections : List Thrown → List Attempt
rejections [] = []
rejections (e ∷ es) = attempt false (rejected e) [] false ∷ rejections es

connecting_state :
    (s : BatchDetailsState) (batch_id : Text) (n : ℕ)
    → let t = select_batch_stream_state (reduce s (stream_connecting batch_id (some n))) batch_id in
      (t.retry_count ≡ n) × (t.status ≡ (if ltb 0 n then reconnecting else connecting))
connecting_state s batch_id n =
    rw (select_batch_stream_state-eq (reduce s (stream_connecting batch_id (some n))) batch_id) (
      rw (runtime-reduce_self s (stream_connecting batch_id (some n)))
        (unfold set_connecting in (refl, refl)))

module _ (show : ℕ → Text) (decode : Text → Option BatchStreamEvent) (batch_id : Text) where
  -- After `n` failed fetches in a row, whatever they threw, the hook has opened the next attempt
  -- and the store shows it: the retry count has grown by `n`, and the status is `reconnecting`,
  -- or `connecting` where nothing has failed yet.
  pub connect-rejections :
      (errors : List Thrown) (r : ℕ) (s : BatchDetailsState)
      → let t =
          select_batch_stream_state
            (reduce_all s (actions_of (connect show decode batch_id r (rejections errors)).effects))
            batch_id in
        (t.retry_count ≡ r + length errors)
        × (t.status ≡ (if ltb 0 (r + length errors) then reconnecting else connecting))
  unfolding connect reduce_all
  connect-rejections [] r s = rw (add-zero r) (connecting_state s batch_id r)
  connect-rejections (e ∷ es) r s = rw (shift r (length es)) (
      connect-rejections es (r + 1) (
        reduce (reduce s (stream_connecting batch_id (some r)))
          (stream_reconnect_scheduled batch_id (r + 1) (get_stream_error_message e))))

-- The replies that end the connection, with the message that is shown.
pub data Refusal : ℕ → Text → Type 0 where
  unauthorised : Refusal 401 session_expired
  forbidden : Refusal 403 no_permission
  missing : Refusal 404 batch_not_found

abbrev pub is_log_out : Effect → Bool
is_log_out log_out = true
is_log_out _ = false

failed_state :
    (s : BatchDetailsState) (batch_id message : Text)
    → let t = select_batch_stream_state (reduce s (stream_failed batch_id message)) batch_id in
      (t.status ≡ error) × (t.last_error ≡ some message)
failed_state s batch_id message =
    rw (select_batch_stream_state-eq (reduce s (stream_failed batch_id message)) batch_id)
      (rw (runtime-reduce_self s (stream_failed batch_id message)) (refl, refl))

module _ (show : ℕ → Text) (decode : Text → Option BatchStreamEvent) (batch_id : Text) where
  -- A reply 401, 403 or 404 ends the connection: whatever the further attempts would have been,
  -- the run is the same as with none, the store shows the error with its message, and the
  -- session is ended exactly where the status is 401.
  pub connect-refused :
      (status : ℕ) (message : Text) (r : ℕ) (has_body wait_unmounted : Bool) (reads : List Read)
      (rest : List Attempt) (s : BatchDetailsState)
      → Refusal status message
      → let refused = attempt false (response status has_body) reads wait_unmounted in
        let run = connect show decode batch_id r (refused ∷ rest) in
        let t = select_batch_stream_state (reduce_all s (actions_of run.effects)) batch_id in
        (run ≡ connect show decode batch_id r (refused ∷ []))
        × (t.status ≡ error)
        × (t.last_error ≡ some message)
        × (any is_log_out run.effects ≡ (status == 401))
  unfolding connect reduce_all
  connect-refused status message r has_body wait_unmounted reads rest s unauthorised =
      let (failed, told) =
        failed_state (reduce s (stream_connecting batch_id (some r))) batch_id message in
      (refl, failed, told, refl)
  connect-refused status message r has_body wait_unmounted reads rest s forbidden =
      let (failed, told) =
        failed_state (reduce s (stream_connecting batch_id (some r))) batch_id message in
      (refl, failed, told, refl)
  connect-refused status message r has_body wait_unmounted reads rest s missing =
      let (failed, told) =
        failed_state (reduce s (stream_connecting batch_id (some r))) batch_id message in
      (refl, failed, told, refl)
