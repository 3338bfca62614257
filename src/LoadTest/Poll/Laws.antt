-- ===== src/LoadTest/Poll/Laws.antt =====
-- run.mjs: how the polling ends, as a relation of the rounds and the result, and that it ends.
use flash_pay.Prelude.{
  ℕ, ◌*◌, ◌^◌, ◌≤◌, ◌<◌, Text, text, ◌≡◌, refl, ◌⊎◌, Bool, true, false, ◌&&◌, Bool-cases, inl, inr,
  Option, none, some, List, [], ◌∷◌, ◌++◌, ◌==◌, arith, ◌↔◌, Option-cases, zero, suc,
}
use flash_pay.Prelude.Double.{Double}
use flash_pay.LoadTest.Outcome.{Outcome, done, thrown}
use flash_pay.LoadTest.Api.{
  Payload, LoadCounts, LoadDetail, counts_of, fetch_batch_detail, null_error,
}
use flash_pay.LoadTest.Watch.{settled}
use flash_pay.LoadTest.Poll.{
  PollRound, FinalState, or_zero, is_within, is_settled, poll_round, wait_for_batch_final_state,
}

-- A count that the server gives as 0, or not at all.
abbrev pub IsNone : Option ℕ → Type 0
IsNone n = (n ≡ none) ⊎ (n ≡ some 0)

-- The detail has no payment pending and none in process.
abbrev pub IsFinal : LoadDetail → Type 0
IsFinal d =
    (d.status_count ≡ none)
    ⊎ ((c : LoadCounts) × (d.status_count ≡ some c) × IsNone c.pending × IsNone c.processing)

-- The time is below the limit; a time is its significand over a power of two.
abbrev pub IsBefore : Double → ℕ → Type 0
IsBefore t limit = t.significand < limit * 2 ^ t.shift

zero_iff : (n : Option ℕ) → ((or_zero n == 0) ≡ true) ↔ IsNone n
zero_iff none = (λ h. inl refl, λ h. refl)
zero_iff (some zero) = (λ h. inr refl, λ h. refl)
zero_iff (some (suc n)) = (λ h. ground arith, λ h. ground arith)

both_iff : (a b : Bool) → ((a && b) ≡ true) ↔ ((a ≡ true) × (b ≡ true))
both_iff true true = (λ h. (refl, refl), λ h. refl)
both_iff true false = (λ h. (refl, h), λ h. h.1)
both_iff false b = (λ h. absurd (ground arith), λ h. h.0)

settled-IsFinal : (d : LoadDetail) → is_settled (counts_of d) ≡ true → IsFinal d
settled-IsFinal d h = elim (Option-cases d.status_count) [
  | inl missing ↦ inl missing
  | inr (c, present) ↦
      let parts =
        (both_iff (or_zero c.pending == 0) (or_zero c.processing == 0)).0 (rw present at h) in
      inr (c, present, (zero_iff c.pending).0 parts.0, (zero_iff c.processing).0 parts.1)
]

IsFinal-settled : (d : LoadDetail) → IsFinal d → is_settled (counts_of d) ≡ true
IsFinal-settled d (inl missing) = rw missing refl
IsFinal-settled d (inr (c, present, p, q)) = rw present (
    (both_iff (or_zero c.pending == 0) (or_zero c.processing == 0)).1
      ((zero_iff c.pending).1 p, (zero_iff c.processing).1 q))

module _ (decode : Text → Option (Option LoadDetail)) (stringify : Payload LoadDetail → Text)
    (batch_id : Text) (timeout_ms : ℕ) where
  -- What the rounds may end with: the timeout, where a round begins at it or after it; the error
  -- of a request; the error of a reply that is `null`; or a final detail with the time after its
  -- request. A round goes on to the next one only with a detail that is not final.
  pub data EndsWith : List PollRound → Outcome FinalState → Type 0 where
    timed_out :
        {r : PollRound} {rounds : List PollRound}
        → timeout_ms * 2 ^ r.before.shift ≤ r.before.significand
        → EndsWith (r ∷ rounds) (thrown (text "timeout waiting final state for batch " ++ batch_id))
    request_failed :
        {r : PollRound} {rounds : List PollRound} {message : Text}
        → IsBefore r.before timeout_ms
        → fetch_batch_detail decode stringify r.reply ≡ thrown message
        → EndsWith (r ∷ rounds) (thrown message)
    null_reply :
        {r : PollRound} {rounds : List PollRound}
        → IsBefore r.before timeout_ms
        → fetch_batch_detail decode stringify r.reply ≡ done none
        → EndsWith (r ∷ rounds) (thrown (null_error (text "status_count")))
    found :
        {r : PollRound} {rounds : List PollRound} {d : LoadDetail}
        → IsBefore r.before timeout_ms
        → fetch_batch_detail decode stringify r.reply ≡ done (some d)
        → IsFinal d
        → EndsWith (r ∷ rounds) (done (record { detail = d; duration_ms = r.after }))
    goes_on :
        {r : PollRound} {rounds : List PollRound} {d : LoadDetail} {o : Outcome FinalState}
        → IsBefore r.before timeout_ms
        → fetch_batch_detail decode stringify r.reply ≡ done (some d)
        → ¬ IsFinal d
        → EndsWith rounds o
        → EndsWith (r ∷ rounds) o

  -- A round that begins before the timeout.
  round-EndsWith :
      (r : PollRound) (rounds : List PollRound) (o : Outcome FinalState)
      (reply : Outcome (Option LoadDetail))
      → IsBefore r.before timeout_ms
      → fetch_batch_detail decode stringify r.reply ≡ reply
      → EndsWith rounds o
      → (e : Outcome FinalState) × (poll_round r (settled o) reply ≡ settled e)
        × EndsWith (r ∷ rounds) e
  round-EndsWith r rounds o (thrown message) early fetched h =
      (thrown message, refl, request_failed early fetched)
  round-EndsWith r rounds o (done none) early fetched h =
      (thrown (null_error (text "status_count")), refl, null_reply early fetched)
  round-EndsWith r rounds o (done (some d)) early fetched h =
      elim (Bool-cases (is_settled (counts_of d))) [
        | inl yes_settled ↦ (
          done (record { detail = d; duration_ms = r.after }),
          rw (yes_settled) refl,
          found early fetched (settled-IsFinal d yes_settled),
        )
        | inr more ↦ (
          o,
          rw (more) refl,
          goes_on early fetched (λ final. ground (arith, IsFinal-settled d final)) h,
        )
      ]

  -- Whatever the server replies, the polling ends as soon as one of its rounds begins at the
  -- timeout or after it, if not before, and as the relation says: with the detail of the first
  -- reply that has no payment pending and none in process, if no error comes before it.
  pub wait-EndsWith :
      (earlier : List PollRound) (late : PollRound) (later : List PollRound)
      → timeout_ms * 2 ^ late.before.shift ≤ late.before.significand
      → (o : Outcome FinalState) × (wait_for_batch_final_state decode stringify batch_id timeout_ms
            (earlier ++ late ∷ later)
          ≡ settled o)
        × EndsWith (earlier ++ late ∷ later) o
  unfolding wait_for_batch_final_state
  wait-EndsWith [] late later over =
      let not_within : is_within late.before timeout_ms ≡ false = ground arith in
      (
        thrown (text "timeout waiting final state for batch " ++ batch_id),
        rw (not_within) refl,
        timed_out over,
      )
  wait-EndsWith (r ∷ earlier) late later over = elim (Bool-cases (is_within r.before timeout_ms)) [
    | inl early ↦
        let (o, ends, runs) = wait-EndsWith earlier late later over in
        let (e, round_ends, all_runs) =
          round-EndsWith r (earlier ++ late ∷ later) o (fetch_batch_detail decode stringify r.reply)
            (ground arith) refl runs in
        (e, rw (early, ends) round_ends, all_runs)
    | inr out ↦ (
      thrown (text "timeout waiting final state for batch " ++ batch_id),
      rw (out) refl,
      timed_out (ground arith),
    )
  ]
