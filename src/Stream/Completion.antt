-- ===== src/Stream/Completion.antt =====
-- useBatchStream.ts with batchDetailsSlice.ts: runs of the hook that have seen `batch_done`.
use flash_pay.Prelude.{
  ℕ, Text, ◌≡◌, refl, ap, ◌∙◌, Bool, true, false, ◌||◌, Option, some, List, [], ◌∷◌, ◌++◌, any, All,
}
use mathlib.Core.List.{append-nil}
use mathlib.Core.Path.{subst}
use flash_pay.Batch.{BatchStreamEvent, batch_done, event_batch_id}
use flash_pay.Details.{completed, BatchDetailsState}
use flash_pay.Details.Completion.{IsQuiet, completed-reduce_all}
use flash_pay.Details.Reducer.{
  Action, stream_event_received, stream_disconnected, stream_connected, stream_connecting,
  stream_reconnect_scheduled, reduce, reduce_all, select_batch_stream_state,
}
use flash_pay.Stream.Blocks.{parse_segments, segments_of, last_or_empty, without_last}
use flash_pay.Stream.Consume.{
  Effect, dispatch, Read, read, chunk, closed, failed, is_done, on_events, cleanup,
  consume_sse_stream,
}
use flash_pay.Stream.Connect.{
  Attempt, attempt, Reply, rejected, response, Round, Run, Next, after_round, finished, retry,
  hanging, handle_reply, handle_response, Verdict, usable, classify, connect,
}
use flash_pay.Stream.Closing.{
  actions_of, actions_of-append, IsClosing, IsClosing-prepend, IsClosing-append, AllOwn,
  on_events-IsClosing,
}
use flash_pay.Stream.Ownership.{parse_segments-own}

-- Where the server sends the events of the batch alone, a run that completes closes the stream.
module _ (decode : Text → Option BatchStreamEvent) (batch_id : Text)
    (own : (t : Text) (e : BatchStreamEvent)
      → decode t ≡ some e
      → event_batch_id e ≡ batch_id) where
  -- A chunk with the events `events`, by whether one of them is `batch_done`.
  chunk-IsClosing :
      (unmounted done : Bool) (events : List BatchStreamEvent) (left : Text) (rest : List Read)
      → any is_done events ≡ done
      → AllOwn batch_id events
      → ((consume_sse_stream decode batch_id false false left rest).completed ≡ true
          → IsClosing batch_id
              (actions_of (consume_sse_stream decode batch_id false false left rest).effects))
      → (consume_sse_stream decode batch_id (unmounted || done) done left rest).completed ≡ true
      → IsClosing batch_id (
          actions_of (
            cleanup batch_id unmounted
            ++ (on_events events
                ++ (consume_sse_stream decode batch_id
                    (unmounted || done)
                    done
                    left
                    rest).effects)))
  unfolding consume_sse_stream
  chunk-IsClosing true true events left rest done all_own later h =
      rw (append-nil (on_events events)) (
        IsClosing-prepend (stream_disconnected batch_id ∷ []) (actions_of (on_events events))
          (on_events-IsClosing batch_id events all_own done))
  chunk-IsClosing false true events left rest done all_own later h =
      rw (append-nil (on_events events)) (on_events-IsClosing batch_id events all_own done)
  chunk-IsClosing true false events left rest done all_own later h = cc
  chunk-IsClosing false false events left rest done all_own later h =
      rw (actions_of-append (on_events events) _)
        (IsClosing-prepend (actions_of (on_events events)) _ (later h))

  consume-IsClosing :
      (buffer : Text) (reads : List Read)
      → (consume_sse_stream decode batch_id false false buffer reads).completed ≡ true
      → IsClosing batch_id
          (actions_of (consume_sse_stream decode batch_id false false buffer reads).effects)
  unfolding consume_sse_stream
  consume-IsClosing buffer [] h = cc
  consume-IsClosing buffer (read unmounted closed ∷ rest) h = cc
  consume-IsClosing buffer (read unmounted (failed e) ∷ rest) h = cc
  consume-IsClosing buffer (read unmounted (chunk t) ∷ rest) h =
      let segments = segments_of buffer t in
      let events = parse_segments decode (without_last segments) in
      chunk-IsClosing unmounted (any is_done events) events (last_or_empty segments) rest refl
        (parse_segments-own decode batch_id own (without_last segments))
        (consume-IsClosing (last_or_empty segments) rest) h

  consume_any-IsClosing :
      (unmounted : Bool) (reads : List Read)
      → (consume_sse_stream decode batch_id unmounted false [] reads).completed ≡ true
      → IsClosing batch_id
          (actions_of (consume_sse_stream decode batch_id unmounted false [] reads).effects)
  unfolding consume_sse_stream
  consume_any-IsClosing true reads h = cc
  consume_any-IsClosing false reads h = consume-IsClosing [] reads h

  module _ (show : ℕ → Text) where
    handle_response-IsClosing :
        (retry_count : ℕ) (unmounted : Bool) (status : ℕ) (reads : List Read) (v : Verdict)
        → (handle_response show decode batch_id retry_count unmounted status reads v).completed
          ≡ true
        → IsClosing batch_id (
            actions_of
              (handle_response show decode batch_id retry_count unmounted status reads v).effects)
    unfolding handle_response
    handle_response-IsClosing retry_count unmounted status reads usable h =
        IsClosing-prepend (stream_connected batch_id ∷ []) _
          (consume_any-IsClosing unmounted reads h)
    handle_response-IsClosing retry_count unmounted status reads _ h = cc

    handle_reply-IsClosing :
        (retry_count : ℕ) (unmounted : Bool) (reply : Reply) (reads : List Read)
        → (handle_reply show decode batch_id retry_count unmounted reply reads).completed ≡ true
        → IsClosing batch_id (
            actions_of
              (handle_reply show decode batch_id retry_count unmounted reply reads).effects)
    unfolding handle_reply
    handle_reply-IsClosing retry_count unmounted (rejected e) reads h = cc
    handle_reply-IsClosing retry_count unmounted (response status has_body) reads h =
        handle_response-IsClosing retry_count unmounted status reads (classify status has_body) h

    after_round-IsClosing :
        (r : Round) (opening : List Effect) (wait_unmounted : Bool) (later : ℕ → Run) (next : Next)
        → ((n : ℕ) → (later n).completed ≡ true → IsClosing batch_id (actions_of (later n).effects))
        → (r.completed ≡ true → IsClosing batch_id (actions_of opening))
        → (after_round batch_id r opening wait_unmounted later next).completed ≡ true
        → IsClosing batch_id
            (actions_of (after_round batch_id r opening wait_unmounted later next).effects)
    after_round-IsClosing r opening wait_unmounted later finished rest now h = now h
    after_round-IsClosing r opening wait_unmounted later hanging rest now h = now h
    after_round-IsClosing r opening true later (retry n message) rest now h = cc
    after_round-IsClosing r opening false later (retry n message) rest now h =
        rw (actions_of-append opening _) (
          IsClosing-prepend (actions_of opening) _
            (IsClosing-prepend (stream_reconnect_scheduled batch_id n message ∷ []) _ (rest n h)))

    connect-IsClosing :
        (retry_count : ℕ) (attempts : List Attempt)
        → (connect show decode batch_id retry_count attempts).completed ≡ true
        → IsClosing batch_id
            (actions_of (connect show decode batch_id retry_count attempts).effects)
    unfolding connect
    connect-IsClosing retry_count [] h = cc
    connect-IsClosing retry_count (attempt unmounted reply reads wait_unmounted ∷ rest) h =
        let r = handle_reply show decode batch_id retry_count unmounted reply reads in
        after_round-IsClosing r
          (dispatch (stream_connecting batch_id (some retry_count))
            ∷ (cleanup batch_id unmounted ++ r.effects))
          wait_unmounted (λ n. connect show decode batch_id n rest) r.next
          (λ n. connect-IsClosing n rest)
          (λ done. rw (actions_of-append (cleanup batch_id unmounted) r.effects) (
            IsClosing-prepend
              (stream_connecting batch_id (some retry_count)
                ∷ actions_of (cleanup batch_id unmounted))
              _ (handle_reply-IsClosing retry_count unmounted reply reads done)))
          h

reduce_all-append :
    (s : BatchDetailsState) (xs ys : List Action)
    → reduce_all s (xs ++ ys) ≡ reduce_all (reduce_all s xs) ys
unfolding reduce_all
reduce_all-append s [] ys = refl
reduce_all-append s (x ∷ xs) ys = reduce_all-append (reduce s x) xs ys

IsClosing-completed :
    (batch_id : Text) (s : BatchDetailsState) (actions : List Action)
    → IsClosing batch_id actions
    → (select_batch_stream_state (reduce_all s actions) batch_id).status ≡ completed
IsClosing-completed batch_id s actions c =
    let done = stream_event_received (batch_done c.event) in
    let mid = reduce_all s c.before in
    ap (λ l. (select_batch_stream_state (reduce_all s l) batch_id).status) c.split
    ∙ ap (λ t. (select_batch_stream_state t batch_id).status) (reduce_all-append s c.before _)
    ∙ subst
        (λ j. (select_batch_stream_state (reduce_all mid (done ∷ c.after)) j).status ≡ completed)
        c.own (unfold reduce_all in completed-reduce_all mid c.event c.after c.quiet)

-- If the server sends on this stream the events of its batch alone, and `connect` has noted
-- completion, then the store shows the stream of the batch as completed after the actions of the
-- whole run, whatever failures and retries came before and whatever else was received with
-- `batch_done`, and still after `late` actions that open, fail or reschedule no connection, as
-- snapshots that arrive late and the disconnect of a closing page are.
pub connect-completed :
    (show : ℕ → Text) (decode : Text → Option BatchStreamEvent) (batch_id : Text)
    (attempts : List Attempt) (s : BatchDetailsState) (late : List Action)
    → ((t : Text) (e : BatchStreamEvent) → decode t ≡ some e → event_batch_id e ≡ batch_id)
    → (connect show decode batch_id 0 attempts).completed ≡ true
    → All IsQuiet late
    → (select_batch_stream_state
        (reduce_all s (actions_of (connect show decode batch_id 0 attempts).effects ++ late))
        batch_id).status
      ≡ completed
connect-completed show decode batch_id attempts s late own done quiet =
    IsClosing-completed batch_id s _ (
      IsClosing-append (actions_of (connect show decode batch_id 0 attempts).effects) late quiet
        (connect-IsClosing decode batch_id own show 0 attempts done))
