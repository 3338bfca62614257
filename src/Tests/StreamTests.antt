-- ===== src/Tests/StreamTests.antt =====
-- The theorems on the event stream at concrete inputs.
use flash_pay.Prelude.{
  ℕ, All, Text, text, ◌≡◌, refl, true, false, some, List, [], ◌∷◌, ◌++◌, any, length, ◌==◌,
  if◌then◌else◌, text_eq, arith, join, trim_end, is_space, starts_with, trim, trim_start,
}
use flash_pay.Batch.{BatchStreamEvent, payment_updated, batch_done, event_batch_id}
use flash_pay.Details.{initial_state, completed, error}
use flash_pay.Details.Reducer.{stream_disconnected, reduce_all, select_batch_stream_state}
use flash_pay.Stream.Blocks.{split_blank, remove_returns, parse_segments}
use flash_pay.Stream.Consume.{other, read, chunk, closed, is_done, consume_sse_stream}
use flash_pay.Stream.Connect.{Attempt, attempt, rejected, response, no_permission, connect}
use flash_pay.Stream.Reassembly.{concat, reads_of, events_of, delivered, consume-reassembly}
use flash_pay.Stream.Closing.{actions_of}
use flash_pay.Stream.Completion.{connect-completed}
use flash_pay.Stream.Failures.{forbidden, is_log_out, connect-refused}
use flash_pay.Stream.Printed.{IsData}
use flash_pay.Stream.Printed.Delivery.{print_events, IsEncoded, consume-print_events}
use flash_pay.Tests.Samples.{batch_id, decode, first_paid, second_failed}

-- Two messages, cut inside a field and inside a blank line.
abbrev cut_messages : List Text
cut_messages =
    text "event: payment_upd"
    ∷ text "ated\ndata: p1\n"
    ∷ text "\nevent: payment_updated\r\ndata: p2\n\n"
    ∷ []

two_events : length (events_of decode (concat cut_messages)) ≡ 2
unfolding parse_segments split_blank remove_returns trim_end is_space starts_with trim text_eq join
two_events = refl

no_end : any is_done (events_of decode (concat cut_messages)) ≡ false
unfolding parse_segments split_blank remove_returns trim_end is_space starts_with trim text_eq join
no_end = refl

consume-reassembly_example :
    consume_sse_stream decode batch_id false false [] (reads_of cut_messages)
    ≡ delivered decode batch_id (events_of decode (concat cut_messages))
consume-reassembly_example = consume-reassembly decode batch_id cut_messages no_end

abbrev encode : BatchStreamEvent → Text
encode (payment_updated e) = if text_eq e.payment_id (text "1") then text "p1" else text "p2"
encode (batch_done e) = text "end"

abbrev sent : List BatchStreamEvent
sent = payment_updated first_paid ∷ payment_updated second_failed ∷ []

abbrev sent_chunks : List Text
sent_chunks =
    text "event: payment_updated\ndata: p1\n"
    ∷ text "\nevent: pay"
    ∷ text "ment_updated\ndata: p2\n\n"
    ∷ []

code-IsData :
    (d : ℕ) → is_space d ≡ false → (d == 10) ≡ false → (d == 13) ≡ false → IsData (112 ∷ d ∷ [])
unfolding trim_start trim_end is_space
code-IsData d visible plain still = record {
  one_line = ((refl, refl), ((plain, still), tt));
  nonempty = refl;
  start = refl;
  finish = rw (visible) refl;
}

sent-IsEncoded : All (IsEncoded decode encode) sent
unfolding text_eq is_space
sent-IsEncoded =
    ((code-IsData 49 refl refl refl, refl), ((code-IsData 50 refl refl refl, refl), tt))

chunks_of_sent : concat sent_chunks ≡ print_events encode sent
unfolding text_eq
chunks_of_sent = refl

consume-print_events_example :
    consume_sse_stream decode batch_id false false [] (reads_of sent_chunks)
    ≡ delivered decode batch_id sent
consume-print_events_example =
    consume-print_events decode encode batch_id sent sent_chunks sent-IsEncoded chunks_of_sent refl

abbrev show : ℕ → Text
show n = text "n"

-- A failed fetch, a stream that is lost after one message, and one that brings the last one.
abbrev attempts : List Attempt
attempts =
    attempt false (rejected other) [] false
    ∷ attempt false (response 200 true)
        (read false (chunk (text "event: payment_updated\ndata: p1\n\n")) ∷ read false closed ∷ [])
        false
    ∷ attempt false (response 200 true)
        (read false (chunk (text "event: batch_done\ndata: end\n\n")) ∷ []) false
    ∷ []

run_completes : (connect show decode batch_id 0 attempts).completed ≡ true
unfolding connect consume_sse_stream trim_end is_space starts_with trim text_eq join
run_completes = refl

decode-own : (t : Text) (e : BatchStreamEvent) → decode t ≡ some e → event_batch_id e ≡ batch_id
decode-own t e h = ground arith

connect-completed_example :
    (select_batch_stream_state
      (reduce_all initial_state (
        actions_of (connect show decode batch_id 0 attempts).effects
        ++ stream_disconnected batch_id ∷ []))
      batch_id).status
    ≡ completed
connect-completed_example =
    connect-completed show decode batch_id attempts initial_state
      (stream_disconnected batch_id ∷ []) decode-own run_completes (tt, tt)

connect-refused_example :
    let refused = attempt false (response 403 false) [] true in
    let run = connect show decode batch_id 2 (refused ∷ attempts) in
    let t =
      select_batch_stream_state (reduce_all initial_state (actions_of run.effects)) batch_id in
    (run ≡ connect show decode batch_id 2 (refused ∷ []))
    × (t.status ≡ error)
    × (t.last_error ≡ some no_permission)
    × (any is_log_out run.effects ≡ (403 == 401))
connect-refused_example =
    connect-refused show decode batch_id 403 no_permission 2 false true [] attempts initial_state
      forbidden
