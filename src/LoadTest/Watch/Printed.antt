-- ===== src/LoadTest/Watch/Printed.antt =====
-- run.mjs against the format of the server, apps/backend/internal/batch/handler.go.
use flash_pay.Prelude.{
  ℕ, ◌+◌, Text, text, ◌≡◌, refl, ap, ◌∙◌, true, false, not, Option, none, some, List, [], ◌∷◌, ◌++◌,
  if◌then◌else◌, All, any, length, is_nonempty, is_space, trim, trim_start, trim_end, starts_with,
  join, text_eq, text_eq_self, arith,
}
use flash_pay.Prelude.Json.{Json, Fields, object, string, property}
use flash_pay.Prelude.Double.{Double}
use flash_pay.Batch.{BatchStreamEvent, payment_updated, batch_done, event_type}
use flash_pay.Stream.Blocks.{Block, empty_block}
use flash_pay.Stream.Consume.{is_done}
use flash_pay.Stream.Reassembly.{concat, closed_blocks}
use flash_pay.Stream.Printed.{
  IsData, type_line, data_line, block_of, print_event, closed_blocks-print_event,
}
use flash_pay.Stream.Printed.Delivery.{split_at-block_of, print_events}
use flash_pay.LoadTest.Outcome.{Outcome, done}
use flash_pay.LoadTest.Watch.{
  read_sse_line, read_sse_lines, accept_payload, finish_sse_block, parse_sse_block, Scan, found,
  scan_event, scan_blocks, count_event, is_type, settled, read_stream,
}
use flash_pay.LoadTest.Watch.Chunked.{
  texts_of, sse_reads, without_time, outcome_of, read_stream-reassembly,
}

read_type_line :
    (e : BatchStreamEvent)
    → read_sse_line empty_block (type_line e)
      ≡ record { event_name = event_type e; data_lines = [] }
unfolding read_sse_line trim_end trim_start is_space starts_with trim
read_type_line (payment_updated e) = refl
read_type_line (batch_done e) = refl

read_data_line :
    (b : Block) (json : Text)
    → trim_start json ≡ json
    → read_sse_line b (data_line json) ≡ record b { data_lines = b.data_lines ++ json ∷ [] }
unfolding read_sse_line trim_end trim_start is_space starts_with trim
read_data_line b json start = rw (start) refl

-- The JSON of an event can stand in a line of the stream, and is read as an object with the type
-- of the event.
abbrev pub IsSent :
    (Text → Outcome Json)
    → (BatchStreamEvent → Text)
    → (BatchStreamEvent → Fields)
    → BatchStreamEvent
    → Type 0
IsSent decode encode fields e =
    IsData (encode e)
    × (decode (encode e) ≡ done (object (fields e)))
    × (property (text "type") (object (fields e)) ≡ some (string (event_type e)))

module _ (decode : Text → Outcome Json) where
  accept_object :
      (e : BatchStreamEvent) (fs : Fields)
      → property (text "type") (object fs) ≡ some (string (event_type e))
      → accept_payload (event_type e) (object fs) ≡ done (some (object fs))
  unfolding accept_payload
  accept_object e fs typed = rw (typed, text_eq_self (event_type e)) refl

  abbrev parsed_of : Block → Outcome (Option Json)
  parsed_of b =
      if not (is_nonempty b.event_name)
      then done none
      else finish_sse_block decode b.event_name b.data_lines

  finish_event :
      (e : BatchStreamEvent) (json : Text) (fs : Fields)
      → decode json ≡ done (object fs)
      → property (text "type") (object fs) ≡ some (string (event_type e))
      → parsed_of (record { event_name = event_type e; data_lines = json ∷ [] })
        ≡ done (some (object fs))
  unfolding finish_sse_block join
  finish_event (payment_updated e) json fs reads typed =
      rw (reads) (accept_object (payment_updated e) fs typed)
  finish_event (batch_done e) json fs reads typed =
      rw (reads) (accept_object (batch_done e) fs typed)

  parse_sse_block-block_of :
      (e : BatchStreamEvent) (json : Text) (fs : Fields)
      → IsData json
      → decode json ≡ done (object fs)
      → property (text "type") (object fs) ≡ some (string (event_type e))
      → parse_sse_block decode (block_of e json) ≡ done (some (object fs))
  unfolding parse_sse_block read_sse_lines
  parse_sse_block-block_of e json fs d reads typed =
      let b : Block = record { event_name = event_type e; data_lines = [] } in
      ap (λ ls. parsed_of (read_sse_lines empty_block ls)) (split_at-block_of e json d.one_line)
      ∙ ap (λ c. parsed_of (read_sse_line c (data_line json))) (read_type_line e)
      ∙ ap parsed_of (read_data_line b json d.start)
      ∙ finish_event e json fs reads typed

-- Which of the two types an event has, as its object shows it.
is_type_update :
    (e : BatchStreamEvent) (fs : Fields)
    → property (text "type") (object fs) ≡ some (string (event_type e))
    → is_type (text "payment_updated") (object fs) ≡ not (is_done e)
unfolding is_type text_eq
is_type_update (payment_updated e) fs typed = rw (typed) refl
is_type_update (batch_done e) fs typed = rw (typed) refl

is_type_done :
    (e : BatchStreamEvent) (fs : Fields)
    → property (text "type") (object fs) ≡ some (string (event_type e))
    → is_type (text "batch_done") (object fs) ≡ is_done e
unfolding is_type text_eq
is_type_done (payment_updated e) fs typed = rw (typed) refl
is_type_done (batch_done e) fs typed = rw (typed) refl

module _ (decode : Text → Outcome Json) (encode : BatchStreamEvent → Text)
    (fields : BatchStreamEvent → Fields) where
  abbrev text_of : List BatchStreamEvent → Text
  text_of = print_events encode

  scan_event-sent :
      (f : ℕ → Scan) (count : ℕ) (e : BatchStreamEvent)
      → property (text "type") (object (fields e)) ≡ some (string (event_type e))
      → scan_event decode f count (done (some (object (fields e))))
        ≡ (if is_done e then found count (object (fields e)) else f (count + 1))
  unfolding scan_event count_event
  scan_event-sent f count (payment_updated p) typed =
      rw
        (
          is_type_done (payment_updated p) (fields (payment_updated p)) typed,
          is_type_update (payment_updated p) (fields (payment_updated p)) typed,
        )
        refl
  scan_event-sent f count (batch_done d) typed =
      rw
        (
          is_type_done (batch_done d) (fields (batch_done d)) typed,
          is_type_update (batch_done d) (fields (batch_done d)) typed,
        )
        refl

  scan_blocks-print_event :
      (count : ℕ) (e : BatchStreamEvent) (rest : Text)
      → IsSent decode encode fields e
      → scan_blocks decode count (closed_blocks (print_event e (encode e) ++ rest)) ≡ (
          if is_done e
          then found count (object (fields e))
          else scan_blocks decode (count + 1) (closed_blocks rest))
  unfolding scan_blocks
  scan_blocks-print_event count e rest (d, reads, typed) =
      ap (scan_blocks decode count) (closed_blocks-print_event e (encode e) rest d.one_line)
      ∙ ap (scan_event decode (λ n. scan_blocks decode n (closed_blocks rest)) count)
          (parse_sse_block-block_of decode e (encode e) (fields e) d reads typed)
      ∙ scan_event-sent (λ n. scan_blocks decode n (closed_blocks rest)) count e typed

  scan_blocks-print_events :
      (count : ℕ) (before after : List BatchStreamEvent) (last : BatchStreamEvent)
      → any is_done before ≡ false
      → is_done last ≡ true
      → All (IsSent decode encode fields) (before ++ last ∷ after)
      → scan_blocks decode count (closed_blocks (text_of (before ++ last ∷ after)))
        ≡ found (count + length before) (object (fields last))
  scan_blocks-print_events count [] after last none_done ends (sent, _) =
      scan_blocks-print_event count last (text_of after) sent
      ∙ rw ends (ap (λ n. found n (object (fields last))) (omega arith))
  scan_blocks-print_events count (batch_done d ∷ before) after last none_done ends sent = cc
  scan_blocks-print_events count (payment_updated p ∷ before) after last none_done ends (sent, h) =
      scan_blocks-print_event count (payment_updated p) (text_of (before ++ last ∷ after)) sent
      ∙ scan_blocks-print_events (count + 1) before after last none_done ends h
      ∙ ap (λ n. found n (object (fields last))) (omega arith)

  -- Where the server prints events, each with a JSON that stands in one line and is read as an
  -- object with the type of the event, and the network cuts their text into chunks in any way, the
  -- wait ends with the first event `batch_done`, as its JSON is read, and with the number of the
  -- events before it, whatever comes after it.
  pub read_stream-print_events :
      (batch_id : Text) (ms : Double) (chunks : List (Double × Text))
      (before after : List BatchStreamEvent) (last : BatchStreamEvent)
      → any is_done before ≡ false
      → is_done last ≡ true
      → All (IsSent decode encode fields) (before ++ last ∷ after)
      → concat (texts_of chunks) ≡ print_events encode (before ++ last ∷ after)
      → without_time (read_stream decode batch_id [] 0 (sse_reads ms chunks))
        ≡ settled (done (length before, object (fields last)))
  read_stream-print_events batch_id ms chunks before after last none_done ends sent printed =
      read_stream-reassembly decode batch_id ms chunks
      ∙ ap (λ s. outcome_of batch_id (scan_blocks decode 0 (closed_blocks s))) printed
      ∙ ap (outcome_of batch_id) (scan_blocks-print_events 0 before after last none_done ends sent)
      ∙ ap (λ (n : ℕ). settled (done (n, object (fields last)))) (omega arith)
