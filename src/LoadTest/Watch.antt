-- ===== src/LoadTest/Watch.antt =====
-- run.mjs: `parseSseBlock` and `waitForBatchDoneStream`.
pub mod Chunked
pub mod Printed
use flash_pay.Prelude.{
  ℕ, suc, ◌+◌, Text, text, Bool, true, false, ◌||◌, not, Option, none, some, List, [], ◌∷◌, ◌++◌,
  if◌then◌else◌, text_eq, drop, is_nonempty, trim, trim_start, starts_with, split_at, join,
}
use flash_pay.Prelude.Json.{Json, null, string, property}
use flash_pay.Prelude.Double.{Double}
use flash_pay.Stream.Blocks.{
  Block, empty_block, event_prefix, data_prefix, remove_returns, split_blank, last_or_empty,
  without_last, segments_of,
}
use flash_pay.LoadTest.Outcome.{Outcome, done, thrown}
use flash_pay.LoadTest.Api.{HttpReply, is_ok, null_error, failed_with}

-- A line of a block. Only the value of `event:` loses the white space at its end.
unfoldable pub read_sse_line : Block → Text → Block
unfolding starts_with trim trim_start
read_sse_line b line =
    if starts_with line (text ":") || not (is_nonempty (trim line))
    then b
    else if starts_with line event_prefix
    then record b { event_name = trim (drop 6 line) }
    else if starts_with line data_prefix
    then record b { data_lines = b.data_lines ++ trim_start (drop 5 line) ∷ [] }
    else b

unfoldable pub read_sse_lines : Block → List Text → Block
unfolding read_sse_line
read_sse_lines b [] = b
read_sse_lines b (line ∷ lines) = read_sse_lines (read_sse_line b line) lines

abbrev pub has_type : Text → Option Json → Bool
has_type name (some (string t)) = text_eq t name
has_type name _ = false

-- `payload.type === eventName ? payload : null`, where `payload` is not null.
unfoldable pub accept_payload : Text → Json → Outcome (Option Json)
unfolding property
accept_payload name null = thrown (null_error (text "type"))
accept_payload name payload =
    if has_type name (property (text "type") payload) then done (some payload) else done none

-- `decode` is `JSON.parse`.
module _ (decode : Text → Outcome Json) where
  abbrev pub decoded : Text → Outcome Json → Outcome (Option Json)
  unfolding accept_payload
  decoded name (thrown message) = thrown message
  decoded name (done payload) = accept_payload name payload

  unfoldable pub finish_sse_block : Text → List Text → Outcome (Option Json)
  unfolding decoded join
  finish_sse_block name [] = done none
  finish_sse_block name (l ∷ ls) = decoded name (decode (join (text "\n") (l ∷ ls)))

  unfoldable pub parse_sse_block : Text → Outcome (Option Json)
  unfolding read_sse_lines split_at finish_sse_block
  parse_sse_block block =
      let b = read_sse_lines empty_block (split_at 10 block) in
      if not (is_nonempty b.event_name)
      then done none
      else finish_sse_block b.event_name b.data_lines

-- What a list of blocks comes to: the count of the updates so far, the event `batch_done` with
-- that count, or an error.
pub data Scan : Type 0 where
  going : ℕ → Scan
  found : ℕ → Json → Scan
  broken : Text → Scan

abbrev pub is_type : Text → Json → Bool
unfolding property
is_type name event = has_type name (property (text "type") event)

module _ (decode : Text → Outcome Json) where
  -- The two tests of the loop's body, before the rest of the blocks.
  unfoldable pub count_event : Json → ℕ → ℕ
  unfolding is_type
  count_event event count = if is_type (text "payment_updated") event then count + 1 else count

  -- What a block comes to, and the loop after it.
  unfoldable pub scan_event : (ℕ → Scan) → ℕ → Outcome (Option Json) → Scan
  unfolding count_event is_type
  scan_event rest count (thrown message) = broken message
  scan_event rest count (done none) = rest count
  scan_event rest count (done (some event)) =
      if is_type (text "batch_done") event
      then found (count_event event count) event
      else rest (count_event event count)

  unfoldable pub scan_blocks : ℕ → List Text → Scan
  unfolding parse_sse_block scan_event
  scan_blocks count [] = going count
  scan_blocks count (block ∷ blocks) =
      scan_event (λ n. scan_blocks n blocks) count (parse_sse_block decode block)

pub record StreamResult : Type 0 where
  pub duration_ms : Double
  pub payment_updated_count : ℕ
  pub event : Json

-- What `reader.read()` gives: a chunk as the streaming decoder makes a text of it, the end, or an
-- error, with the time since the start and whether the timeout has aborted the request by then.
pub data SseResult : Type 0 where
  chunk : Text → SseResult
  closed : SseResult
  failed : Text → SseResult

pub record SseRead : Type 0 where
  pub elapsed : Double
  pub aborted : Bool
  pub result : SseResult

-- `unanswered` where the environment gives no further answer.
pub data Awaited (A : Type 0) : Type 0 where
  settled : Outcome A → Awaited A
  unanswered : Awaited A

-- The `catch`: after an abort every error is the timeout.
unfoldable pub caught_error : Text → Bool → Text → Awaited StreamResult
caught_error batch_id aborted message =
    if aborted
    then settled (thrown (text "timeout waiting stream batch_done for batch " ++ batch_id))
    else settled (thrown message)

-- What follows a chunk, where `rest` goes on with the count.
abbrev pub after_chunk : Text → SseRead → (ℕ → Awaited StreamResult) → Scan → Awaited StreamResult
unfolding caught_error
after_chunk batch_id r rest (going count) = rest count
after_chunk batch_id r rest (found count event) =
    settled
      (done (record { duration_ms = r.elapsed; payment_updated_count = count; event = event }))
after_chunk batch_id r rest (broken message) = caught_error batch_id r.aborted message

module _ (decode : Text → Outcome Json) (batch_id : Text) where
  -- The loop, from its buffer and its count. A chunk loses its returns before it is appended; the
  -- buffer has none.
  unfoldable pub read_stream : Text → ℕ → List SseRead → Awaited StreamResult
  unfolding caught_error after_chunk scan_blocks split_blank remove_returns
  read_stream buffer count [] = unanswered
  read_stream buffer count (r ∷ reads) = elim r.result [
    | chunk t ↦
        let blocks = split_blank (buffer ++ remove_returns t) in
        after_chunk batch_id r (λ n. read_stream (last_or_empty blocks) n reads)
          (scan_blocks decode count (without_last blocks))
    | closed ↦
        caught_error batch_id r.aborted (text "stream closed before batch_done for " ++ batch_id)
    | failed message ↦ caught_error batch_id r.aborted message
  ]

  -- From what `fetch` comes to on; a reply has a body, or `response.body` is null.
  unfoldable pub wait_for_batch_done_stream :
      Outcome HttpReply → (has_body aborted : Bool) → List SseRead → Awaited StreamResult
  unfolding read_stream
  wait_for_batch_done_stream (thrown message) has_body aborted reads =
      caught_error batch_id aborted message
  wait_for_batch_done_stream (done reply) has_body aborted reads =
      if not (is_ok reply) || not has_body
      then caught_error batch_id aborted (failed_with (text "stream") reply.status reply.body)
      else read_stream [] 0 reads
