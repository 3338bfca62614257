-- ===== src/LoadTest/Watch/Chunked.antt =====
-- run.mjs: a stream that comes in chunks, as `waitForBatchDoneStream` reads it.
use flash_pay.Prelude.{
  ℕ, Text, text, ◌≡◌, refl, ap, sym, ◌∙◌, false, Bool-cases, inl, inr, Option, none, some, List, [],
  ◌∷◌, ◌++◌,
}
use flash_pay.Prelude.Json.{Json}
use flash_pay.Prelude.Double.{Double}
use flash_pay.Stream.Blocks.{remove_returns, split_blank, last_or_empty, without_last, segments_of}
use flash_pay.Stream.Chunks.{NoReturn, remove_returns-append, remove_returns-fixed}
use flash_pay.Stream.Reassembly.{
  concat, closed_blocks, closed_blocks-append, segments-open, closed_blocks-open,
}
use flash_pay.LoadTest.Outcome.{Outcome, done, thrown}
use flash_pay.LoadTest.Watch.{
  parse_sse_block, Scan, going, found, broken, scan_blocks, scan_event, count_event, is_type,
  StreamResult, chunk, closed, SseRead, Awaited, settled, unanswered, caught_error, after_chunk,
  read_stream,
}

abbrev pub texts_of : List (Double × Text) → List Text
texts_of [] = []
texts_of ((_, t) ∷ chunks) = t ∷ texts_of chunks

-- The reads of a stream that sends the chunks, each at its time, and ends, without a timeout.
abbrev pub sse_reads : Double → List (Double × Text) → List SseRead
sse_reads ms [] = record { elapsed = ms; aborted = false; result = closed } ∷ []
sse_reads ms ((at, t) ∷ chunks) =
    record { elapsed = at; aborted = false; result = chunk t } ∷ sse_reads ms chunks

-- The count and the event of a result, without its time.
abbrev pub without_time : Awaited StreamResult → Awaited (ℕ × Json)
without_time unanswered = unanswered
without_time (settled (thrown message)) = settled (thrown message)
without_time (settled (done r)) = settled (done (r.payment_updated_count, r.event))

-- What all the blocks of a stream come to.
abbrev pub outcome_of : Text → Scan → Awaited (ℕ × Json)
outcome_of batch_id (going count) =
    settled (thrown (text "stream closed before batch_done for " ++ batch_id))
outcome_of batch_id (found count event) = settled (done (count, event))
outcome_of batch_id (broken message) = settled (thrown message)

module _ (decode : Text → Outcome Json) where
  abbrev and_then : Scan → List Text → Scan
  and_then (going count) blocks = scan_blocks decode count blocks
  and_then (found count event) blocks = found count event
  and_then (broken message) blocks = broken message

  scan_event-and_then :
      (f g : ℕ → Scan) (ys : List Text)
      → ((n : ℕ) → f n ≡ and_then (g n) ys)
      → (count : ℕ) (o : Outcome (Option Json))
      → scan_event decode f count o ≡ and_then (scan_event decode g count o) ys
  unfolding scan_event
  scan_event-and_then f g ys h count (thrown message) = refl
  scan_event-and_then f g ys h count (done none) = h count
  scan_event-and_then f g ys h count (done (some event)) =
      elim (Bool-cases (is_type (text "batch_done") event)) [
        | inl last ↦ rw (last) refl
        | inr more ↦ rw (more) (h (count_event decode event count))
      ]

  scan_blocks-append :
      (count : ℕ) (xs ys : List Text)
      → scan_blocks decode count (xs ++ ys) ≡ and_then (scan_blocks decode count xs) ys
  unfolding scan_blocks
  scan_blocks-append count [] ys = refl
  scan_blocks-append count (x ∷ xs) ys =
      scan_event-and_then (λ n. scan_blocks decode n (xs ++ ys)) (λ n. scan_blocks decode n xs) ys
        (λ n. scan_blocks-append n xs ys) count (parse_sse_block decode x)

-- A chunk that loses its returns before or after it is appended.
segments_of-clean :
    (b t : Text) → NoReturn b → segments_of b t ≡ split_blank (b ++ remove_returns t)
unfolding segments_of
segments_of-clean b t clean =
    ap split_blank
      (remove_returns-append b t ∙ ap (λ s. s ++ remove_returns t) (remove_returns-fixed b clean))

module _ (decode : Text → Outcome Json) (batch_id : Text) (ms : Double) where
  abbrev read_chunks : Text → ℕ → List (Double × Text) → Awaited (ℕ × Json)
  read_chunks b count chunks =
      without_time (read_stream decode batch_id b count (sse_reads ms chunks))

  scan-chunk :
      (r : SseRead) (rest : ℕ → Awaited StreamResult) (later : List Text) (s : Scan)
      → r.aborted ≡ false
      → ((n : ℕ) → without_time (rest n) ≡ outcome_of batch_id (scan_blocks decode n later))
      → without_time (after_chunk batch_id r rest s) ≡ outcome_of batch_id (and_then decode s later)
  unfolding after_chunk caught_error
  scan-chunk r rest later (going count) live h = h count
  scan-chunk r rest later (found count event) live h = refl
  scan-chunk r rest later (broken message) live h = rw live refl

  read_stream-blocks :
      (chunks : List (Double × Text)) (b : Text) (count : ℕ)
      → NoReturn b
      → split_blank b ≡ b ∷ []
      → read_chunks b count chunks
        ≡ outcome_of batch_id
            (scan_blocks decode count (closed_blocks (b ++ concat (texts_of chunks))))
  unfolding read_stream after_chunk
  read_stream-blocks [] b count clean single =
      rw (closed_blocks-open b clean single) (unfold read_stream scan_blocks in refl)
  read_stream-blocks ((at, t) ∷ chunks) b count clean single =
      let left = last_or_empty (segments_of b t) in
      let later = closed_blocks (left ++ concat (texts_of chunks)) in
      ap
        (λ (blocks : List Text). without_time (
          after_chunk batch_id (record { elapsed = at; aborted = false; result = chunk t })
            (λ n. read_stream decode batch_id (last_or_empty blocks) n (sse_reads ms chunks))
            (scan_blocks decode count (without_last blocks))))
        (sym (segments_of-clean b t clean))
      ∙ scan-chunk (record { elapsed = at; aborted = false; result = chunk t })
          (λ n. read_stream decode batch_id left n (sse_reads ms chunks)) later
          (scan_blocks decode count (without_last (segments_of b t))) refl
          (λ n. read_stream-blocks chunks left n (segments-open b t).0 (segments-open b t).1)
      ∙ ap (outcome_of batch_id) (
          sym (scan_blocks-append decode count (without_last (segments_of b t)) later)
          ∙ ap (scan_blocks decode count)
              (sym (closed_blocks-append b t (concat (texts_of chunks)))))

-- However a stream is cut into chunks, and at whatever times they come before the timeout, the
-- wait comes to what the closed blocks of the whole text come to, in their order: the first event
-- `batch_done` with the count of the updates up to it, the first error, or the error that the
-- stream has ended.
pub read_stream-reassembly :
    (decode : Text → Outcome Json) (batch_id : Text) (ms : Double) (chunks : List (Double × Text))
    → without_time (read_stream decode batch_id [] 0 (sse_reads ms chunks))
      ≡ outcome_of batch_id (scan_blocks decode 0 (closed_blocks (concat (texts_of chunks))))
read_stream-reassembly decode batch_id ms chunks =
    read_stream-blocks decode batch_id ms chunks [] 0 tt (unfold split_blank in refl)
