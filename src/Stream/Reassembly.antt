-- ===== src/Stream/Reassembly.antt =====
-- useBatchStream.ts: the delivery of a stream that comes in chunks.
use flash_pay.Prelude.{
  Text, ◌≡◌, refl, ap, sym, ◌∙◌, Bool, false, ◌||◌, Option, Option-cases, inl, inr, List, [], ◌∷◌,
  ◌++◌, any, arith,
}
use mathlib.Core.List.{append_assoc, append-nil}
use flash_pay.Batch.{BatchStreamEvent}
use flash_pay.Stream.Blocks.{
  remove_returns, split_blank, last_or_empty, without_last, segments_of, parse_segments,
  parse_event_block,
}
use flash_pay.Stream.Chunks.{
  NoReturn, NoReturn-remove_returns, NoReturn-last, remove_returns-append, remove_returns-fixed,
  split_blank-last, without_last-split_blank-append,
}
use flash_pay.Stream.Consume.{
  Effect, Read, read, chunk, closed, returned, Consumed, is_done, on_event, on_events,
  consume_sse_stream,
}

-- The text of a list of chunks.
abbrev pub concat : List Text → Text
concat [] = []
concat (t ∷ ts) = t ++ concat ts

-- The reads of a stream that sends the chunks and ends.
abbrev pub reads_of : List Text → List Read
reads_of [] = read false closed ∷ []
reads_of (t ∷ ts) = read false (chunk t) ∷ reads_of ts

-- The blocks of a text, the open one at its end left out.
abbrev pub closed_blocks : Text → List Text
closed_blocks s = without_last (split_blank (remove_returns s))

any-append {ℓ} :
    {A : Type ℓ} (p : A → Bool) (xs ys : List A) → any p (xs ++ ys) ≡ (any p xs || any p ys)
any-append p [] ys = refl
any-append p (x ∷ xs) ys = ground (arith, any-append p xs ys)

on_events-append :
    (xs ys : List BatchStreamEvent) → on_events (xs ++ ys) ≡ on_events xs ++ on_events ys
unfolding on_events
on_events-append [] ys = refl
on_events-append (x ∷ xs) ys =
    ap (λ l. on_event x ++ l) (on_events-append xs ys)
    ∙ sym (append_assoc (on_event x) (on_events xs) (on_events ys))

module _ (decode : Text → Option BatchStreamEvent) where
  parse_segments-append :
      (xs ys : List Text)
      → parse_segments decode (xs ++ ys) ≡ parse_segments decode xs ++ parse_segments decode ys
  unfolding parse_segments
  parse_segments-append [] ys = refl
  parse_segments-append (x ∷ xs) ys = elim (Option-cases (parse_event_block decode x)) [
    | inl skipped ↦ rw (skipped, parse_segments) (parse_segments-append xs ys)
    | inr (event, parsed) ↦
        rw (parsed, parse_segments) (ap (λ l. event ∷ l) (parse_segments-append xs ys))
  ]

  -- The events of a whole text.
  abbrev pub events_of : Text → List BatchStreamEvent
  events_of s = parse_segments decode (closed_blocks s)

-- One chunk more: the blocks that it closes, and those from what it leaves open on.
pub closed_blocks-append :
    (b c rest : Text)
    → closed_blocks (b ++ (c ++ rest))
      ≡ without_last (segments_of b c) ++ closed_blocks (last_or_empty (segments_of b c) ++ rest)
unfolding segments_of
closed_blocks-append b c rest =
    let x = remove_returns (b ++ c) in
    let left = last_or_empty (split_blank x) in
    ap (λ s. without_last (split_blank s))
      (ap remove_returns (sym (append_assoc b c rest)) ∙ remove_returns-append (b ++ c) rest)
    ∙ without_last-split_blank-append x (remove_returns rest)
    ∙ ap (λ s. without_last (split_blank x) ++ without_last (split_blank s))
        (sym (
          remove_returns-append left rest
          ∙ ap (λ s. s ++ remove_returns rest)
              (remove_returns-fixed left (NoReturn-last x (NoReturn-remove_returns (b ++ c))))))

pub segments-open :
    (b t : Text)
    → NoReturn (last_or_empty (segments_of b t))
      × (split_blank (last_or_empty (segments_of b t)) ≡ last_or_empty (segments_of b t) ∷ [])
unfolding segments_of
segments-open b t = (
  NoReturn-last (remove_returns (b ++ t)) (NoReturn-remove_returns (b ++ t)),
  split_blank-last (remove_returns (b ++ t)),
)

or-false_left : (a b : Bool) → (a || b) ≡ false → a ≡ false
or-false_left a b h = ground arith

or-false_right : (a b : Bool) → (a || b) ≡ false → b ≡ false
or-false_right a b h = ground arith

pub closed_blocks-open :
    (b : Text) → NoReturn b → split_blank b ≡ b ∷ [] → closed_blocks (b ++ []) ≡ []
closed_blocks-open b clean single =
    ap closed_blocks (append-nil b)
    ∙ ap (λ s. without_last (split_blank s)) (remove_returns-fixed b clean)
    ∙ ap without_last single

module _ (decode : Text → Option BatchStreamEvent) (batch_id : Text) where
  -- What the call gives where it delivers these events and reads to the end of the stream.
  abbrev pub delivered : List BatchStreamEvent → Consumed
  delivered events = record {
    effects = on_events events;
    aborted = false;
    completed = false;
    ending = returned;
  }

  -- The events of the blocks that a chunk closes.
  abbrev chunk_events : Text → Text → List BatchStreamEvent
  chunk_events b t = parse_segments decode (without_last (segments_of b t))

  consume-chunk :
      (b t : Text) (reads : List Read)
      → any is_done (chunk_events b t) ≡ false
      → consume_sse_stream decode batch_id false false b (read false (chunk t) ∷ reads) ≡ (
          let next =
            consume_sse_stream decode batch_id false false
              (last_or_empty (segments_of b t))
              reads in
          record next { effects = on_events (chunk_events b t) ++ next.effects })
  unfolding consume_sse_stream
  consume-chunk b t reads no_done =
      ap
        (λ d.
          let next =
            consume_sse_stream decode batch_id d d (last_or_empty (segments_of b t)) reads in
          record next { effects = on_events (chunk_events b t) ++ next.effects })
        no_done

  events_of-append :
      (b t rest : Text)
      → events_of decode (b ++ (t ++ rest))
        ≡ chunk_events b t ++ events_of decode (last_or_empty (segments_of b t) ++ rest)
  events_of-append b t rest =
      ap (parse_segments decode) (closed_blocks-append b t rest)
      ∙ parse_segments-append decode (without_last (segments_of b t)) _

  consume-events :
      (chunks : List Text) (b : Text)
      → NoReturn b
      → split_blank b ≡ b ∷ []
      → any is_done (events_of decode (b ++ concat chunks)) ≡ false
      → consume_sse_stream decode batch_id false false b (reads_of chunks)
        ≡ delivered (events_of decode (b ++ concat chunks))
  consume-events [] b clean single no_done =
      rw (closed_blocks-open b clean single) (unfold consume_sse_stream in refl)
  consume-events (t ∷ ts) b clean single no_done =
      let left = last_or_empty (segments_of b t) in
      let now = chunk_events b t in
      let later = events_of decode (left ++ concat ts) in
      let all_events = events_of-append b t (concat ts) in
      let none_done : (any is_done now || any is_done later) ≡ false =
        sym (any-append is_done now later) ∙ sym (ap (any is_done) all_events) ∙ no_done in
      let open_part = segments-open b t in
      consume-chunk b t (reads_of ts)
        (or-false_left (any is_done now) (any is_done later) none_done)
      ∙ ap (λ (n : Consumed). record n { effects = on_events now ++ n.effects })
          (consume-events ts left open_part.0 open_part.1
            (or-false_right (any is_done now) (any is_done later) none_done))
      ∙ ap {A = List Effect} {B = Consumed}
          (λ e. record { effects = e; aborted = false; completed = false; ending = returned })
          (sym (on_events-append now later))
      ∙ ap delivered (sym all_events)

-- However a stream is cut into chunks, the hook dispatches the events of the blocks of the whole
-- text in their order, each block once, where none of them is `batch_done` and the stream then
-- ends: the dispatched actions depend only on the concatenation of the chunks, the call returns
-- and nothing is aborted.
pub consume-reassembly :
    (decode : Text → Option BatchStreamEvent) (batch_id : Text) (chunks : List Text)
    → any is_done (events_of decode (concat chunks)) ≡ false
    → consume_sse_stream decode batch_id false false [] (reads_of chunks)
      ≡ delivered decode batch_id (events_of decode (concat chunks))
consume-reassembly decode batch_id chunks no_done =
    consume-events decode batch_id chunks [] tt (unfold split_blank in refl) no_done
