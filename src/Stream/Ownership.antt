-- ===== src/Stream/Ownership.antt =====
-- useBatchStream.ts: the batch that parsed events are about.
use flash_pay.Prelude.{
  Text, ◌≡◌, Bool-cases, Option, Option-cases, none, some, inl, inr, List, [], ◌∷◌, join, text,
  is_nonempty, arith,
}
use flash_pay.Batch.{BatchStreamEvent, event_batch_id}
use flash_pay.Stream.Blocks.{
  parse_segments, parse_event_block, finish_block, read_block, accept_event,
}
use flash_pay.Stream.Closing.{AllOwn}

-- Where the server sends the events of the batch alone, the parsed ones are about it.
module _ (decode : Text → Option BatchStreamEvent) (batch_id : Text)
    (own : (t : Text) (e : BatchStreamEvent)
      → decode t ≡ some e
      → event_batch_id e ≡ batch_id) where
  accept_event-own :
      (name : Text) (o : Option BatchStreamEvent) (e : BatchStreamEvent)
      → accept_event decode name o ≡ some e
      → o ≡ some e
  unfolding accept_event
  accept_event-own name none e h = cc
  accept_event-own name (some parsed) e h = ground arith

  finish_block-own :
      (name : Text) (lines : List Text) (e : BatchStreamEvent)
      → finish_block decode name lines ≡ some e
      → event_batch_id e ≡ batch_id
  unfolding finish_block
  finish_block-own name [] e h = cc
  finish_block-own name (l ∷ ls) e h =
      own (join (text "\n") (l ∷ ls)) e
        (accept_event-own name (decode (join (text "\n") (l ∷ ls))) e h)

  parse_event_block-own :
      (block : Text) (e : BatchStreamEvent)
      → parse_event_block decode block ≡ some e
      → event_batch_id e ≡ batch_id
  unfolding parse_event_block
  parse_event_block-own block e h =
      let b = read_block block in
      elim (Bool-cases (is_nonempty b.event_name)) [
        | inl named ↦
            finish_block-own b.event_name b.data_lines e (rw (named, parse_event_block) at h)
        | inr unnamed ↦ cc (rw (unnamed, parse_event_block) at h)
      ]

  pub parse_segments-own : (segments : List Text) → AllOwn batch_id (parse_segments decode segments)
  unfolding parse_segments
  parse_segments-own [] = tt
  parse_segments-own (s ∷ rest) = elim (Option-cases (parse_event_block decode s)) [
    | inl skipped ↦ rw (skipped, parse_segments) (parse_segments-own rest)
    | inr (e, parsed) ↦
        rw (parsed, parse_segments) (parse_event_block-own s e parsed, parse_segments-own rest)
  ]
