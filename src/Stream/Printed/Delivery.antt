-- ===== src/Stream/Printed/Delivery.antt =====
-- useBatchStream.ts: the events that the server prints and those that the hook receives.
use flash_pay.Prelude.{
  Text, text, ◌≡◌, refl, ap, sym, ◌∙◌, Bool, true, false, ◌&&◌, not, Option, none, some, List, [],
  ◌∷◌, ◌++◌, if◌then◌else◌, All, any, is_nonempty, is_space, trim, trim_start, trim_end,
  starts_with, split_at, join, cons_first, text_eq_self,
}
use mathlib.Core.List.{append-nil}
use flash_pay.Batch.{BatchStreamEvent, payment_updated, batch_done, event_type}
use flash_pay.Stream.Blocks.{
  Block, empty_block, remove_returns, read_trimmed_line, read_line, read_lines, read_block,
  finish_block, accept_event, parse_event_block, parse_segments, split_blank,
}
use flash_pay.Stream.Chunks.{remove_returns-fixed}
use flash_pay.Stream.Consume.{is_done, consume_sse_stream}
use flash_pay.Stream.Printed.{
  OneLine, IsData, type_line, data_line, block_of, print_event, append_first, append_first-cons,
  type_line-OneLine, data_line-OneLine, block_of-NoReturn, closed_blocks-print_event,
}
use flash_pay.Stream.Reassembly.{
  concat, reads_of, closed_blocks, events_of, delivered, consume-reassembly,
}

split_at_line : (l y : Text) → OneLine l → split_at 10 (l ++ y) ≡ append_first l (split_at 10 y)
unfolding split_at
split_at_line [] y h = refl
split_at_line (c ∷ l) y (plain, h) =
    rw (plain.0, split_at) (ap (cons_first c) (split_at_line l y h))

split_at-feed : (y : Text) → split_at 10 (10 ∷ y) ≡ [] ∷ split_at 10 y
unfolding split_at
split_at-feed y = refl

split_at-nil : split_at 10 [] ≡ [] ∷ []
unfolding split_at
split_at-nil = refl

split_at_whole : (l : Text) → OneLine l → split_at 10 l ≡ l ∷ []
split_at_whole l h =
    ap (split_at 10) (sym (append-nil l))
    ∙ split_at_line l [] h
    ∙ ap (append_first l) split_at-nil
    ∙ append_first-cons l [] []
    ∙ ap (λ t. t ∷ []) (append-nil l)

pub split_at-block_of :
    (e : BatchStreamEvent) (json : Text)
    → OneLine json
    → split_at 10 (block_of e json) ≡ type_line e ∷ data_line json ∷ []
split_at-block_of e json h =
    split_at_line (type_line e) (10 ∷ data_line json) (type_line-OneLine e)
    ∙ ap (append_first (type_line e)) (split_at-feed (data_line json))
    ∙ append_first-cons (type_line e) [] (split_at 10 (data_line json))
    ∙ ap (λ t. t ∷ split_at 10 (data_line json)) (append-nil (type_line e))
    ∙ ap (λ l. type_line e ∷ l) (split_at_whole (data_line json) (data_line-OneLine json h))

and_false : (b : Bool) → (b && false) ≡ false
and_false true = refl
and_false false = refl

-- The white space before a text that has none at its end stays.
trim_end-append :
    (p s : Text)
    → is_nonempty s ≡ true
    → trim_end s ≡ s
    → is_nonempty (trim_end (p ++ s)) ≡ true × (trim_end (p ++ s) ≡ p ++ s)
unfolding trim_end
trim_end-append [] s given fixed = (rw (fixed) given, fixed)
trim_end-append (c ∷ p) s given fixed =
    let (ne, eq) = trim_end-append p s given fixed in
    rw (ne, and_false (is_space c)) (refl, ap (λ t. c ∷ t) eq)

read_type_line :
    (e : BatchStreamEvent)
    → read_line empty_block (type_line e) ≡ record { event_name = event_type e; data_lines = [] }
unfolding read_line read_trimmed_line trim_end is_space starts_with trim
read_type_line (payment_updated e) = refl
read_type_line (batch_done e) = refl

read_trimmed_data_line :
    (b : Block) (json : Text)
    → trim_start json ≡ json
    → read_trimmed_line b (data_line json) ≡ record b { data_lines = b.data_lines ++ json ∷ [] }
unfolding read_trimmed_line starts_with trim_start is_space
read_trimmed_data_line b json start = rw (start) refl

read_block-block_of :
    (e : BatchStreamEvent) (json : Text)
    → IsData json
    → read_block (block_of e json) ≡ record { event_name = event_type e; data_lines = json ∷ [] }
unfolding read_block read_lines read_line
read_block-block_of e json d =
    let b : Block = record { event_name = event_type e; data_lines = [] } in
    ap (λ t. read_lines empty_block (split_at 10 t))
      (remove_returns-fixed (block_of e json) (block_of-NoReturn e json d.one_line))
    ∙ ap (read_lines empty_block) (split_at-block_of e json d.one_line)
    ∙ ap (λ c. read_line c (data_line json)) (read_type_line e)
    ∙ ap (read_trimmed_line b) (trim_end-append (text "data: ") json d.nonempty d.finish).1
    ∙ read_trimmed_data_line b json d.start

module _ (decode : Text → Option BatchStreamEvent) where
  abbrev finish_of : Block → Option BatchStreamEvent
  finish_of b =
      if not (is_nonempty b.event_name) then none else finish_block decode b.event_name b.data_lines

  finish_of_event :
      (e : BatchStreamEvent) (json : Text)
      → decode json ≡ some e
      → finish_of (record { event_name = event_type e; data_lines = json ∷ [] }) ≡ some e
  unfolding finish_block accept_event join
  finish_of_event (payment_updated e) json reads =
      rw (reads, text_eq_self (event_type (payment_updated e))) refl
  finish_of_event (batch_done e) json reads =
      rw (reads, text_eq_self (event_type (batch_done e))) refl

  pub parse_event_block-block_of :
      (e : BatchStreamEvent) (json : Text)
      → IsData json
      → decode json ≡ some e
      → parse_event_block decode (block_of e json) ≡ some e
  unfolding parse_event_block
  parse_event_block-block_of e json d reads =
      ap finish_of (read_block-block_of e json d) ∙ finish_of_event e json reads

pub nothing_closed : closed_blocks [] ≡ []
unfolding split_blank remove_returns
nothing_closed = refl

-- The text of the events, with the JSON that `encode` gives for each.
abbrev pub print_events : (BatchStreamEvent → Text) → List BatchStreamEvent → Text
print_events encode [] = []
print_events encode (e ∷ events) = print_event e (encode e) ++ print_events encode events

-- The JSON of an event can stand in a line of the stream and is read back.
abbrev pub IsEncoded :
    (Text → Option BatchStreamEvent) → (BatchStreamEvent → Text) → BatchStreamEvent → Type 0
IsEncoded decode encode e = IsData (encode e) × (decode (encode e) ≡ some e)

module _ (decode : Text → Option BatchStreamEvent) (encode : BatchStreamEvent → Text) where
  events_of-print_events :
      (events : List BatchStreamEvent)
      → All (IsEncoded decode encode) events
      → events_of decode (print_events encode events) ≡ events
  unfolding parse_segments
  events_of-print_events [] h = ap (parse_segments decode) nothing_closed
  events_of-print_events (e ∷ events) ((d, reads), h) =
      ap (parse_segments decode)
        (closed_blocks-print_event e (encode e) (print_events encode events) d.one_line)
      ∙ rw (parse_event_block-block_of decode e (encode e) d reads, parse_segments)
          (ap (λ l. e ∷ l) (events_of-print_events events h))

  -- Where the server prints the events, each with a JSON that stands in one line and is read
  -- back, and the network cuts their text into chunks in any way, the hook dispatches exactly
  -- these events, in their order, if none of them is `batch_done` and the stream then ends.
  pub consume-print_events :
      (batch_id : Text) (events : List BatchStreamEvent) (chunks : List Text)
      → All (IsEncoded decode encode) events
      → concat chunks ≡ print_events encode events
      → any is_done events ≡ false
      → consume_sse_stream decode batch_id false false [] (reads_of chunks)
        ≡ delivered decode batch_id events
  consume-print_events batch_id events chunks encoded sent no_done =
      let received : events_of decode (concat chunks) ≡ events =
        ap (events_of decode) sent ∙ events_of-print_events events encoded in
      consume-reassembly decode batch_id chunks (ap (any is_done) received ∙ no_done)
      ∙ ap (delivered decode batch_id) received
