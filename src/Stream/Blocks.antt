-- ===== src/Stream/Blocks.antt =====
-- useBatchStream.ts: `parseEventBlock`, and the splitting of the received text into blocks.
use flash_pay.Prelude.{
  Text, text, true, false, ◌&&◌, not, Option, none, some, List, [], ◌∷◌, ◌++◌, ◌==◌, if◌then◌else◌,
  keep, drop, is_nonempty, text_eq, trim, trim_start, trim_end, starts_with, split_at, join,
  cons_first,
}
use flash_pay.Batch.{BatchStreamEvent, event_type}

-- `s.replace(/\r/g, '')`
unfoldable pub remove_returns : Text → Text
remove_returns = keep λ c. not (c == 13)

-- `eventName` and `dataLines`.
pub record Block : Type 0 where
  pub event_name : Text
  pub data_lines : List Text

abbrev pub event_prefix : Text
event_prefix = text "event:"

abbrev pub data_prefix : Text
data_prefix = text "data:"

-- A line of a block, its white space at the end removed.
unfoldable pub read_trimmed_line : Block → Text → Block
read_trimmed_line b line =
    if not (is_nonempty line)
    then b
    else if starts_with line (text ":")
    then b
    else if starts_with line event_prefix
    then record b { event_name = trim (drop 6 line) }
    else if starts_with line data_prefix
    then record b { data_lines = b.data_lines ++ trim_start (drop 5 line) ∷ [] }
    else b

unfoldable pub read_line : Block → Text → Block
unfolding read_trimmed_line
read_line b raw = read_trimmed_line b (trim_end raw)

unfoldable pub read_lines : Block → List Text → Block
unfolding read_line
read_lines b [] = b
read_lines b (line ∷ lines) = read_lines (read_line b line) lines

abbrev pub empty_block : Block
empty_block = record { event_name = []; data_lines = [] }

unfoldable pub read_block : Text → Block
unfolding read_lines remove_returns split_at
read_block block = read_lines empty_block (split_at 10 (remove_returns block))

-- `decode` is `JSON.parse` with the cast to `BatchStreamEvent`; `none` where it throws.
module _ (decode : Text → Option BatchStreamEvent) where
  unfoldable pub accept_event : Text → Option BatchStreamEvent → Option BatchStreamEvent
  accept_event name none = none
  accept_event name (some parsed) = if text_eq (event_type parsed) name then some parsed else none

  unfoldable pub finish_block : Text → List Text → Option BatchStreamEvent
  unfolding accept_event
  finish_block name [] = none
  finish_block name (l ∷ ls) = accept_event name (decode (join (text "\n") (l ∷ ls)))

  unfoldable pub parse_event_block : Text → Option BatchStreamEvent
  unfolding finish_block read_block
  parse_event_block block =
      let b = read_block block in
      if not (is_nonempty b.event_name) then none else finish_block b.event_name b.data_lines

  -- The events of a list of segments, those that do not parse left out.
  unfoldable pub parse_segments : List Text → List BatchStreamEvent
  unfolding parse_event_block
  parse_segments [] = []
  parse_segments (s ∷ rest) = elim (parse_event_block s) [
    | none ↦ parse_segments rest
    | some event ↦ event ∷ parse_segments rest
  ]

-- `s.split('\n\n')`
unfoldable pub split_blank : Text → List Text
split_blank [] = [] ∷ []
split_blank (a ∷ []) = (a ∷ []) ∷ []
split_blank (a ∷ b ∷ s) = elim ((a == 10) && (b == 10)) [
  | true ↦ [] ∷ split_blank s
  | false ↦ cons_first a (split_blank (b ∷ s))
]

-- What `segments.pop()` returns, and what it leaves.
abbrev pub last_or_empty : List Text → Text
last_or_empty [] = []
last_or_empty (s ∷ []) = s
last_or_empty (s ∷ t ∷ rest) = last_or_empty (t ∷ rest)

abbrev pub without_last : List Text → List Text
without_last [] = []
without_last (s ∷ []) = []
without_last (s ∷ t ∷ rest) = s ∷ without_last (t ∷ rest)

-- The buffer after a chunk, cut at its blank lines.
unfoldable pub segments_of : Text → Text → List Text
unfolding split_blank remove_returns
segments_of buffer chunk = split_blank (remove_returns (buffer ++ chunk))
