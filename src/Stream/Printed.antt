-- ===== src/Stream/Printed.antt =====
-- useBatchStream.ts against the format of the server, apps/backend/internal/batch/handler.go, which
-- writes an event as `event: <type>\ndata: <JSON>\n\n`.
pub mod Delivery
use flash_pay.Prelude.{
  ℕ, Text, text, ◌≡◌, refl, ap, sym, ◌∙◌, Bool, true, false, ◌&&◌, not, Bool-cases, inl, inr,
  Option, none, some, List, [], ◌∷◌, ◌++◌, ◌==◌, if◌then◌else◌, All, All-append, any, all,
  is_nonempty, is_space, trim, trim_start, trim_end, starts_with, split_at, join, cons_first,
  text_eq, text_eq_self, drop, arith,
}
use mathlib.Core.List.{append_assoc, append-nil}
use flash_pay.Batch.{BatchStreamEvent, payment_updated, batch_done, event_type}
use flash_pay.Stream.Blocks.{
  Block, empty_block, remove_returns, read_trimmed_line, read_line, read_lines, read_block,
  finish_block, accept_event, parse_event_block, parse_segments, split_blank, without_last,
}
use flash_pay.Stream.Chunks.{
  NoReturn, remove_returns-append, remove_returns-fixed, Shape, whole, parted, split_blank-Shape,
}
use flash_pay.Stream.Consume.{is_done, consume_sse_stream}
use flash_pay.Stream.Reassembly.{
  concat, reads_of, closed_blocks, events_of, delivered, consume-reassembly,
}

-- Neither a line feed nor a carriage return.
abbrev pub OneLine : Text → Type 0
OneLine = All λ c. ((c == 10) ≡ false) × ((c == 13) ≡ false)

-- A text that can stand after `data: `: one line, not empty, with no white space at its ends.
pub record IsData (s : Text) : Type 0 where
  pub one_line : OneLine s
  pub nonempty : is_nonempty s ≡ true
  pub start : trim_start s ≡ s
  pub finish : trim_end s ≡ s

abbrev pub type_line : BatchStreamEvent → Text
type_line e = text "event: " ++ event_type e

abbrev pub data_line : Text → Text
data_line json = text "data: " ++ json

abbrev pub block_of : BatchStreamEvent → Text → Text
block_of e json = type_line e ++ 10 ∷ data_line json

-- What the server writes for an event, with the JSON `json`.
abbrev pub print_event : BatchStreamEvent → Text → Text
print_event e json = block_of e json ++ 10 ∷ 10 ∷ []

abbrev append_first : Text → List Text → List Text
append_first [] parts = parts
append_first (c ∷ l) parts = cons_first c (append_first l parts)

append_first-cons : (l p : Text) (parts : List Text) → append_first l (p ∷ parts) ≡ (l ++ p) ∷ parts
append_first-cons [] p parts = refl
append_first-cons (c ∷ l) p parts = ap (cons_first c) (append_first-cons l p parts)

split_blank_plain :
    (c : ℕ) (s : Text) → (c == 10) ≡ false → split_blank (c ∷ s) ≡ cons_first c (split_blank s)
unfolding split_blank
split_blank_plain c [] h = refl
split_blank_plain c (b ∷ s) h = rw (h, split_blank) refl

split_blank_line : (l y : Text) → OneLine l → split_blank (l ++ y) ≡ append_first l (split_blank y)
split_blank_line [] y h = refl
split_blank_line (c ∷ l) y (plain, h) =
    split_blank_plain c (l ++ y) plain.0 ∙ ap (cons_first c) (split_blank_line l y h)

split_blank_feed :
    (c : ℕ) (s : Text)
    → (c == 10) ≡ false
    → split_blank (10 ∷ c ∷ s) ≡ cons_first 10 (split_blank (c ∷ s))
unfolding split_blank
split_blank_feed c s h = rw (h, split_blank) refl

split_blank_end : (rest : Text) → split_blank (10 ∷ 10 ∷ rest) ≡ [] ∷ split_blank rest
unfolding split_blank
split_blank_end rest = refl

abbrev is_line_unit : ℕ → Bool
is_line_unit c = not (c == 10) && not (c == 13)

all-OneLine : (s : Text) → all is_line_unit s ≡ true → OneLine s
all-OneLine [] h = tt
all-OneLine (c ∷ s) h = ((ground arith, ground arith), all-OneLine s (ground arith))

type_line-OneLine : (e : BatchStreamEvent) → OneLine (type_line e)
type_line-OneLine (payment_updated e) = all-OneLine (type_line (payment_updated e)) refl
type_line-OneLine (batch_done e) = all-OneLine (type_line (batch_done e)) refl

data_line-OneLine : (json : Text) → OneLine json → OneLine (data_line json)
data_line-OneLine json h =
    All-append (λ c. ((c == 10) ≡ false) × ((c == 13) ≡ false)) (text "data: ") json
      (all-OneLine (text "data: ") refl) h

split_blank-block_of :
    (e : BatchStreamEvent) (json rest : Text)
    → OneLine json
    → split_blank (block_of e json ++ 10 ∷ 10 ∷ rest) ≡ block_of e json ∷ split_blank rest
split_blank-block_of e json rest h =
    let l = type_line e in
    let m = data_line json in
    let tail = m ++ 10 ∷ 10 ∷ rest in
    ap split_blank (append_assoc l (10 ∷ m) (10 ∷ 10 ∷ rest))
    ∙ split_blank_line l (10 ∷ tail) (type_line-OneLine e)
    ∙ ap (append_first l) (
        split_blank_feed 100 (text "ata: " ++ json ++ 10 ∷ 10 ∷ rest) refl
        ∙ ap (cons_first 10) (
            split_blank_line m (10 ∷ 10 ∷ rest) (data_line-OneLine json h)
            ∙ ap (append_first m) (split_blank_end rest)
            ∙ append_first-cons m [] (split_blank rest)
            ∙ ap (λ t. t ∷ split_blank rest) (append-nil m)))
    ∙ append_first-cons l (10 ∷ m) (split_blank rest)

OneLine-NoReturn : (s : Text) → OneLine s → NoReturn s
OneLine-NoReturn [] h = tt
OneLine-NoReturn (c ∷ s) (plain, h) = (plain.1, OneLine-NoReturn s h)

block_of-NoReturn : (e : BatchStreamEvent) (json : Text) → OneLine json → NoReturn (block_of e json)
block_of-NoReturn e json h =
    All-append (λ c. (c == 13) ≡ false) (type_line e) (10 ∷ data_line json)
      (OneLine-NoReturn (type_line e) (type_line-OneLine e))
      (refl, OneLine-NoReturn (data_line json) (data_line-OneLine json h))

print_event-NoReturn :
    (e : BatchStreamEvent) (json : Text) → OneLine json → NoReturn (print_event e json)
print_event-NoReturn e json h =
    All-append (λ c. (c == 13) ≡ false) (block_of e json) (10 ∷ 10 ∷ [])
      (block_of-NoReturn e json h) (refl, (refl, tt))

without_last-cons :
    (b r : Text) → without_last (b ∷ split_blank r) ≡ b ∷ without_last (split_blank r)
without_last-cons b r = elim (split_blank-Shape r) [
  | whole e ↦ rw (e) refl
  | parted p q rest e ↦ rw (e) refl
]

-- A printed event is one closed block.
pub closed_blocks-print_event :
    (e : BatchStreamEvent) (json rest : Text)
    → OneLine json
    → closed_blocks (print_event e json ++ rest) ≡ block_of e json ∷ closed_blocks rest
closed_blocks-print_event e json rest h =
    ap (λ s. without_last (split_blank s))
      (remove_returns-append (print_event e json) rest
        ∙ ap (λ s. s ++ remove_returns rest)
            (remove_returns-fixed (print_event e json) (print_event-NoReturn e json h))
        ∙ append_assoc (block_of e json) (10 ∷ 10 ∷ []) (remove_returns rest))
    ∙ ap without_last (split_blank-block_of e json (remove_returns rest) h)
    ∙ without_last-cons (block_of e json) (remove_returns rest)
