-- ===== src/Export/Card/Laws.antt =====
-- BatchProgressCard.tsx: the payments that the card lists.
use flash_pay.Prelude.{
  Map, Option-cases, sym, not, is_some, is_nonempty, ℕ, Text, text, ◌≡◌, refl, ap, ◌∙◌, Bool, true,
  false, ◌&&◌, Option, none, some, List, [], ◌∷◌, ◌++◌, map, if◌then◌else◌, text_eq, any, keep, ltb,
  length, arith, inl, inr,
}
use mathlib.Core.List.{append_assoc, append-nil}
use flash_pay.Prelude.Html.Skipped.{after_skipped, Skips, Skips-when, Skips-if_present}
use flash_pay.Prelude.Html.{
  Value, classed, say, string, element, when, if_present, truthy, close_tag, content, Html,
}
use flash_pay.Batch.{
  BatchPaymentStatus, same_status, BatchStatusCount, failed, pending, processing, success,
  BatchPayment, BatchDetail,
}
use flash_pay.Export.{is_failed, failed_payments, visible_payments}
use flash_pay.Details.{BatchProgressState, BatchStreamState}
use flash_pay.Export.Card.{
  CardProps, meta, admin_tools, detail_part, any_detail_part, batch_progress_card, payment_list,
  no_failed_message, no_payments_message,
}
use flash_pay.Export.Card.Parts.{
  progress_panel, counters, counter, stream_summary, format_date_time,
}
use flash_pay.Export.Card.Rows.{outside, at_row, after_open, read_rows, first_cells, ids_of, listed}

abbrev is_failure : BatchPaymentStatus → Bool
is_failure failed = true
is_failure _ = false

-- The payments that an administrator filters by, or all of them.
abbrev pub payments_for : Bool → Bool → Option BatchDetail → List BatchPayment
payments_for _ _ none = []
payments_for true true (some d) = keep (λ p. is_failure p.status) d.payments
payments_for _ _ (some d) = d.payments

same_failed : (s : BatchPaymentStatus) → same_status s failed ≡ is_failure s
same_failed pending = refl
same_failed processing = refl
same_failed success = refl
same_failed failed = refl

keep-failed : (ps : List BatchPayment) → keep is_failed ps ≡ keep (λ p. is_failure p.status) ps
keep-failed [] = refl
keep-failed (p ∷ ps) = rw (same_failed p.status, keep-failed ps) refl

visible_lem :
    (admin_view show_only_failed : Bool) (detail : Option BatchDetail)
    → visible_payments admin_view show_only_failed detail
      ≡ payments_for admin_view show_only_failed detail
unfolding visible_payments failed_payments
visible_lem false show_only_failed none = refl
visible_lem true false none = refl
visible_lem true true none = refl
visible_lem false show_only_failed (some d) = refl
visible_lem true false (some d) = refl
visible_lem true true (some d) = keep-failed d.payments

abbrev IsSkipped : Html → Type 0
IsSkipped = Skips (read_rows outside)

IsSkipped-element :
    (tag : Text) (attributes : Map Value) (children : Html)
    → text_eq tag (text "tr") ≡ false
    → IsSkipped children
    → IsSkipped (element tag attributes children)
unfolding read_rows after_open
IsSkipped-element tag attributes children plain skipped rest =
    ap (λ b. read_rows (if b then at_row else outside) ((children ++ close_tag ∷ []) ++ rest)) plain
    ∙ ap (read_rows outside) (append_assoc children (close_tag ∷ []) rest)
    ∙ skipped (close_tag ∷ rest)

IsSkipped-meta : (t : Text) → IsSkipped (meta t)
unfolding read_rows
IsSkipped-meta t rest = refl

IsSkipped-progress_panel : (p : BatchProgressState) → IsSkipped (progress_panel p)
unfolding read_rows progress_panel
IsSkipped-progress_panel p rest = refl

IsSkipped-admin_tools : (show has : Bool) → IsSkipped (admin_tools show has)
unfolding read_rows
IsSkipped-admin_tools show has rest = refl

IsSkipped-counters : (total : ℕ) (c : BatchStatusCount) → IsSkipped (counters total c)
unfolding read_rows counters counter
IsSkipped-counters total c rest = refl

IsSkipped-stream_summary :
    (format : Text → Text) (s : BatchStreamState) → IsSkipped (stream_summary format s)
unfolding read_rows stream_summary
IsSkipped-stream_summary format s rest =
    elim (Option-cases (truthy (format_date_time format s.last_event_at))) [
      | inl never ↦ rw never refl
      | inr (t, updated) ↦ rw updated refl
    ]

abbrev file_part : Text → Html
file_part name =
    element (text "p") (classed (text "upload-meta"))
      (element (text "strong") [] (say (text "Arquivo:")) ++ say (text " ") ++ say name)

IsSkipped-file_part : (name : Text) → IsSkipped (file_part name)
unfolding read_rows
IsSkipped-file_part name rest = refl

read_rows-detail_part :
    (p : CardProps) (show_only_failed : Bool) (d : BatchDetail) (rest : Html)
    → read_rows outside (detail_part p show_only_failed d ++ rest)
      ≡ ids_of (visible_payments p.admin_view show_only_failed p.detail) ++ read_rows outside rest
unfolding detail_part
read_rows-detail_part p show_only_failed d rest =
    let visible = visible_payments p.admin_view show_only_failed p.detail in
    let list = payment_list p.admin_view show_only_failed visible in
    let counts = counters d.total_payments d.status_count in
    let last_error = if_present (truthy p.stream.last_error) meta in
    let all_tools = admin_tools show_only_failed (ltb 0 (length (failed_payments p.detail))) in
    let tools = when p.admin_view all_tools in
    let panel = progress_panel p.progress in
    after_skipped (read_rows outside) (file_part d.file_name)
      (panel ++ (tools ++ (last_error ++ (counts ++ list)))) rest (IsSkipped-file_part d.file_name)
      (after_skipped (read_rows outside) panel (tools ++ (last_error ++ (counts ++ list))) rest
        (IsSkipped-progress_panel p.progress)
        (after_skipped (read_rows outside) tools (last_error ++ (counts ++ list)) rest
          (Skips-when (read_rows outside) p.admin_view all_tools
            (IsSkipped-admin_tools show_only_failed (ltb 0 (length (failed_payments p.detail)))))
          (after_skipped (read_rows outside) last_error (counts ++ list) rest
            (Skips-if_present (read_rows outside) (truthy p.stream.last_error) meta IsSkipped-meta)
            (after_skipped (read_rows outside) counts list rest
              (IsSkipped-counters d.total_payments d.status_count)
              (listed p.admin_view show_only_failed visible rest)))))

read_rows-any_detail_part :
    (p : CardProps) (show_only_failed : Bool) (detail : Option BatchDetail) (rest : Html)
    → detail ≡ p.detail
    → read_rows outside (any_detail_part p show_only_failed detail ++ rest)
      ≡ ids_of (payments_for p.admin_view show_only_failed detail) ++ read_rows outside rest
unfolding any_detail_part ids_of
read_rows-any_detail_part p show_only_failed none rest e = refl
read_rows-any_detail_part p show_only_failed (some d) rest e =
    read_rows-detail_part p show_only_failed d rest
    ∙ ap (λ ps. ids_of ps ++ read_rows outside rest)
        (visible_lem p.admin_view show_only_failed p.detail
          ∙ ap (payments_for p.admin_view show_only_failed) (sym e))

abbrev header_part : (Text → Text) → CardProps → Html
header_part format p = element (text "div") (classed (text "card-header")) (
    element (text "div") [] (
      element (text "p") (classed (text "section-kicker")) (say (text "Lote atual"))
      ++ element (text "h2") []
          (say (if is_nonempty p.batch_id then p.batch_id else text "sem-id")))
    ++ stream_summary format p.stream)

IsSkipped-header_part : (format : Text → Text) (p : CardProps) → IsSkipped (header_part format p)
unfolding read_rows
IsSkipped-header_part format p rest =
    ap (read_rows outside) (append_assoc (stream_summary format p.stream) (close_tag ∷ []) rest)
    ∙ IsSkipped-stream_summary format p.stream (close_tag ∷ rest)

abbrev card_alert : Text → Html
card_alert message =
    element (text "p")
      ((text "class", string (text "submit-error")) ∷ (text "role", string (text "alert")) ∷ [])
      (say message)

IsSkipped-card_alert : (message : Text) → IsSkipped (card_alert message)
unfolding read_rows
IsSkipped-card_alert message rest = refl

-- The card has a row for each payment of its batch, in their order, and no other row; where an
-- administrator has turned the filter on, for each payment that has failed. Without a batch it has
-- none.
pub first_cells-batch_progress_card :
    (format : Text → Text) (p : CardProps) (show_only_failed : Bool)
    → first_cells (batch_progress_card format p show_only_failed)
      ≡ map (λ q. q.id) (payments_for p.admin_view show_only_failed p.detail)
unfolding first_cells batch_progress_card read_rows ids_of
first_cells-batch_progress_card format p show_only_failed =
    let detail = any_detail_part p show_only_failed p.detail in
    let loading =
      when (p.is_loading && not (is_some p.detail)) (meta (text "Carregando lote...")) in
    let alert = if_present (truthy p.error_message) card_alert in
    after_skipped (read_rows outside) (header_part format p) (alert ++ (loading ++ detail))
      (close_tag ∷ []) (IsSkipped-header_part format p)
      (after_skipped (read_rows outside) alert (loading ++ detail) (close_tag ∷ [])
        (Skips-if_present (read_rows outside) (truthy p.error_message) card_alert
          IsSkipped-card_alert)
        (after_skipped (read_rows outside) loading detail (close_tag ∷ [])
          (Skips-when (read_rows outside) (p.is_loading && not (is_some p.detail))
            (meta (text "Carregando lote...")) (IsSkipped-meta (text "Carregando lote...")))
          (read_rows-any_detail_part p show_only_failed p.detail (close_tag ∷ []) refl
            ∙ append-nil (ids_of (payments_for p.admin_view show_only_failed p.detail)))))

abbrev pub contents : Html → List Text
contents [] = []
contents (content t ∷ html) = t ∷ contents html
contents (_ ∷ html) = contents html

keep-none : {A : Type 0} (p : A → Bool) (xs : List A) → any p xs ≡ false → keep p xs ≡ []
keep-none p [] h = refl
keep-none p (x ∷ xs) h = ground (arith, keep-none p xs)

-- With the filter on, a batch whose payments are loaded, none of them failed, is shown with both
-- messages, that there is no payment with an error and that no payment is loaded.
pub payment_list-contradiction :
    (d : BatchDetail)
    → any is_failed d.payments ≡ false
    → contents (payment_list true true (visible_payments true true (some d)))
      ≡ no_failed_message ∷ no_payments_message ∷ []
unfolding visible_payments failed_payments payment_list
payment_list-contradiction d none_failed = rw (keep-none is_failed d.payments none_failed) refl
