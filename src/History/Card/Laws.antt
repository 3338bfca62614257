-- ===== src/History/Card/Laws.antt =====
-- BatchHistoryCard.tsx: which batches the card shows a progress for, and which one.
use mathlib.Core.Path.{subst}
use flash_pay.Prelude.{
  ℕ, suc, lt→ltb, ◌+◌, ◌*◌, ◌^◌, ◌≤◌, ◌<◌, Text, text, ◌≡◌, ◌≢◌, refl, ap, sym, ◌∙◌, Bool, true,
  false, ◌&&◌, not, Bool-cases, inl, inr, Option, some, List, [], ◌∷◌, ◌++◌, ltb, ◌==◌, length,
  is_some, if◌then◌else◌, text_eq, lookup, All, arith,
}
use mathlib.Core.List.{append_assoc}
use flash_pay.Prelude.Html.{
  Value, number, string, open_tag, close_tag, Html, element, say, when, truthy, if_present, each,
  classed,
}
use flash_pay.Prelude.Html.Skipped.{after_skipped, Skips, Skips-when, Skips-if_present}
use flash_pay.Batch.{BatchSummary}
use flash_pay.Details.{percent_of}
use flash_pay.Details.Progress.{percent_of-le}
use flash_pay.Details.Precision.{percent_of-near}
use flash_pay.History.{
  get_completed_payments, get_progress_percent, running, get_batch_status_label,
}
use flash_pay.History.Card.{history_item, batch_history_card}

abbrev number_value : Option Value → List ℕ
number_value (some (number n)) = n ∷ []
number_value _ = []

-- The values of the progress bars of a document.
unfoldable pub progress_values : Html → List ℕ
unfolding lookup text_eq
progress_values [] = []
progress_values (open_tag tag attributes ∷ html) =
    number_value (lookup (text "aria-valuenow") attributes) ++ progress_values html
progress_values (_ ∷ html) = progress_values html

abbrev IsPlain : Html → Type 0
IsPlain = Skips progress_values

-- The counts add up to fewer than 2 ^ 53 payments.
abbrev pub Adds : BatchSummary → Type 0
Adds b =
    (b.status_count.pending + b.status_count.processing + b.status_count.success
        + b.status_count.failed
      ≡ b.total_payments)
    × (b.total_payments < 2 ^ 53)

-- The percentage is less than 1 off that of the payments that are completed, and at most 100.
abbrev pub IsPercent : BatchSummary → ℕ → Type 0
IsPercent b n =
    let c = b.status_count.success + b.status_count.failed in
    (n ≤ 100)
    × (n * b.total_payments < 100 * c + b.total_payments)
    × (100 * c < n * b.total_payments + b.total_payments)

-- The progress bars of a list of batches.
pub data AreMeters : List BatchSummary → List ℕ → Type 0 where
  no_batch : AreMeters [] []
  shown :
      {b : BatchSummary} {batches : List BatchSummary} {n : ℕ} {values : List ℕ}
      → get_batch_status_label b ≡ running
      → IsPercent b n
      → AreMeters batches values
      → AreMeters (b ∷ batches) (n ∷ values)
  hidden :
      {b : BatchSummary} {batches : List BatchSummary} {values : List ℕ}
      → get_batch_status_label b ≢ running
      → AreMeters batches values
      → AreMeters (b ∷ batches) values

values-item :
    (format : Text → Text) (b : BatchSummary) (rest : Html)
    → progress_values (history_item format b ++ rest) ≡ (
        if ltb 0 b.status_count.processing
        then get_progress_percent b ∷ progress_values rest
        else progress_values rest)
unfolding progress_values history_item
values-item format b rest = elim (Bool-cases (ltb 0 b.status_count.processing)) [
  | inl busy ↦ rw (busy) refl
  | inr idle ↦ rw (idle) refl
]

running_label :
    (b : BatchSummary) → ltb 0 b.status_count.processing ≡ true → get_batch_status_label b ≡ running
unfolding get_batch_status_label
running_label b h = rw (h) refl

other_label :
    (b : BatchSummary)
    → ltb 0 b.status_count.processing ≡ false
    → get_batch_status_label b ≢ running
unfolding get_batch_status_label
other_label b h = ground arith

percent_lem :
    (b : BatchSummary)
    → Adds b
    → ltb 0 b.status_count.processing ≡ true
    → IsPercent b (get_progress_percent b)
unfolding get_progress_percent get_completed_payments
percent_lem b (adds, small) busy =
    let completed = b.status_count.success + b.status_count.failed in
    let some_total : 0 < b.total_payments = ground arith in
    let near = percent_of-near b.total_payments completed some_total (omega arith) small in
    unfold percent_of in (percent_of-le b.total_payments completed, near.0, near.1)

AreMeters-each :
    (format : Text → Text) (batches : List BatchSummary) (rest : Html)
    → All Adds batches
    → progress_values rest ≡ []
    → AreMeters batches (progress_values (each (history_item format) batches ++ rest))
AreMeters-each format [] rest h e = rw (e) no_batch
AreMeters-each format (b ∷ batches) rest (adds, h) e =
    let more = each (history_item format) batches ++ rest in
    let others = AreMeters-each format batches rest h e in
    subst (AreMeters (b ∷ batches))
      (sym (
        ap progress_values
          (append_assoc (history_item format b) (each (history_item format) batches) rest)
        ∙ values-item format b more))
      (elim (Bool-cases (ltb 0 b.status_count.processing)) [
        | inl busy ↦ rw (busy) (shown (running_label b busy) (percent_lem b adds busy) others)
        | inr idle ↦ rw (idle) (hidden (other_label b idle) others)
      ])

abbrev heading : Bool → Html
heading is_refreshed = element (text "div") (classed (text "card-header")) (
    element (text "div") [] (
      element (text "p") (classed (text "section-kicker")) (say (text "Historico"))
      ++ element (text "h2") [] (say (text "Lotes recentes")))
    ++ when is_refreshed
        (element (text "p") (classed (text "batch-history-refresh")) (say (text "Atualizando..."))))

IsPlain-heading : (is_refreshed : Bool) → IsPlain (heading is_refreshed)
unfolding progress_values
IsPlain-heading true rest = refl
IsPlain-heading false rest = refl

abbrev alert : Text → Html
alert message =
    element (text "p")
      ((text "class", string (text "submit-error")) ∷ (text "role", string (text "alert")) ∷ [])
      (say message)

IsPlain-alert : (message : Text) → IsPlain (alert message)
unfolding progress_values
IsPlain-alert message rest = refl

abbrev note : Text → Text → Html
note class t = element (text "p") (classed class) (say t)

IsPlain-note : (class t : Text) → IsPlain (note class t)
unfolding progress_values
IsPlain-note class t rest = refl

abbrev list_part : (Text → Text) → List BatchSummary → Html
list_part format batches =
    when (ltb 0 (length batches)) (
      element (text "ul") (classed (text "batch-history-list"))
        (each (history_item format) batches))

not_empty : (n : ℕ) → ltb 0 (suc n) ≡ true
not_empty n = lt→ltb 0 (suc n) (omega arith)

AreMeters-list_part :
    (format : Text → Text) (batches : List BatchSummary)
    → All Adds batches
    → AreMeters batches (progress_values (list_part format batches ++ close_tag ∷ []))
unfolding progress_values
AreMeters-list_part format [] h = no_batch
AreMeters-list_part format (b ∷ batches) h =
    let items = each (history_item format) (b ∷ batches) in
    rw (not_empty (length batches)) (
      subst (λ d. AreMeters (b ∷ batches) (progress_values d))
        (sym (append_assoc items (close_tag ∷ []) (close_tag ∷ [])))
        (AreMeters-each format (b ∷ batches) (close_tag ∷ close_tag ∷ []) h refl))

-- Where the counts of each batch add up to its payments, fewer than 2 ^ 53 of them, the card has a
-- progress bar for each batch that it labels as being processed, in their order, and for no other.
-- The value of a bar is at most 100 and less than 1 off the percentage of the completed payments.
pub batch_history_card-AreMeters :
    (format : Text → Text) (batches : List BatchSummary) (is_loading is_fetching : Bool)
    (error_message : Option Text)
    → All Adds batches
    → AreMeters batches
        (progress_values (batch_history_card format batches is_loading is_fetching error_message))
unfolding batch_history_card progress_values
batch_history_card-AreMeters format batches is_loading is_fetching error_message adds =
    let is_refreshed = is_fetching && ltb 0 (length batches) in
    let error = if_present (truthy error_message) alert in
    let loading_note = note (text "upload-meta") (text "Carregando historico...") in
    let loading = when is_loading loading_note in
    let is_empty =
      not is_loading && (not (is_some (truthy error_message)) && (length batches == 0)) in
    let advice =
      text "Nenhum lote enviado ainda. O historico vai aparecer aqui apos o primeiro upload." in
    let empty_note = note (text "upload-meta batch-history-empty") advice in
    let empty = when is_empty empty_note in
    let list = list_part format batches in
    subst (AreMeters batches)
      (sym (
        after_skipped progress_values (heading is_refreshed) (error ++ (loading ++ (empty ++ list)))
          (close_tag ∷ []) (IsPlain-heading is_refreshed)
          (after_skipped progress_values error (loading ++ (empty ++ list)) (close_tag ∷ [])
            (Skips-if_present progress_values (truthy error_message) alert IsPlain-alert)
            (after_skipped progress_values loading (empty ++ list) (close_tag ∷ [])
              (Skips-when progress_values is_loading loading_note
                (IsPlain-note (text "upload-meta") (text "Carregando historico...")))
              (after_skipped progress_values empty list (close_tag ∷ [])
                (Skips-when progress_values is_empty empty_note
                  (IsPlain-note (text "upload-meta batch-history-empty") advice))
                refl)))))
      (AreMeters-list_part format batches adds)
