-- ===== src/Admin/Pages/View.antt =====
-- AdminBatchesPage.tsx: what the page renders.
pub mod Table
pub mod Laws
use flash_pay.Prelude.{
  ℕ, ◌≤◌, Text, text, Bool, true, false, ◌&&◌, ◌||◌, not, Option, none, some, List, [], ◌∷◌, ◌++◌,
  ltb, leb, ◌==◌, if◌then◌else◌, is_some, length, decimal, Map, lookup,
}
use flash_pay.Prelude.Html.{string, flag, Html, element, say, when, if_present, each, classed, link}
use flash_pay.Batch.{
  BatchPaymentStatus, pending, processing, success, failed, status_text, AdminBatchSummary,
}
use flash_pay.Failure.{Failure, admin_batches_error_message}
use flash_pay.Admin.{AdminUser}
use flash_pay.Admin.Groups.{users_by_id, label_of}
use flash_pay.Admin.Pages.{page_count, safe_page, visible_start, visible_end, Filters, PageState}
use flash_pay.Admin.Pages.View.Table.{admin_status_label, batches_table}

-- What the page reads of its two queries, besides the total, which the state of the page has.
pub record BatchesView : Type 0 where
  pub users : List AdminUser
  pub has_users_error : Bool
  pub is_users_loading : Bool
  pub batches : List AdminBatchSummary
  pub batches_error : Option Failure
  pub is_batches_loading : Bool
  pub is_batches_fetching : Bool

unfoldable pub selected_user_label : Map AdminUser → Option Text → Text
unfolding lookup
selected_user_label users none = text "Todos os usuários"
selected_user_label users (some id) = label_of id (lookup id users)

abbrev pub selected_status_label : Option BatchPaymentStatus → Text
selected_status_label none = text "Todos os status"
selected_status_label (some status) = admin_status_label status

unfoldable pub batches_heading : List AdminUser → PageState → Html
unfolding selected_user_label users_by_id decimal
batches_heading users s = element (text "section") (classed (text "hero-panel")) (
    element (text "p") (classed (text "eyebrow")) (say (text "Administracao"))
    ++ (element (text "h1") [] (say (text "Lotes administrativos"))
        ++ (element (text "p") (classed (text "lead")) (
              say (
                text
                  "Liste os lotes administrativos, filtre por usuario ou status e acesse o detalhe de cada arquivo em uma unica tela."))
            ++ element (text "div") (classed (text "admin-batches-summary")) (
                element (text "p") (classed (text "admin-batches-summary-value")) (
                  say (decimal s.total)
                  ++ say (text " resultado")
                  ++ say (if s.total == 1 then [] else text "s"))
                ++ element (text "p") (classed (text "admin-batches-summary-note")) (
                    say (text "Filtro atual: ")
                    ++ say (selected_user_label (users_by_id users []) s.filters.user_id)
                    ++ say (text " | ")
                    ++ say (selected_status_label s.filters.status))))))

-- The error of the batches before that of the users.
unfoldable pub batches_alert : Option Failure → Bool → Option Text
unfolding admin_batches_error_message
batches_alert (some failure) has_users_error = some (
    admin_batches_error_message (text "Nao foi possivel carregar os lotes administrativos.")
      failure)
batches_alert none true = some (text "Nao foi possivel carregar os usuarios administrativos.")
batches_alert none false = none

abbrev pub filter_option : Text → Text → Html
filter_option value label = element (text "option") ((text "value", string value) ∷ []) (say label)

abbrev pub user_option : AdminUser → Html
user_option user =
    element (text "option") ((text "value", string user.id) ∷ [])
      (say user.name ++ say (text " - ") ++ say user.email)

abbrev pub user_option_value : Option Text → Text
user_option_value none = text "all"
user_option_value (some id) = id

abbrev pub status_option_value : Option BatchPaymentStatus → Text
status_option_value none = text "all"
status_option_value (some status) = status_text status

abbrev pub status_options : List (Option BatchPaymentStatus)
status_options = none ∷ some pending ∷ some processing ∷ some success ∷ some failed ∷ []

unfoldable pub batches_filters : List AdminUser → Bool → Filters → Html
batches_filters users is_users_loading filters =
    element (text "div") (classed (text "admin-batches-filters")) (
      element (text "label") (classed (text "field admin-batches-filter")) (
        element (text "span") [] (say (text "Usuario"))
        ++ element (text "select")
            ((text "value", string (user_option_value filters.user_id))
              ∷ (text "disabled", flag (is_users_loading || (length users == 0)))
              ∷ [])
            (filter_option (text "all") (text "Todos os usuarios") ++ each user_option users))
      ++ element (text "label") (classed (text "field admin-batches-filter")) (
          element (text "span") [] (say (text "Status do lote"))
          ++ element (text "select")
              ((text "value", string (status_option_value filters.status)) ∷ [])
              (each (λ o. filter_option (status_option_value o) (selected_status_label o))
                status_options)))

unfoldable pub pagination : ℕ → ℕ → Html
unfolding safe_page page_count decimal
pagination page total = when (ltb 1 (page_count total) || ltb 0 total) (
    element (text "div")
      ((text "class", string (text "admin-batches-pagination"))
        ∷ (text "aria-label", string (text "Paginacao de lotes"))
        ∷ [])
      (element (text "button")
          ((text "class", string (text "ghost-button"))
            ∷ (text "type", string (text "button"))
            ∷ (text "disabled", flag ((safe_page page total == 1) || (total == 0)))
            ∷ [])
          (say (text "Anterior"))
        ++ (element (text "p") (classed (text "admin-batches-pagination-label")) (
              say (text "Pagina ")
              ++ say (decimal (safe_page page total))
              ++ say (text " de ")
              ++ say (decimal (page_count total)))
            ++ element (text "button")
                ((text "class", string (text "ghost-button"))
                  ∷ (text "type", string (text "button"))
                  ∷ (
                    text "disabled",
                    flag (leb (page_count total) (safe_page page total) || (total == 0)),
                  )
                  ∷ [])
                (say (text "Proxima")))))

unfoldable pub batches_card : (Text → Text) → BatchesView → PageState → Html
unfolding batches_alert batches_filters visible_start visible_end batches_table users_by_id
    pagination decimal
batches_card format v s =
    let shows_no_results = not v.is_batches_loading && (s.total == 0) in
    let has_filters = is_some s.filters.user_id || is_some s.filters.status in
    let some_batches = ltb 0 (length v.batches) in
    element (text "section") (classed (text "status-card admin-batches-card")) (
      element (text "div") (classed (text "card-header")) (
        element (text "div") [] (
          element (text "p") (classed (text "section-kicker")) (say (text "Lotes"))
          ++ element (text "h2") [] (say (text "Lista administrativa")))
        ++ element (text "div") (classed (text "admin-users-links")) (
            link (text "/admin") [] (say (text "Voltar ao painel"))
            ++ link (text "/admin/users") [] (say (text "Usuarios"))))
      ++ ((if_present (batches_alert v.batches_error v.has_users_error) λ message.
            element (text "p")
              ((text "class", string (text "submit-error"))
                ∷ (text "role", string (text "alert"))
                ∷ [])
              (say message))
          ++ (batches_filters v.users v.is_users_loading s.filters
              ++ (when (v.is_users_loading || v.is_batches_loading) (
                    element (text "p") (classed (text "upload-meta"))
                      (say (text "Carregando lotes administrativos...")))
                  ++ (when (v.is_batches_fetching && (not v.is_batches_loading && some_batches)) (
                        element (text "p") (classed (text "batch-history-refresh"))
                          (say (text "Atualizando lotes...")))
                      ++ (when (not v.is_batches_loading && (not shows_no_results && some_batches))
                            (element (text "p") (classed (text "admin-batches-overview")) (
                              say (text "Exibindo ")
                              ++ say (decimal (visible_start s.page s.total))
                              ++ say (text "-")
                              ++ say (decimal (visible_end s.page s.total (length v.batches)))
                              ++ say (text " de ")
                              ++ say (decimal s.total)
                              ++ say (text " lotes.")))
                          ++ (when shows_no_results (
                                element (text "p")
                                  (classed (text "upload-meta admin-batches-empty"))
                                  (say (
                                    if has_filters
                                    then text "Nenhum lote corresponde aos filtros selecionados."
                                    else text "Nenhum lote administrativo encontrado.")))
                              ++ (when some_batches
                                    (batches_table format (users_by_id v.users []) v.batches)
                                  ++ pagination s.page s.total))))))))

-- `format` is `dateFormatter.format(new Date(value))`.
unfoldable pub admin_batches_page : (Text → Text) → BatchesView → PageState → Html
unfolding batches_heading batches_card
admin_batches_page format v s =
    element (text "main") (classed (text "dashboard-shell admin-batches-shell"))
      (batches_heading v.users s ++ batches_card format v s)
