-- ===== src/Admin/Users/Page.antt =====
-- AdminUsersPage.tsx: what the page renders.
pub mod Laws
pub mod Dialog
use flash_pay.Prelude.{
  ℕ, Text, text, Bool, true, false, ◌&&◌, ◌||◌, not, Option, none, some, List, [], ◌∷◌, ◌++◌, ltb,
  ◌==◌, if◌then◌else◌, is_some, length, text_eq, decimal, Map,
}
use flash_pay.Prelude.Html.{
  Value, string, flag, Html, element, say, when, if_present, each, classed, th, td, link,
}
use flash_pay.Auth.Session.{Role, admin, operator, role_text, User}
use flash_pay.Admin.{AdminUser}
use flash_pay.Admin.Users.{
  Feedback, succeeded, failed, PendingAction, role_change, deletion, UsersState, displayed_role,
  role_label,
}
use flash_pay.Admin.Users.Page.Dialog.{is_deletion, delete_dialog}

-- What the page reads of the query and of the session.
pub record UsersView : Type 0 where
  pub current_user : Option User
  pub users : List AdminUser
  pub total_users : ℕ
  pub has_error : Bool
  pub is_loading : Bool
  pub is_fetching : Bool

abbrev pub feedback_part : Option Feedback → Html
feedback_part none = []
feedback_part (some (succeeded message)) =
    element (text "p")
      ((text "class", string (text "admin-users-feedback admin-users-feedback--success"))
        ∷ (text "role", string (text "status"))
        ∷ [])
      (say message)
feedback_part (some (failed message)) =
    element (text "p")
      ((text "class", string (text "submit-error admin-users-feedback"))
        ∷ (text "role", string (text "alert"))
        ∷ [])
      (say message)

abbrev pub is_current_user : Option User → AdminUser → Bool
unfolding text_eq
is_current_user none user = false
is_current_user (some current) user = text_eq current.id user.id

-- The text in the row of the user of the pending action.
abbrev pub row_status : Option PendingAction → Text → Option Text
unfolding text_eq
row_status none id = none
row_status (some (role_change user_id)) id =
    if text_eq user_id id then some (text "Atualizando role...") else none
row_status (some (deletion user_id)) id =
    if text_eq user_id id then some (text "Removendo usuario...") else none

abbrev pub name_cell : Bool → Text → Html
name_cell is_current name = element (text "div") (classed (text "admin-users-name-cell")) (
    element (text "strong") [] (say name)
    ++ when is_current
        (element (text "span") (classed (text "admin-users-pill")) (say (text "Conta atual"))))

abbrev pub role_option : Role → Html
role_option r =
    element (text "option") ((text "value", string (role_text r)) ∷ []) (say (role_label r))

abbrev pub role_select : AdminUser → Role → Bool → Html
role_select user r is_disabled =
    element (text "label")
      ((text "class", string (text "sr-only"))
        ∷ (text "for", string (text "role-" ++ user.id))
        ∷ [])
      (say (text "Alterar role de ") ++ say user.name)
    ++ element (text "select")
        ((text "id", string (text "role-" ++ user.id))
          ∷ (text "class", string (text "admin-users-role-select"))
          ∷ (text "aria-label", string (text "Alterar role de " ++ user.name))
          ∷ (text "value", string (role_text r))
          ∷ (text "disabled", flag is_disabled)
          ∷ [])
        (role_option admin ++ role_option operator)

abbrev pub actions_cell : AdminUser → Bool → Option Text → Html
actions_cell user is_disabled status = element (text "div") (classed (text "admin-users-actions")) (
    element (text "button")
      ((text "class", string (text "ghost-button admin-users-delete-button"))
        ∷ (text "type", string (text "button"))
        ∷ (text "aria-label", string (text "Remover " ++ user.name))
        ∷ (text "disabled", flag is_disabled)
        ∷ [])
      (say (text "Remover"))
    ++ if_present status
        λ message. element (text "span") (classed (text "admin-users-row-status")) (say message))

unfoldable pub user_row : (Text → Text) → AdminUser → Role → Bool → Bool → Option Text → Html
user_row format user r is_current is_busy status =
    element (text "tr")
      (classed (
        if is_current
        then text "admin-users-row admin-users-row--self"
        else text "admin-users-row"))
      (element (text "td") [] (name_cell is_current user.name)
        ++ (td user.email
            ++ (element (text "td") [] (role_select user r (is_current || is_busy))
                ++ (td (format user.created_at)
                    ++ (td (format user.updated_at)
                        ++ element (text "td") []
                            (actions_cell user (is_current || is_busy) status))))))

unfoldable pub listed_row : (Text → Text) → Option User → UsersState → AdminUser → Html
unfolding user_row displayed_role
listed_row format current s user =
    user_row format user (displayed_role s.role_overrides user) (is_current_user current user)
      (is_some s.pending_action) (row_status s.pending_action user.id)

unfoldable pub users_table : (Text → Text) → Option User → UsersState → List AdminUser → Html
unfolding listed_row
users_table format current s users =
    element (text "div") (classed (text "preview-table-wrapper admin-users-table-wrapper")) (
      element (text "table") (classed (text "preview-table admin-users-table")) (
        element (text "thead") [] (
          element (text "tr") [] (
            th (text "Nome")
            ++ (th (text "Email")
                ++ (th (text "Role")
                    ++ (th (text "Criado em")
                        ++ (th (text "Atualizado em") ++ th (text "Acoes")))))))
        ++ element (text "tbody") [] (each (listed_row format current s) users)))

abbrev pub users_heading : ℕ → Html
unfolding decimal
users_heading total = element (text "section") (classed (text "hero-panel")) (
    element (text "p") (classed (text "eyebrow")) (say (text "Administracao"))
    ++ (element (text "h1") [] (say (text "Gerenciamento de usuarios"))
        ++ (element (text "p") (classed (text "lead")) (
              say (
                text
                  "Liste os usuarios administrativos, ajuste a role inline e remova contas sem sair desta tela."))
            ++ element (text "div") (classed (text "admin-users-summary")) (
                element (text "p") (classed (text "admin-users-summary-value"))
                  (say (decimal total) ++ say (text " usuarios cadastrados"))
                ++ element (text "p") (classed (text "admin-users-summary-note")) (
                    say (text "Sua propria conta fica bloqueada para alterar role ou remover."))))))

unfoldable pub users_card : (Text → Text) → UsersView → UsersState → Html
unfolding users_table
users_card format v s = element (text "section") (classed (text "status-card admin-users-card")) (
    element (text "div") (classed (text "card-header")) (
      element (text "div") [] (
        element (text "p") (classed (text "section-kicker")) (say (text "Usuarios"))
        ++ element (text "h2") [] (say (text "Lista administrativa")))
      ++ element (text "div") (classed (text "admin-users-links")) (
          link (text "/admin") [] (say (text "Voltar ao painel"))
          ++ link (text "/dashboard") [] (say (text "Ir ao dashboard"))))
    ++ (feedback_part s.feedback
        ++ (when v.has_error (
              element (text "p")
                ((text "class", string (text "submit-error"))
                  ∷ (text "role", string (text "alert"))
                  ∷ [])
                (say (text "Nao foi possivel carregar os usuarios.")))
            ++ (when v.is_loading (
                  element (text "p") (classed (text "upload-meta"))
                    (say (text "Carregando usuarios...")))
                ++ (when (v.is_fetching && ltb 0 (length v.users)) (
                      element (text "p") (classed (text "batch-history-refresh"))
                        (say (text "Atualizando usuarios...")))
                    ++ (when (not v.is_loading && ((length v.users == 0) && not v.has_error)) (
                          element (text "p") (classed (text "upload-meta"))
                            (say (text "Nenhum usuario encontrado.")))
                        ++ when (ltb 0 (length v.users))
                            (users_table format v.current_user s v.users)))))))

-- `format` is `formatDateTime`.
unfoldable pub admin_users_page : (Text → Text) → UsersView → UsersState → Html
unfolding users_card delete_dialog
admin_users_page format v s =
    element (text "main") (classed (text "dashboard-shell admin-users-shell")) (
      users_heading v.total_users
      ++ (users_card format v s ++ delete_dialog (is_deletion s.pending_action) s.delete_candidate))
