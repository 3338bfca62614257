-- ===== src/Pages.antt =====
-- The pages of apps/frontend/src/pages that compose the components: HomePage.tsx, AdminPage.tsx,
-- LoginPage.tsx, RegisterPage.tsx, BatchDetailsPage.tsx and AdminBatchDetailsPage.tsx.
pub mod Laws
use flash_pay.Prelude.{
  ℕ, Text, text, Bool, true, false, Option, none, some, List, [], ◌∷◌, ◌++◌, if◌then◌else◌,
  ◌or_else◌,
}
use flash_pay.Prelude.Html.{string, Html, element, say, classed, link}
use flash_pay.Batch.{BatchSummary}
use flash_pay.Failure.{Failure}
use flash_pay.Auth.Session.{role_text, User, AuthState, select_is_admin}
use flash_pay.Auth.Submit.{LoginState, RegisterState}
use flash_pay.Auth.Fields.{login_form, register_form}
use flash_pay.Upload.{UploadState}
use flash_pay.Upload.Card.{upload_card}
use flash_pay.History.Card.{batch_history_card}
use flash_pay.Export.Card.{CardProps, batch_progress_card}

abbrev pub hero : Text → Text → Html → Html
hero eyebrow title more = element (text "section") (classed (text "hero-panel")) (
    element (text "p") (classed (text "eyebrow")) (say eyebrow)
    ++ (element (text "h1") [] (say title) ++ more))

abbrev pub lead : Text → Html
lead t = element (text "p") (classed (text "lead")) (say t)

abbrev pub card_heading : Text → Text → Html
card_heading kicker title = element (text "div") [] (
    element (text "p") (classed (text "section-kicker")) (say kicker)
    ++ element (text "h2") [] (say title))

abbrev pub footer : Html → Html
footer = element (text "p") (classed (text "auth-footer"))

abbrev pub logout_button : Html
logout_button =
    element (text "button")
      ((text "class", string (text "ghost-button")) ∷ (text "type", string (text "button")) ∷ [])
      (say (text "Sair"))

abbrev pub user_name : Text → Option User → Text
user_name otherwise none = otherwise
user_name otherwise (some user) = user.name

abbrev pub user_email : Option User → Text
user_email none = text "-"
user_email (some user) = user.email

abbrev pub user_role : Option User → Text
user_role none = text "-"
user_role (some user) = role_text user.role

abbrev pub session_datum : Text → Text → Html
session_datum term value =
    element (text "div") []
      (element (text "dt") [] (say term) ++ element (text "dd") [] (say value))

-- The card of the current session on the home page.
unfoldable pub session_card : AuthState → Html
unfolding select_is_admin
session_card state = element (text "section") (classed (text "status-card")) (
    element (text "div") (classed (text "card-header")) (
      card_heading (text "Sessao atual") (user_name (text "Usuario sem nome") state.user)
      ++ logout_button)
    ++ (element (text "dl") (classed (text "details-grid")) (
          session_datum (text "Email") (user_email state.user)
          ++ (session_datum (text "Perfil") (user_role state.user)
              ++ session_datum (text "Acesso admin")
                  (if select_is_admin state then text "Sim" else text "Nao")))
        ++ footer (
            if select_is_admin state
            then link (text "/admin") [] (say (text "Abrir painel administrativo"))
            else say (text "Seu perfil atual nao pode acessar rotas administrativas."))))

-- What the home page reads of its query.
pub record HomeView : Type 0 where
  pub batches : Option (List BatchSummary)
  pub is_loading : Bool
  pub is_fetching : Bool
  pub has_error : Bool

unfoldable pub home_page :
    (Text → Text) → AuthState → UploadState → Option Failure → Bool → HomeView → Html
unfolding session_card upload_card batch_history_card
home_page format state upload upload_error is_uploading v =
    element (text "main") (classed (text "dashboard-shell")) (
      hero (text "FlashPay") (text "Painel autenticado") (
        lead (
          text
            "Login e registro estao ligados ao backend e persistem a sessao no Redux com hidratacao segura."))
      ++ (session_card state
          ++ (upload_card upload upload_error is_uploading
              ++ batch_history_card format (v.batches or_else []) v.is_loading v.is_fetching (
                  if v.has_error
                  then some (text "Nao foi possivel carregar o historico de lotes.")
                  else none))))

unfoldable pub admin_home_page : Option User → Html
admin_home_page user = element (text "main") (classed (text "dashboard-shell")) (
    hero (text "Administracao") (text "Painel administrativo") (
      element (text "p") (classed (text "lead")) (
        say (text "Esta area fica disponivel apenas para usuarios com role")
        ++ (element (text "strong") [] (say (text " admin")) ++ say (text "."))))
    ++ element (text "section") (classed (text "status-card")) (
        element (text "div") (classed (text "card-header")) (
          card_heading (text "Controle de acesso") (user_name (text "Administrador") user)
          ++ logout_button)
        ++ (element (text "p") (classed (text "lead compact-lead")) (
              say
                (text "Rotas administrativas agora exigem autenticacao e role valida no frontend."))
            ++ footer (link (text "/dashboard") [] (say (text "Voltar ao dashboard"))))))

-- The two columns of the login and of the registration.
abbrev pub auth_page : Text → Text → Text → Text → Text → Html → Html
auth_page eyebrow title lead_text note_label note card =
    element (text "main") (classed (text "auth-shell")) (
      element (text "section") (classed (text "auth-spotlight")) (
        element (text "p") (classed (text "eyebrow")) (say eyebrow)
        ++ (element (text "h1") [] (say title)
            ++ (lead lead_text
                ++ element (text "div") (classed (text "spotlight-note")) (
                    element (text "span") (classed (text "note-label")) (say note_label)
                    ++ element (text "p") [] (say note)))))
      ++ element (text "section") (classed (text "auth-card")) card)

unfoldable pub login_page : LoginState → Bool → Html
unfolding login_form
login_page s is_loading =
    auth_page (text "Semana 2") (text "Entrar no FlashPay")
      (text "Acesse sua conta para acompanhar lotes, pagamentos e operacoes do painel.")
      (text "Fluxo") (text "Autenticacao via RTK Query, persistencia local e protecao de rotas.")
      (element (text "div") (classed (text "card-header"))
          (card_heading (text "Login") (text "Informe suas credenciais"))
        ++ (login_form s is_loading
            ++ footer (
                say (text "Ainda nao tem conta? ")
                ++ link (text "/register") [] (say (text "Criar cadastro")))))

unfoldable pub register_page : RegisterState → Bool → Html
unfolding register_form
register_page s is_loading =
    auth_page (text "Operador") (text "Criar conta no FlashPay")
      (text
        "O cadastro cria usuarios com perfil operador e inicia a sessao imediatamente apos o sucesso.")
      (text "Validacao")
      (text "Campos obrigatorios, email valido e senha alinhada ao contrato do backend.")
      (element (text "div") (classed (text "card-header"))
          (card_heading (text "Cadastro") (text "Preencha seus dados"))
        ++ (register_form s is_loading
            ++ footer (
                say (text "Ja possui conta? ")
                ++ link (text "/login") [] (say (text "Fazer login")))))

abbrev pub detail_header : Text → Text → Text → Html
detail_header note to label = element (text "div") (classed (text "admin-batch-detail-header")) (
    element (text "p") (classed (text "admin-batch-detail-note")) (say note)
    ++ link to [] (say label))

unfoldable pub batch_details_page : (Text → Text) → CardProps → Html
unfolding batch_progress_card
batch_details_page format p = element (text "main") (classed (text "dashboard-shell")) (
    hero (text "Batches") (text "Detalhes do lote") (
      lead (
        text
          "Estado inicial do lote hidratado via API e atualizado em tempo real por SSE autenticado.")
      ++ detail_header
          (text "Volte ao dashboard para acompanhar outros lotes ou enviar um novo arquivo.")
          (text "/dashboard") (text "Voltar ao dashboard"))
    ++ batch_progress_card format p false)

unfoldable pub admin_batch_details_page : (Text → Text) → CardProps → Bool → Html
unfolding batch_progress_card
admin_batch_details_page format p show_only_failed =
    element (text "main") (classed (text "dashboard-shell admin-batch-detail-shell")) (
      hero (text "Administracao") (text "Detalhes administrativos do lote") (
        lead (
          text
            "Veja o lote existente, filtre rapidamente os pagamentos com erro e exporte a lista em CSV sem sair da tela.")
        ++ detail_header
            (text "Volte para a lista administrativa quando quiser revisar outro lote.")
            (text "/admin/batches") (text "Voltar para lotes administrativos"))
      ++ batch_progress_card format p show_only_failed)
