-- ===== src/Tests/RenderTests.antt =====
-- The theorems on what is rendered at concrete inputs.
use flash_pay.Prelude.{
  Text, ◌||◌, not, is_some, List, text, ◌≡◌, refl, true, false, none, some, [], ◌∷◌, ◌++◌, map, any,
}
use flash_pay.Prelude.Html.{truthy}
use flash_pay.Batch.{BatchSummary, failed, BatchDetail}
use flash_pay.Auth.Submit.{RegisterState}
use flash_pay.Auth.Fields.{register_form}
use flash_pay.Auth.Fields.Reader.{present}
use flash_pay.Auth.Fields.Laws.{IsAccessible, shown_error, register_form-IsAccessible}
use flash_pay.Export.{is_failed, visible_payments}
use flash_pay.Export.Card.{
  CardProps, batch_progress_card, payment_list, no_failed_message, no_payments_message,
}
use flash_pay.Export.Card.Rows.{first_cells}
use flash_pay.Export.Card.Laws.{
  payments_for, first_cells-batch_progress_card, contents, payment_list-contradiction,
}
use flash_pay.Details.{create_initial_stream_state}
use flash_pay.History.Card.{batch_history_card}
use flash_pay.History.Card.Laws.{AreMeters, progress_values, batch_history_card-AreMeters}
use flash_pay.Auth.Session.{User}
use flash_pay.Admin.{AdminUser}
use flash_pay.Admin.Users.{initial_users_state}
use flash_pay.Admin.Users.Page.{users_table}
use flash_pay.Admin.Users.Page.Laws.{AreControls, users_table-AreControls}
use flash_pay.Prelude.Html.Controls.{disabled_flags}
use flash_pay.Admin.Pages.{
  PageEvent, prev_page, next_page, total_received, page_step, page_steps, first_page,
}
use flash_pay.Admin.Pages.View.{pagination}
use flash_pay.Admin.Pages.View.Laws.{pagination-page_step}
use flash_pay.Prelude.{◌<◌, ◌↔◌, Bool, arith}
use flash_pay.Auth.Routing.{render, admin_home, admin_root, app}
use flash_pay.Pages.{session_card}
use flash_pay.Pages.Laws.{links, links-session_card}
use flash_pay.Upload.{
  File, UploadEvent, drag_over, file_dropped, content_read, initial_upload_state, upload_steps,
}
use flash_pay.Upload.Card.{upload_card}
use flash_pay.Upload.Card.Laws.{disabled_flags-upload_card}
use flash_pay.Tests.Samples.{
  session_of, batch_page, ana, bob, detail, first_payment, second_payment,
}

-- An email that is taken, and two passwords that differ.
abbrev refused_form : RegisterState
refused_form = record {
  values = record {
    name = text "Ana";
    email = text "ana@x.br";
    password = text "secret 1";
    confirm_password = text "secret 2";
  };
  errors = record {
    name = some [];
    email = some (text "Este email ja esta em uso.");
    password = none;
    confirm_password = some (text "As senhas devem coincidir.");
  };
  submit_error = none;
}

register_form-IsAccessible_example :
    IsAccessible
      (register_form refused_form true)
      (present (truthy refused_form.errors.name)
        ++ (present (truthy refused_form.errors.email)
            ++ (present (truthy refused_form.errors.password)
                ++ (present (truthy refused_form.errors.confirm_password)
                    ++ (present (truthy refused_form.submit_error) ++ [])))))
      (shown_error refused_form.errors.name
        ∷ shown_error refused_form.errors.email
        ∷ shown_error refused_form.errors.password
        ∷ shown_error refused_form.errors.confirm_password
        ∷ [])
register_form-IsAccessible_example = register_form-IsAccessible refused_form true

abbrev half_failed : BatchDetail
half_failed = record detail {
  payments =
      first_payment
      ∷ record second_payment { status = failed; error_message = some (text "no funds") }
      ∷ [];
}

abbrev same_text : Text → Text
same_text t = t

abbrev filtered_card : CardProps
filtered_card = record {
  batch_id = text "a";
  detail = some half_failed;
  progress = record { total_payments = 2; completed_payments = 1; percent_complete = 50 };
  stream = create_initial_stream_state;
  is_loading = false;
  error_message = some (text "offline");
  admin_view = true;
}

first_cells-batch_progress_card_example :
    first_cells (batch_progress_card same_text filtered_card true)
    ≡ map (λ q. q.id) (payments_for true true (some half_failed))
first_cells-batch_progress_card_example =
    first_cells-batch_progress_card same_text filtered_card true

-- One batch that is processed, and one that waits.
abbrev history : List BatchSummary
history =
    detail.summary
    ∷ record detail.summary {
      status_count = record { pending = 2; processing = 0; success = 0; failed = 0 };
    }
    ∷ []

batch_history_card-AreMeters_example :
    AreMeters history (progress_values (batch_history_card same_text history false true none))
batch_history_card-AreMeters_example =
    batch_history_card-AreMeters same_text history false true none
      ((refl, omega arith), ((refl, omega arith), tt))

none_failed : any is_failed detail.payments ≡ false
none_failed = refl

payment_list-contradiction_example :
    contents (payment_list true true (visible_payments true true (some detail)))
    ≡ no_failed_message ∷ no_payments_message ∷ []
payment_list-contradiction_example = payment_list-contradiction detail none_failed

abbrev listed : User → AdminUser
listed u = record {
  id = u.id;
  name = u.name;
  email = u.email;
  role = u.role;
  created_at = text "t0";
  updated_at = text "t0";
}

abbrev users : List AdminUser
users = listed ana ∷ listed bob ∷ []

abbrev same : Text → Text
same t = t

users_table-AreControls_example :
    AreControls
      (some ana)
      initial_users_state
      users
      (disabled_flags (users_table same (some ana) initial_users_state users))
users_table-AreControls_example = users_table-AreControls same (some ana) initial_users_state users

abbrev dropped_file : File
dropped_file = record { name = text "a.csv"; content = text "id,amount\n1,10" }

abbrev drop_events : List UploadEvent
drop_events = drag_over ∷ file_dropped false (some dropped_file) ∷ content_read 0 ∷ []

disabled_flags-upload_card_example :
    let s = upload_steps same initial_upload_state drop_events in
    disabled_flags (upload_card s none false)
    ≡ false ∷ (false || not (is_some s.selected_file)) ∷ []
disabled_flags-upload_card_example = disabled_flags-upload_card same drop_events none false

abbrev page_events : List PageEvent
page_events = total_received 23 ∷ next_page ∷ next_page ∷ []

some_total : 0 < (page_steps first_page page_events).total
unfolding page_steps
some_total = omega arith

pagination-page_step_example :
    let s = page_steps first_page page_events in
    (is_first : Bool) × (is_last : Bool) × (disabled_flags (pagination s.page s.total)
      ≡ is_first ∷ is_last ∷ [])
    × ((is_first ≡ true) ↔ ((page_step s prev_page).page ≡ s.page))
    × ((is_last ≡ true) ↔ ((page_step s next_page).page ≡ s.page))
pagination-page_step_example = pagination-page_step page_events some_total

links-session_card_example :
    (links (session_card (session_of bob)) ≡ text "/admin" ∷ [])
    ↔ (app (session_of bob) batch_page admin_root ≡ render admin_home)
unfolding app
links-session_card_example = links-session_card (session_of bob) batch_page refl
