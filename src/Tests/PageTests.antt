-- ===== src/Tests/PageTests.antt =====
-- The theorems on the CSV files, the history and the administration pages at concrete inputs.
use flash_pay.Prelude.{
  All, join, starts_with, suc, ◌-◌, ◌≤◌, min, Text, text, ◌≡◌, ◌≢◌, ◌↔◌, refl, true, none, some,
  List, [], ◌∷◌, ◌++◌, keep, lookup, is_space, arith,
}
use flash_pay.Batch.{BatchSummary, AdminBatchSummary}
use flash_pay.Csv.{CsvPreviewData, parse_csv_preview}
use flash_pay.Csv.LineEndings.{IsLine, parse_csv_preview-join}
use flash_pay.Export.{csv_row}
use flash_pay.Export.RoundTrip.{read_row, read_row-csv_row}
use flash_pay.Auth.Session.{admin, operator}
use flash_pay.Upload.{
  File, UploadEvent, file_chosen, content_read, initial_upload_state, upload_steps,
}
use flash_pay.Upload.Laws.{IsShown, upload_steps-IsShown}
use flash_pay.Failure.{unknown}
use flash_pay.Admin.{AdminUser}
use flash_pay.Admin.Groups.{users_by_id, group_batches_by_user}
use flash_pay.Admin.Groups.Laws.{batches_in, is_of, group_batches_by_user-keep}
use flash_pay.Admin.Pages.{PageState, first_page, page_count, query_of, visible_start, visible_end}
use flash_pay.Admin.Pages.Laws.{IsWithin, visible-range}
use flash_pay.Admin.Users.{
  UsersEvent, delete_user, close_delete_dialog, UsersState, initial_users_state, displayed_role,
  reconcile, change_role, role_failed, users_step,
}
use flash_pay.Admin.Users.Laws.{users_steps, delete_click, close_click, users_step-rollback}
use flash_pay.Admin.Users.Overrides.{is_listed, NoneHas, lookup-reconcile}
use flash_pay.Tests.Samples.{detail}

abbrev file : Text
file = text "recipient,amount\r\nana,10\n\n bia , 20 \n"

abbrev preview : CsvPreviewData
preview = record {
  headers = text "recipient" ∷ text "amount" ∷ [];
  rows =
      record { values = text "ana" ∷ text "10" ∷ [] }
      ∷ record { values = text "bia" ∷ text "20" ∷ [] }
      ∷ [];
  total_rows = 2;
}

file-preview : parse_csv_preview file ≡ some preview
unfolding parse_csv_preview is_space
file-preview = refl

read_row-csv_row_example :
    read_row 2 (csv_row (text "a" ∷ text "b,\"c\"" ∷ [] ∷ []) ++ text "\n")
    ≡ some (text "a" ∷ text "b,\"c\"" ∷ [] ∷ [], text "\n")
read_row-csv_row_example = read_row-csv_row (text "a") (text "b,\"c\"" ∷ [] ∷ []) (text "\n") refl

abbrev lines : List Text
lines = text "a,1" ∷ text "b" ∷ []

lines-IsLine : All IsLine (text "n,m" ∷ lines)
lines-IsLine = (
  ((refl, refl), ((refl, refl), ((refl, refl), tt))),
  (((refl, refl), ((refl, refl), ((refl, refl), tt))), (((refl, refl), tt), tt)),
)

parse_csv_preview-join_example :
    parse_csv_preview (join (text "\r\n") (text "n,m" ∷ lines))
    ≡ parse_csv_preview (join (text "\n") (text "n,m" ∷ lines))
parse_csv_preview-join_example = parse_csv_preview-join (text "n,m") lines lines-IsLine

abbrev finished : BatchSummary
finished = record detail.summary {
  status_count = record { pending = 0; processing = 0; success = 1; failed = 1 };
}

abbrev same : Text → Text
same t = t

abbrev small_file : File
small_file = record { name = text "a.csv"; content = file }

abbrev other_file : File
other_file = record { name = text "b.csv"; content = text "x" }

-- Two files are chosen in a row, and the first is read last.
abbrev crossed_reads : List UploadEvent
crossed_reads =
    file_chosen (some small_file)
    ∷ file_chosen (some other_file)
    ∷ content_read 1
    ∷ content_read 0
    ∷ []

first_file_wins :
    (upload_steps same initial_upload_state crossed_reads).selected_file ≡ some small_file
unfolding upload_steps is_space starts_with
first_file_wins = refl

upload_steps-IsShown_example : IsShown same (upload_steps same initial_upload_state crossed_reads)
upload_steps-IsShown_example = upload_steps-IsShown same crossed_reads

abbrev admin_batch : Text → Text → AdminBatchSummary
admin_batch id user_id = record { summary = record finished { id = id }; user_id = user_id }

abbrev batches : List AdminBatchSummary
batches =
    admin_batch (text "a") (text "u")
    ∷ admin_batch (text "b") (text "v")
    ∷ admin_batch (text "c") (text "u")
    ∷ []

abbrev ana : AdminUser
ana = record {
  id = text "u";
  name = text "Ana";
  email = text "ana@x.br";
  role = operator;
  created_at = text "t0";
  updated_at = text "t0";
}

group_batches_by_user-keep_example :
    batches_in (text "u") (group_batches_by_user batches (users_by_id (ana ∷ []) []))
    ≡ keep (is_of (text "u")) batches
group_batches_by_user-keep_example =
    group_batches_by_user-keep batches (users_by_id (ana ∷ []) []) (text "u")

abbrev last_of_three : PageState
last_of_three = record first_page { page = 3; total = 23 }

last_of_three-IsWithin : IsWithin last_of_three
unfolding page_count
last_of_three-IsWithin = (omega arith, omega arith)

three_shown : 3 ≡ min (query_of last_of_three).limit (23 - (query_of last_of_three).offset)
unfolding query_of
three_shown = refl

visible-range_example :
    (visible_start 3 23 ≡ suc (query_of last_of_three).offset)
    × (visible_start 3 23 ≤ visible_end 3 23 3)
    × (visible_end 3 23 3 ≤ 23)
    × ((visible_end 3 23 3 ≡ 23) ↔ (3 ≡ page_count 23))
visible-range_example =
    visible-range last_of_three 3 last_of_three-IsWithin (omega arith) three_shown

-- The override of a change whose new list has not arrived.
abbrev overridden : UsersState
overridden = record initial_users_state { role_overrides = (text "u", admin) ∷ [] }

abbrev clicks : List UsersEvent
clicks = delete_user ∷ close_delete_dialog ∷ []

users_step-rollback_example :
    let t =
      users_step
        (users_steps (users_step overridden (change_role ana operator)) clicks)
        (role_failed ana unknown) in
    (ana.id ≡ ana.id → displayed_role t.role_overrides ana ≡ ana.role)
    × (ana.id ≢ ana.id
        → displayed_role t.role_overrides ana ≡ displayed_role overridden.role_overrides ana)
    × (t.delete_candidate ≡ overridden.delete_candidate)
    × (t.pending_action ≡ none)
users_step-rollback_example =
    users_step-rollback overridden ana ana operator clicks unknown refl
      (delete_click, (close_click, tt))

lookup-reconcile_example :
    (lookup (text "u") (reconcile (ana ∷ []) overridden.role_overrides) ≡ some admin) ↔ (
      (lookup (text "u") overridden.role_overrides ≡ some admin)
      × (is_listed (ana ∷ []) (text "u") ≡ true)
      × NoneHas (text "u") admin (ana ∷ []))
lookup-reconcile_example = lookup-reconcile (ana ∷ []) overridden.role_overrides (text "u") admin
