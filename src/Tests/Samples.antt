-- ===== src/Tests/Samples.antt =====
-- The data that the tests share: a batch of two payments, the messages about it, and a session.
use flash_pay.Prelude.{Text, text, true, Option, none, some, [], ◌∷◌, if◌then◌else◌, text_eq}
use flash_pay.Batch.{
  BatchPayment, pending, processing, success, failed, BatchDetail, BatchPaymentUpdatedEvent,
  BatchDoneEvent, BatchStreamEvent, payment_updated, batch_done,
}
use flash_pay.Auth.Session.{admin, operator, User, AuthState}
use flash_pay.Auth.Routing.{Location}

abbrev pub batch_id : Text
batch_id = text "a"

abbrev pub first_payment : BatchPayment
first_payment = record {
  id = text "1";
  recipient = text "ana";
  amount = text "10.00";
  status = pending;
  error_message = none;
  processed_at = none;
}

abbrev pub second_payment : BatchPayment
second_payment = record {
  id = text "2";
  recipient = text "bia";
  amount = text "20.00";
  status = processing;
  error_message = none;
  processed_at = none;
}

abbrev pub detail : BatchDetail
detail = record {
  summary = record {
    id = batch_id;
    file_name = text "f.csv";
    total_payments = 2;
    status = processing;
    status_count = record { pending = 1; processing = 1; success = 0; failed = 0 };
    created_at = text "t0";
  };
  user_id = text "u";
  payments = first_payment ∷ second_payment ∷ [];
}

abbrev pub first_paid : BatchPaymentUpdatedEvent
first_paid = record {
  batch_id = batch_id;
  payment_id = text "1";
  status = success;
  error_message = none;
  sent_at = text "t1";
}

abbrev pub second_failed : BatchPaymentUpdatedEvent
second_failed = record {
  batch_id = batch_id;
  payment_id = text "2";
  status = failed;
  error_message = some (text "no funds");
  sent_at = text "t2";
}

abbrev pub all_done : BatchDoneEvent
all_done = record {
  batch_id = batch_id;
  total_payments = 2;
  completed_payments = 2;
  sent_at = text "t3";
}

-- A decoder of three messages.
abbrev pub decode : Text → Option BatchStreamEvent
decode t =
    if text_eq t (text "p1")
    then some (payment_updated first_paid)
    else if text_eq t (text "p2")
    then some (payment_updated second_failed)
    else if text_eq t (text "end")
    then some (batch_done all_done)
    else none

abbrev pub ana : User
ana = record { id = text "u"; name = text "Ana"; email = text "ana@x.br"; role = admin }

abbrev pub bob : User
bob = record { id = text "v"; name = text "Bob"; email = text "bob@x.br"; role = operator }

abbrev pub session_of : User → AuthState
session_of user = record { token = some (text "h.p.s"); user = some user; is_authenticated = true }

abbrev pub batch_page : Location
batch_page = record { pathname = text "/batches/a"; search = text "?tab=1"; hash = text "#p" }
