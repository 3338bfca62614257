-- ===== src/Batch.antt =====
-- apps/frontend/src/features/batches/types/index.ts: batches, payments and stream events.
-- An optional or nullable field is an `Option`: no code tells `undefined` from `null` in one.
use flash_pay.Prelude.{ℕ, Text, text, Option, Bool, true, false, List}

pub data BatchPaymentStatus : Type 0 where
  pending processing success failed : BatchPaymentStatus

-- The text that stands for a status in JSON and in the interface.
abbrev pub status_text : BatchPaymentStatus → Text
status_text pending = text "pending"
status_text processing = text "processing"
status_text success = text "success"
status_text failed = text "failed"

-- `a === b`
abbrev pub same_status : BatchPaymentStatus → BatchPaymentStatus → Bool
same_status pending pending = true
same_status processing processing = true
same_status success success = true
same_status failed failed = true
same_status _ _ = false

pub record BatchStatusCount : Type 0 where
  pub pending : ℕ
  pub processing : ℕ
  pub success : ℕ
  pub failed : ℕ

pub record BatchPayment : Type 0 where
  pub id : Text
  pub recipient : Text
  pub amount : Text
  pub status : BatchPaymentStatus
  pub error_message : Option Text
  pub processed_at : Option Text

pub record BatchSummary : Type 0 where
  pub id : Text
  pub file_name : Text
  pub total_payments : ℕ
  pub status : BatchPaymentStatus
  pub status_count : BatchStatusCount
  pub created_at : Text

pub record AdminBatchSummary : Type 0 where
  pub summary : BatchSummary
  pub open summary use *
  pub user_id : Text

pub record BatchDetail : Type 0 where
  pub summary : BatchSummary
  pub open summary use *
  pub user_id : Text
  pub payments : List BatchPayment

pub record BatchPaymentUpdatedEvent : Type 0 where
  pub batch_id : Text
  pub payment_id : Text
  pub status : BatchPaymentStatus
  pub error_message : Option Text
  pub sent_at : Text

pub record BatchDoneEvent : Type 0 where
  pub batch_id : Text
  pub total_payments : ℕ
  pub completed_payments : ℕ
  pub sent_at : Text

-- The tag is the field `type` of the source.
pub data BatchStreamEvent : Type 0 where
  payment_updated : BatchPaymentUpdatedEvent → BatchStreamEvent
  batch_done : BatchDoneEvent → BatchStreamEvent

abbrev pub event_type : BatchStreamEvent → Text
event_type (payment_updated _) = text "payment_updated"
event_type (batch_done _) = text "batch_done"

abbrev pub event_batch_id : BatchStreamEvent → Text
event_batch_id (payment_updated e) = e.batch_id
event_batch_id (batch_done e) = e.batch_id

abbrev pub event_sent_at : BatchStreamEvent → Text
event_sent_at (payment_updated e) = e.sent_at
event_sent_at (batch_done e) = e.sent_at
