-- ===== src/Admin/Pages.antt =====
-- apps/frontend/src/pages/AdminBatchesPage.tsx: the filters, the pages and what the page shows of
-- them. The state is that of the component between renders; the total is what the last response
-- gave, 0 before one.
pub mod Laws
pub mod View
use flash_pay.Prelude.{
  ℕ, zero, suc, ◌+◌, ◌-◌, ◌*◌, ◌/◌, ◌≤◌, ◌<◌, min, max, Text, text, ◌≡◌, refl, Bool, true, false,
  ◌&&◌, ◌||◌, not, Option, none, some, List, [], ◌∷◌, ltb, ◌==◌, if◌then◌else◌, text_eq, arith,
}
use flash_pay.Batch.{BatchPaymentStatus, pending, processing, success, failed, same_status}

abbrev pub page_size : ℕ
page_size = 10

-- `Math.max(1, Math.ceil(total / PAGE_SIZE))`. The quotient is rounded to a double, which changes
-- nothing for a total below 2 ^ 49: one that is not whole is a tenth off the next whole number.
unfoldable pub page_count : ℕ → ℕ
page_count total = max 1 ((total + 9) / page_size)

unfoldable pub safe_page : ℕ → ℕ → ℕ
unfolding page_count
safe_page page total = min page (page_count total)

unfoldable pub visible_start : ℕ → ℕ → ℕ
unfolding safe_page
visible_start page total = if total == 0 then 0 else (safe_page page total - 1) * page_size + 1

-- `shown` is the number of batches in the response.
unfoldable pub visible_end : ℕ → ℕ → ℕ → ℕ
unfolding visible_start
visible_end page total shown = if total == 0 then 0 else visible_start page total + shown - 1

-- `all` is none.
pub record Filters : Type 0 where
  pub user_id : Option Text
  pub status : Option BatchPaymentStatus

pub record PageState : Type 0 where
  pub filters : Filters
  pub page : ℕ
  pub total : ℕ

-- The arguments of the query of the state.
pub record BatchesQuery : Type 0 where
  pub limit : ℕ
  pub offset : ℕ
  pub user_id : Option Text
  pub status : Option BatchPaymentStatus

unfoldable pub query_of : PageState → BatchesQuery
query_of s = record {
  limit = page_size;
  offset = (s.page - 1) * page_size;
  user_id = s.filters.user_id;
  status = s.filters.status;
}

pub data PageEvent : Type 0 where
  select_user : Option Text → PageEvent
  select_status : Option BatchPaymentStatus → PageEvent
  prev_page : PageEvent
  next_page : PageEvent
  total_received : ℕ → PageEvent

-- The handlers, each with the effects that run after the render that it causes: a change of a
-- filter sets the page to 1, a page above the page count is set to it.
unfoldable pub clamp : PageState → PageState
unfolding page_count
clamp s = if ltb (page_count s.total) s.page then record s { page = page_count s.total } else s

unfoldable pub same_user : Option Text → Option Text → Bool
same_user none none = true
same_user (some a) (some b) = text_eq a b
same_user _ _ = false

unfoldable pub same_filter : Option BatchPaymentStatus → Option BatchPaymentStatus → Bool
same_filter none none = true
same_filter (some a) (some b) = same_status a b
same_filter _ _ = false

-- The effect of the filters runs where one of them has changed.
unfoldable pub with_filters : PageState → Filters → PageState
unfolding same_user same_filter
with_filters s filters = record s {
  filters = filters;
  page =
      if same_user s.filters.user_id filters.user_id && same_filter s.filters.status filters.status
      then s.page
      else 1;
}

unfoldable pub page_step : PageState → PageEvent → PageState
unfolding clamp with_filters page_count
page_step s (select_user user_id) = clamp (with_filters s (record s.filters { user_id = user_id }))
page_step s (select_status status) = clamp (with_filters s (record s.filters { status = status }))
page_step s prev_page = clamp (record s { page = max 1 (s.page - 1) })
page_step s next_page = clamp (record s { page = min (page_count s.total) (s.page + 1) })
page_step s (total_received total) = clamp (record s { total = total })

unfoldable pub page_steps : PageState → List PageEvent → PageState
unfolding page_step
page_steps s [] = s
page_steps s (event ∷ events) = page_steps (page_step s event) events

abbrev pub first_page : PageState
first_page = record { filters = record { user_id = none; status = none }; page = 1; total = 0 }
