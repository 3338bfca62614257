-- ===== src/Admin/Pages/Laws.antt =====
-- AdminBatchesPage.tsx: theorems on the page number and on the range shown.
use flash_pay.Prelude.{ℕ, suc, ◌+◌, ◌-◌, ◌≤◌, ◌<◌, min, max, ◌≡◌, ◌↔◌, List, [], ◌∷◌, arith}
use flash_pay.Admin.Pages.{
  page_count, safe_page, visible_start, visible_end, Filters, PageState, query_of, PageEvent,
  select_user, select_status, prev_page, next_page, total_received, clamp, with_filters, page_step,
  page_steps, first_page,
}

-- The page is one of the pages.
abbrev pub IsWithin : PageState → Type 0
IsWithin s = (1 ≤ s.page) × (s.page ≤ page_count s.total)

page_count-positive : (total : ℕ) → 1 ≤ page_count total
unfolding page_count
page_count-positive total = omega arith

clamp-IsWithin : (s : PageState) → 1 ≤ s.page → IsWithin (clamp s)
unfolding clamp
clamp-IsWithin s h = ground (arith, page_count-positive s.total)

with_filters-positive :
    (s : PageState) (filters : Filters) → 1 ≤ s.page → 1 ≤ (with_filters s filters).page
unfolding with_filters
with_filters-positive s filters h = ground arith

page_step-IsWithin : (s : PageState) (event : PageEvent) → IsWithin s → IsWithin (page_step s event)
unfolding page_step
page_step-IsWithin s (select_user user_id) h =
    clamp-IsWithin (with_filters s (record s.filters { user_id = user_id }))
      (with_filters-positive s (record s.filters { user_id = user_id }) h.0)
page_step-IsWithin s (select_status status) h =
    clamp-IsWithin (with_filters s (record s.filters { status = status }))
      (with_filters-positive s (record s.filters { status = status }) h.0)
page_step-IsWithin s prev_page h =
    clamp-IsWithin (record s { page = max 1 (s.page - 1) }) (omega arith)
page_step-IsWithin s next_page h =
    clamp-IsWithin (record s { page = min (page_count s.total) (s.page + 1) })
      (omega (arith, page_count-positive s.total))
page_step-IsWithin s (total_received total) h = clamp-IsWithin (record s { total = total }) h.0

page_steps_from-IsWithin :
    (s : PageState) (events : List PageEvent) → IsWithin s → IsWithin (page_steps s events)
unfolding page_steps
page_steps_from-IsWithin s [] h = h
page_steps_from-IsWithin s (event ∷ events) h =
    page_steps_from-IsWithin (page_step s event) events (page_step-IsWithin s event h)

-- Whatever filters are chosen, buttons pressed and totals received, in whatever order, the page is
-- at least 1 and at most the page count.
pub page_steps-IsWithin : (events : List PageEvent) → IsWithin (page_steps first_page events)
page_steps-IsWithin events =
    page_steps_from-IsWithin first_page events (omega arith, page_count-positive 0)

-- On one of the pages of a list that is not empty, where the response holds the batches of the
-- query's offset up to its limit, the range shown begins one after that offset, is not empty, ends
-- within the list, and at its end exactly on the last page.
pub visible-range :
    (s : PageState) (shown : ℕ)
    → IsWithin s
    → 0 < s.total
    → shown ≡ min (query_of s).limit (s.total - (query_of s).offset)
    → (visible_start s.page s.total ≡ suc (query_of s).offset)
      × (visible_start s.page s.total ≤ visible_end s.page s.total shown)
      × (visible_end s.page s.total shown ≤ s.total)
      × ((visible_end s.page s.total shown ≡ s.total) ↔ (s.page ≡ page_count s.total))
unfolding query_of visible_start visible_end safe_page page_count
visible-range s shown h positive full = ground arith
