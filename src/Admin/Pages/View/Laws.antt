-- ===== src/Admin/Pages/View/Laws.antt =====
-- AdminBatchesPage.tsx: the buttons of the pages, and what they do.
use flash_pay.Prelude.{
  ℕ, ◌<◌, ◌≡◌, ◌↔◌, refl, Bool, true, ◌||◌, List, [], ◌∷◌, ltb, leb, ◌==◌, arith,
}
use flash_pay.Prelude.Html.Controls.{disabled_flags}
use flash_pay.Admin.Pages.{
  page_count, safe_page, clamp, PageState, PageEvent, prev_page, next_page, page_step, page_steps,
  first_page,
}
use flash_pay.Admin.Pages.Laws.{IsWithin, page_steps-IsWithin}
use flash_pay.Admin.Pages.View.{pagination}

shown : (count total : ℕ) → 0 < total → (ltb 1 count || ltb 0 total) ≡ true
shown count total some_total = ground arith

first_iff :
    (s : PageState)
    → IsWithin s
    → 0 < s.total
    → (((safe_page s.page s.total == 1) || (s.total == 0)) ≡ true)
      ↔ ((page_step s prev_page).page ≡ s.page)
unfolding page_step clamp safe_page
first_iff s within some_total = ground arith

last_iff :
    (s : PageState)
    → IsWithin s
    → 0 < s.total
    → ((leb (page_count s.total) (safe_page s.page s.total) || (s.total == 0)) ≡ true)
      ↔ ((page_step s next_page).page ≡ s.page)
unfolding page_step clamp safe_page
last_iff s within some_total = ground arith

flags_of_pagination :
    (page total : ℕ)
    → 0 < total
    → disabled_flags (pagination page total)
      ≡ ((safe_page page total == 1) || (total == 0))
        ∷ (leb (page_count total) (safe_page page total) || (total == 0))
        ∷ []
unfolding disabled_flags pagination
flags_of_pagination page total some_total = rw (shown (page_count total) total some_total) refl

-- After any events, where the list is not empty, there are the buttons of the previous and the
-- next page, and each is disabled exactly where it would leave the page as it is.
pub pagination-page_step :
    (events : List PageEvent)
    → let s = page_steps first_page events in
      0 < s.total
      → (is_first : Bool) × (is_last : Bool) × (disabled_flags (pagination s.page s.total)
          ≡ is_first ∷ is_last ∷ [])
        × ((is_first ≡ true) ↔ ((page_step s prev_page).page ≡ s.page))
        × ((is_last ≡ true) ↔ ((page_step s next_page).page ≡ s.page))
pagination-page_step events some_total =
    let s = page_steps first_page events in
    let within = page_steps-IsWithin events in
    (
      (safe_page s.page s.total == 1) || (s.total == 0),
      leb (page_count s.total) (safe_page s.page s.total) || (s.total == 0),
      flags_of_pagination s.page s.total some_total,
      first_iff s within some_total,
      last_iff s within some_total,
    )
