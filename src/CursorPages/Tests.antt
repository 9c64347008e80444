-- ===== src/CursorPages/Tests.antt =====
-- A walk of two pages through a paged table, and its theorems on that run.
use porymcp.Base.{ℕ, ◌≤◌, ◌≡◌, refl, ◌⊎◌, none, some, [], ◌∷◌, arith, Text}
use porymcp.CursorPages.{
  last, refused, end_of, exposed_end, start_query, first_page, appended, next_request, request_of,
}
use porymcp.CursorPages.Hook.{
  Body, resolved, first, load_more, Pending, Hook, start, run_effect, press, press_with, settle,
  apply_answer, rows_of, cursor_of,
}
use porymcp.CursorPages.Hook.Walk.{Walk, effect, pressed, answered, Reach, here, next}
use porymcp.CursorPages.Hook.Invariant.{in_generation}
use porymcp.CursorPages.Hook.Reached.{Reach-Walk, Reach-in_generation}

abbrev errors_query : Text
errors_query = b'e' ∷ []

abbrev page_cursor : Text
page_cursor = b'c' ∷ []

abbrev body_one : Body ℕ
body_one = record { rows = some (1 ∷ 2 ∷ []); next_cursor = some page_cursor }

abbrev body_two : Body ℕ
body_two = record { rows = some (3 ∷ []); next_cursor = none }

data Served : Text → Text → Body ℕ → Type 0 where
  served_one : Served errors_query [] body_one
  served_two : Served errors_query page_cursor body_two

abbrev ask_one : Pending
ask_one = record { mine = 1; asked = first errors_query }

abbrev ask_two : Pending
ask_two = record {
  mine = 1;
  asked = load_more (record { query = errors_query; cursor = page_cursor });
}

abbrev sent_one : Hook ℕ
sent_one = run_effect (start (some errors_query))

abbrev have_one : Hook ℕ
have_one = settle [] ask_one (resolved body_one) (record sent_one { pending = [] })

abbrev sent_two : Hook ℕ
sent_two = press have_one

abbrev have_two : Hook ℕ
have_two = settle [] ask_two (resolved body_two) (record sent_two { pending = [] })

two_pages : Reach Served [] (start (some errors_query)) have_two
unfolding run_effect settle apply_answer press press_with first_page next_request request_of rows_of
    cursor_of exposed_end
two_pages =
    next
      (next
        (next (next here (effect (start (some errors_query)) refl (λ e. ground arith)))
          (answered sent_one [] [] ask_one (resolved body_one) refl served_one))
        (pressed have_one))
      (answered sent_two [] [] ask_two (resolved body_two) refl served_two)

shows_last : exposed_end have_two.pages have_two.live ≡ some last
unfolding run_effect settle apply_answer press press_with first_page next_request request_of rows_of
    cursor_of appended exposed_end start_query
shows_last = refl

Reach-Walk_example :
    (q : Text) × (have_two.live ≡ some q)
    × (c : Text) × Walk Served q have_two.pages.rows c
    × ((last ≡ refused) ⊎ (last ≡ end_of c))
Reach-Walk_example = Reach-Walk Served last two_pages shows_last

Reach-in_generation_example : in_generation have_two.seq have_two.pending ≤ 1
Reach-in_generation_example = Reach-in_generation Served two_pages
