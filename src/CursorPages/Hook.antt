-- ===== src/CursorPages/Hook.antt =====
-- One paged table: its state, the requests in flight, and every event that changes them
-- (web/src/lib/use-cursor-pages.ts). The path is fixed, as each table's is.
pub mod Walk
pub mod Invariant
pub mod Settled
pub mod Reached
use porymcp.Base.{
  ℕ, zero, suc, ◌+◌, ◌-◌, ◌*◌, ◌/◌, ◌%◌, ◌≤◌, ◌<◌, String, ◌≡◌, refl, sym, ap, ap₂, subst, ◌∙◌, ◌≢◌,
  ◌↔◌, ◌⊎◌, inl, inr, Bool, true, false, false≢true, true≢false, not, ◌&&◌, ◌||◌, Option, none,
  some, List, [], ◌∷◌, ◌++◌, map, append-nil, append_assoc, arith, ltb, leb, eqb, if◌then◌else◌,
  eqb_iff, eqb_refl, Bool-cases, Option-cases, Bool-eq, and_parts, or_cases, or_right, not-true,
  or_false, some_inj, length, take, drop, any, all, filter, find, is_empty, All, or_else,
  length-append, take-append_length, drop-append_length, any-append, any-filter, any_ext, Text,
  text, ◌==◌, starts_with, join, truthy, or_text, eq_sound, eq_refl, eq_complete, eq_iff,
  starts_with-append, starts_with_rest, includes, Distinct, SubsetOf, SameSet, includes-append,
  any_of_includes, all_of_includes, all_intro, any_witness, any-SameSet, without, includes-without,
  Distinct-without, length-without, length-SubsetOf, SameSet-of_length, decimal,
}
use porymcp.Api.{Failure, api_error, unreachable, ApiError}
use porymcp.Api.Errors.{list_error_message}
use porymcp.CursorPages.{
  Pages, Request, empty_pages, start_query, first_page, appended, after_more_failure, next_request,
}

-- The two fields of an answer's body that the hook reads: the rows, if they are an array, and the
-- cursor, if it is a string.
pub record Body (T : Type 0) : Type 0 where
  pub rows : Option (List T)
  pub next_cursor : Option Text

pub data Outcome (T : Type 0) : Type 0 where
  resolved : Body T → Outcome T
  rejected : Failure → Outcome T

pub data Asked : Type 0 where
  first : Text → Asked
  load_more : Request → Asked

-- A request in flight, with the generation that it was sent in. Its signal is that generation's.
pub record Pending : Type 0 where
  pub mine : ℕ
  pub asked : Asked

-- `live` is the `query` of the last render, `ran` the one that the effect last ran for.
pub record Hook (T : Type 0) : Type 0 where
  pub pages : Pages T
  pub error : Text
  pub more_error : Text
  pub busy : Bool
  pub seq : ℕ
  pub in_flight : Bool
  pub next : Option Request
  pub live : Option Text
  pub ran : Option (Option Text)
  pub mounted : Bool
  pub pending : List Pending

abbrev pub send_first : ℕ → Option Text → List Pending → List Pending
send_first mine none pending = pending
send_first mine (some q) pending = pending ++ record { mine = mine; asked = first q } ∷ []

abbrev pub more_left : Text → Text → Option Request
more_left query [] = none
more_left query (c ∷ cursor) = some (record { query = query; cursor = c ∷ cursor })

abbrev pub status_of : Failure → Option ℕ
status_of (api_error e) = some e.status
status_of unreachable = none

abbrev pub after_status : Option ℕ → Option Request → Option Request
after_status none next = next
after_status (some status) next = if eqb status 400 then none else next

module _ {T : Type 0} where
  abbrev pub start : Option Text → Hook T
  start query = record {
    pages = empty_pages;
    error = [];
    more_error = [];
    busy = false;
    seq = 0;
    in_flight = false;
    next = none;
    live = query;
    ran = none;
    mounted = true;
    pending = [];
  }

  unfoldable pub rows_of : Body T → List T
  rows_of body = or_else body.rows []

  unfoldable pub cursor_of : Body T → Text
  cursor_of body = or_else body.next_cursor []

  -- The effect of [path, query]. The cleanup of the one before aborts its generation's signal.
  unfoldable pub run_effect : Hook T → Hook T
  run_effect s = record s {
    pages = start_query s.pages;
    error = [];
    more_error = [];
    busy = false;
    seq = suc s.seq;
    in_flight = false;
    next = none;
    ran = some s.live;
    pending = send_first (suc s.seq) s.live s.pending;
  }

  -- `loadMore`.
  unfoldable pub press_with : Option Request → Bool → Hook T → Hook T
  press_with none in_flight s = s
  press_with (some req) true s = s
  press_with (some req) false s = record s {
    in_flight = true;
    busy = true;
    more_error = [];
    pending = s.pending ++ record { mine = s.seq; asked = load_more req } ∷ [];
  }

  unfoldable pub press : Hook T → Hook T
  unfolding press_with
  press s = press_with s.next s.in_flight s

  -- `signal.aborted || seq.current !== mine`.
  abbrev pub is_stale : Pending → Hook T → Bool
  is_stale p s = not s.mounted || not (eqb s.seq p.mine)

  -- `slow` is the table's sentence of SLOW_QUERY.
  unfoldable pub apply_answer : Text → Asked → Outcome T → Hook T → Hook T
  apply_answer slow (first q) (resolved body) s =
      let p = first_page q (rows_of body) (cursor_of body) in
      record s { next = next_request p (some q); pages = p }
  apply_answer slow (first q) (rejected err) s = record s { error = list_error_message err slow }
  apply_answer slow (load_more req) (resolved body) s = record s {
    pages = appended s.pages (rows_of body) (cursor_of body);
    next = more_left req.query (cursor_of body);
    in_flight = false;
    busy = false;
  }
  apply_answer slow (load_more req) (rejected err) s = record s {
    more_error = list_error_message err slow;
    pages = after_more_failure s.pages (status_of err);
    next = after_status (status_of err) s.next;
    in_flight = false;
    busy = false;
  }

  unfoldable pub settle : Text → Pending → Outcome T → Hook T → Hook T
  unfolding apply_answer
  settle slow p outcome s = if is_stale p s then s else apply_answer slow p.asked outcome s
