-- ===== src/CursorPages.antt =====
-- The paging rules of the two Logs tables (web/src/lib/cursor-pages.ts).
pub mod Hook
mod Tests
use porymcp.Base.{
  ℕ, zero, suc, ◌+◌, ◌-◌, ◌*◌, ◌/◌, ◌%◌, ◌≤◌, ◌<◌, String, ◌≡◌, refl, sym, ap, ap₂, subst, ◌∙◌, ◌≢◌,
  ◌↔◌, ◌⊎◌, inl, inr, Bool, true, false, false≢true, true≢false, not, ◌&&◌, ◌||◌, Option, none,
  some, List, [], ◌∷◌, ◌++◌, map, append-nil, append_assoc, arith, ltb, leb, eqb, if◌then◌else◌,
  eqb_iff, eqb_refl, Bool-cases, Option-cases, Bool-eq, and_parts, or_cases, or_right, not-true,
  or_false, some_inj, length, take, drop, any, all, filter, find, is_empty, All, or_else,
  length-append, take-append_length, drop-append_length, any-append, any-filter, any_ext, Text,
  text, ◌==◌, starts_with, join, truthy, or_text, eq_sound, eq_refl, eq_complete, eq_iff,
  starts_with-append, starts_with_rest, includes, Distinct, SubsetOf, SameSet, includes-append,
  any_of_includes, all_of_includes, all_intro, any_witness, any-SameSet, without, includes-without,
  Distinct-without, length-without, length-SubsetOf, SameSet-of_length, decimal,
}

pub data PageEnd : Type 0 where
  more last refused : PageEnd

pub record Request : Type 0 where
  pub query : Text
  pub cursor : Text

module _ {ℓ} where
  pub record Pages (T : Type ℓ) : Type ℓ where
    pub query : Option Text
    pub rows : List T
    pub cursor : Text
    pub end : PageEnd

-- A cursor that is not '' says that another page waits.
abbrev pub end_of : Text → PageEnd
end_of [] = last
end_of (c ∷ cursor) = more

abbrev is_more : Option PageEnd → Bool
is_more (some more) = true
is_more _ = false

abbrev same_query : Option Text → Option Text → Bool
same_query none none = true
same_query none (some r) = false
same_query (some q) none = false
same_query (some q) (some r) = q == r

abbrev is_some {ℓ} : {A : Type ℓ} → Option A → Bool
is_some none = false
is_some (some a) = true

unfoldable pub request_of : Option Text → Text → Bool → Option Request
request_of none cursor waits = none
request_of (some q) cursor waits =
    if waits then some (record { query = q; cursor = cursor }) else none

module _ {ℓ} {T : Type ℓ} where
  abbrev pub empty_pages : Pages T
  empty_pages = record { query = none; rows = []; cursor = []; end = last }

  unfoldable pub start_query : Pages T → Pages T
  start_query p = record p { query = none; cursor = []; end = last }

  unfoldable pub first_page : Text → List T → Text → Pages T
  first_page query rows next = record {
    query = some query;
    rows = rows;
    cursor = next;
    end = end_of next;
  }

  unfoldable pub appended : Pages T → List T → Text → Pages T
  appended p rows next = record p { rows = p.rows ++ rows; cursor = next; end = end_of next }

  unfoldable pub after_more_failure : Pages T → Option ℕ → Pages T
  after_more_failure p none = p
  after_more_failure p (some status) =
      if eqb status 400 then record p { cursor = []; end = refused } else p

  unfoldable pub exposed_end : Pages T → Option Text → Option PageEnd
  exposed_end p query = if is_some p.query && same_query p.query query then some p.end else none

  unfoldable pub show_empty : Pages T → Option Text → Bool
  show_empty p query = is_some (exposed_end p query) && is_empty p.rows

  unfoldable pub next_request : Pages T → Option Text → Option Request
  unfolding request_of
  next_request p query = request_of p.query p.cursor (is_more (exposed_end p query))
