-- ===== src/DiscoverMany.antt =====
-- The members of a target asked for their tools, two at a time (web/src/lib/discover-many.ts).
--
-- A worker of the source runs without a break from one answer to its next call, so a run is a
-- sequence of answers, in any order, with the dialog going stale anywhere between two of them.
pub mod Order
pub mod Stops
mod Tests
use porymcp.Base.{
  ℕ, zero, suc, ◌+◌, ◌-◌, ◌*◌, ◌/◌, ◌%◌, ◌≤◌, ◌<◌, String, ◌≡◌, refl, sym, ap, ap₂, subst, ◌∙◌, ◌≢◌,
  ◌↔◌, ◌⊎◌, inl, inr, Bool, true, false, false≢true, true≢false, not, ◌&&◌, ◌||◌, Option, none,
  some, List, [], ◌∷◌, ◌++◌, map, append-nil, append_assoc, arith, ltb, leb, eqb, if◌then◌else◌,
  eqb_iff, eqb_refl, Bool-cases, Option-cases, Bool-eq, and_parts, or_cases, or_right, not-true,
  or_false, some_inj, not-false, length, take, drop, any, all, filter, find, is_empty, All, or_else,
  length-append, take-append_length, drop-append_length, any-append, any-filter, any_ext,
  All-weaken, All-append, All-middle, All-both, Exists, any_iff, all_iff, is_found, find-any, Text,
  text, ◌==◌, starts_with, join, truthy, or_text, eq_sound, eq_refl, eq_complete, eq_iff,
  starts_with-append, starts_with_rest, trim_end, trim_start, trim, includes, Distinct, SubsetOf,
  SameSet, includes-append, any_of_includes, all_of_includes, all_intro, any_witness, any-SameSet,
  without, includes-without, Distinct-without, length-without, length-SubsetOf, SameSet-of_length,
  decimal,
}
use porymcp.Api.{Discovery, Failure, api_error, unreachable}
use porymcp.Api.Errors.{discovery_error_message}
use porymcp.Catalogue.{Member, MemberCatalogue, loading, failed, idle_member, member_from_discovery}

abbrev pub picker_in_flight : ℕ
picker_in_flight = 2

-- How a call of `discover` settles.
pub data Settled : Type 0 where
  answered : Discovery → Settled
  refused : Failure → Settled

-- `rest` is the members from `next` on, `waiting` those whose call is out, `asked` all calls made
-- and `shown` all reports made, both in order.
pub record Run : Type 0 where
  pub rest : List Member
  pub waiting : List Member
  pub rate_limited : Text
  pub stale : Bool
  pub asked : List Member
  pub shown : List MemberCatalogue

abbrev pub fresh_run : List Member → Run
fresh_run members = record {
  rest = members;
  waiting = [];
  rate_limited = [];
  stale = false;
  asked = [];
  shown = [];
}

abbrev loading_member : Member → MemberCatalogue
loading_member m = record (idle_member m) { state = loading }

-- The head of a worker's loop, up to its next call.
unfoldable pub next_call : List Member → Run → Run
next_call [] r = r
next_call (m ∷ rest) r = if truthy r.rate_limited || r.stale then r else record {
  rest = rest;
  waiting = r.waiting ++ m ∷ [];
  rate_limited = r.rate_limited;
  stale = r.stale;
  asked = r.asked ++ m ∷ [];
  shown = r.shown ++ loading_member m ∷ [];
}

unfoldable pub turn : Run → Run
unfolding next_call
turn r = next_call r.rest r

abbrev pub is_429 : Failure → Bool
is_429 (api_error e) = eqb e.status 429
is_429 unreachable = false

-- What an answer changes, while the dialog is not stale.
unfoldable pub report : Member → Settled → Run → Run
report m (answered d) r = record r { shown = r.shown ++ member_from_discovery m d ∷ [] }
report m (refused err) r =
    if is_429 err
    then record r {
      rate_limited = or_text r.rate_limited (discovery_error_message err);
      shown = r.shown ++ idle_member m ∷ [];
    }
    else record r {
      shown =
          r.shown
          ++ record (idle_member m) { state = failed; error = discovery_error_message err } ∷ [];
    }

-- A worker goes on after its call for `m`; `others` are the calls still out.
unfoldable pub settle_call : Member → List Member → Settled → Run → Run
unfolding turn report
settle_call m others o r =
    let back = record r { waiting = others } in if r.stale then back else turn (report m o back)

-- The workers that a press starts, one after the other.
unfoldable pub start_workers : ℕ → Run → Run
unfolding turn
start_workers zero r = r
start_workers (suc n) r = start_workers n (turn r)

abbrev pub min : ℕ → ℕ → ℕ
min zero b = zero
min (suc a) zero = zero
min (suc a) (suc b) = suc (min a b)

unfoldable pub discover_members : List Member → Run
unfolding start_workers
discover_members members = start_workers (min picker_in_flight (length members)) (fresh_run members)

pub data Step : Run → Run → Type 0 where
  settles :
      {r : Run} (before : List Member) (m : Member) (after : List Member) (o : Settled)
      → r.waiting ≡ before ++ (m ∷ after)
      → Step r (settle_call m (before ++ after) o r)
  goes_stale : {r : Run} → Step r (record r { stale = true })

-- The states that a press on these members can come to.
pub data Reach (members : List Member) : Run → Type 0 where
  pressed : Reach members (discover_members members)
  steps : {r s : Run} → Reach members r → Step r s → Reach members s

-- Any number of steps.
pub data Later (r : Run) : Run → Type 0 where
  now : Later r r
  later : {s t : Run} → Later r s → Step s t → Later r t
