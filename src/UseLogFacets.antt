-- ===== src/UseLogFacets.antt =====
-- The facet lists of the Logs page (web/src/lib/use-log-facets.ts).
--
-- React is represented by the order of its calls: renders with their facet query, the effects
-- after a render, the end of a wait, and the answers of the requests in flight. Any of them may
-- come between a render and its effects.

pub mod Requests
pub mod Shown
mod Tests
use porymcp.Base.{
  ℕ, zero, suc, ◌+◌, ◌-◌, ◌*◌, ◌/◌, ◌%◌, ◌≤◌, ◌<◌, String, ◌≡◌, refl, sym, ap, ap₂, subst, ◌∙◌, ◌≢◌,
  ◌↔◌, ◌⊎◌, inl, inr, Bool, true, false, false≢true, true≢false, not, ◌&&◌, ◌||◌, Option, none,
  some, List, [], ◌∷◌, ◌++◌, map, append-nil, append_assoc, arith, ltb, leb, eqb, if◌then◌else◌,
  eqb_iff, eqb_refl, Bool-cases, Option-cases, Bool-eq, and_parts, or_cases, or_right, not-true,
  or_false, some_inj, not-false, length, take, drop, any, all, filter, find, is_empty, All, or_else,
  length-append, take-append_length, drop-append_length, any-append, any-filter, any_ext,
  All-weaken, All-append, All-middle, All-insert, All-both, Exists, any_iff, all_iff, is_found,
  find-any, Text, text, ◌==◌, starts_with, join, truthy, or_text, eq_sound, eq_refl, eq_complete,
  eq_iff, starts_with-append, starts_with_rest, trim_end, trim_start, trim, includes, Distinct,
  SubsetOf, SameSet, includes-append, any_of_includes, all_of_includes, all_intro, any_witness,
  any-SameSet, without, includes-without, Distinct-without, length-without, length-SubsetOf,
  SameSet-of_length, digits_onto, decimal,
}
use porymcp.Api.{Failure}
use porymcp.Api.Errors.{list_error_message}
use porymcp.LogsView.Options.{LogFacets, FacetAnswer, facet_fetch_due, same_query}

abbrev pub slow_facets : Text
slow_facets =
    text
      "Counting the calls in this period took too long. Choose a shorter period or a virtual key."

-- What the effects read of a render.
pub record Inputs : Type 0 where
  pub fq : Option Text
  pub list_answered : Bool
  pub waited : Bool

-- An AbortController is a number of its own.
pub record Held : Type 0 where
  pub fq : Text
  pub ctrl : ℕ

pub record Request : Type 0 where
  pub fq : Text
  pub ctrl : ℕ
  pub aborted : Bool

-- `ran` is what the effects read when they last ran, `timer` the query that is waited for.
pub record FacetHook : Type 0 where
  pub shown : Inputs
  pub ran : Option Inputs
  pub held : Option Held
  pub answer : Option FacetAnswer
  pub waited_for : Option Text
  pub timer : Option Text
  pub requests : List Request
  pub next_ctrl : ℕ

abbrev pub mounted : Option Text → Bool → FacetHook
mounted fq list_answered = record {
  shown = record { fq = fq; list_answered = list_answered; waited = false };
  ran = none;
  held = none;
  answer = none;
  waited_for = none;
  timer = none;
  requests = [];
  next_ctrl = 0;
}

abbrev pub render : Option Text → Bool → FacetHook → FacetHook
render fq list_answered s = record s {
  shown = record {
    fq = fq;
    list_answered = list_answered;
    waited = is_found fq && same_query s.waited_for fq;
  };
}

abbrev pub abort : Held → Request → Request
abort h r = record r { aborted = eqb r.ctrl h.ctrl || r.aborted }

abbrev pub abort_held : Option Held → List Request → List Request
abort_held none rs = rs
abort_held (some h) rs = map (abort h) rs

-- The clean-up of the effect on the query.
abbrev pub clean_up : FacetHook → FacetHook
clean_up s = record s {
  held = none;
  waited_for = none;
  timer = none;
  requests = abort_held s.held s.requests;
}

abbrev pub same_flag : Bool → Bool → Bool
same_flag true b = b
same_flag false b = not b

abbrev pub same_fq : Option Inputs → Inputs → Bool
same_fq none i = false
same_fq (some o) i = same_query o.fq i.fq

abbrev pub same_inputs : Option Inputs → Inputs → Bool
same_inputs none i = false
same_inputs (some o) i =
    same_query o.fq i.fq && same_flag o.list_answered i.list_answered && same_flag o.waited i.waited

unfoldable pub query_effect : FacetHook → FacetHook
query_effect s = if same_fq s.ran s.shown then s else record (clean_up s) { timer = s.shown.fq }

abbrev pub held_fq : Option Held → Option Text
held_fq none = none
held_fq (some h) = some h.fq

abbrev pub send : Text → FacetHook → FacetHook
send fq s = record s {
  held = some (record { fq = fq; ctrl = s.next_ctrl });
  requests = s.requests ++ record { fq = fq; ctrl = s.next_ctrl; aborted = false } ∷ [];
  next_ctrl = suc s.next_ctrl;
}

abbrev pub send_for : Option Text → FacetHook → FacetHook
send_for none s = s
send_for (some fq) s = send fq s

abbrev pub is_due : FacetHook → Bool
is_due s = facet_fetch_due (held_fq s.held) s.shown.fq s.shown.list_answered s.shown.waited

unfoldable pub fetch_effect : FacetHook → FacetHook
fetch_effect s =
    if same_inputs s.ran s.shown then s else (if is_due s then send_for s.shown.fq s else s)

unfoldable pub run_effects : FacetHook → FacetHook
unfolding query_effect fetch_effect
run_effects s = record (fetch_effect (query_effect s)) { ran = some s.shown }

-- The wait is over.
abbrev pub wait_ends : Text → FacetHook → FacetHook
wait_ends fq s = record s { waited_for = some fq; timer = none }

-- How a request settles.
pub data Outcome : Type 0 where
  counts : LogFacets → Outcome
  fails : Failure → Outcome

abbrev pub answer_of : Text → Outcome → FacetAnswer
answer_of fq (counts facets) = record { fq = fq; facets = some facets; error = [] }
answer_of fq (fails err) = record {
  fq = fq;
  facets = none;
  error = list_error_message err slow_facets;
}

unfoldable pub settle_facets :
    List Request → Request → List Request → Outcome → FacetHook → FacetHook
settle_facets before r after o s = record s {
  answer = if r.aborted then s.answer else some (answer_of r.fq o);
  requests = before ++ after;
}

-- `Served fq o` says that the server may answer `o` to a query.
module _ (Served : Text → Outcome → Type 0) where
  pub data Step : FacetHook → FacetHook → Type 0 where
    renders :
        {s : FacetHook} (fq : Option Text) (list_answered : Bool)
        → Step s (render fq list_answered s)
    effects : {s : FacetHook} → Step s (run_effects s)
    waits : {s : FacetHook} (fq : Text) → s.timer ≡ some fq → Step s (wait_ends fq s)
    answers :
        {s : FacetHook} (before : List Request) (r : Request) (after : List Request) (o : Outcome)
        → s.requests ≡ before ++ (r ∷ after)
        → Served r.fq o
        → Step s (settle_facets before r after o s)

  pub data Reach : FacetHook → Type 0 where
    mounts : (fq : Option Text) (list_answered : Bool) → Reach (mounted fq list_answered)
    steps : {s t : FacetHook} → Reach s → Step s t → Reach t
