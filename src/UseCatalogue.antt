-- ===== src/UseCatalogue.antt =====
-- The state of a dialog's tool catalogue (web/src/lib/use-catalogue.ts).
--
-- React is represented by the order of its calls: renders with the reset key they are given, the
-- effect that writes `current`, presses, answers of the calls that are out, and the end of a run.
pub mod Runs
pub mod Slot
pub mod Shown
mod Tests
use porymcp.Base.{
  ℕ, zero, suc, ◌+◌, ◌-◌, ◌*◌, ◌/◌, ◌%◌, ◌≤◌, ◌<◌, String, ◌≡◌, refl, sym, ap, ap₂, subst, ◌∙◌, ◌≢◌,
  ◌↔◌, ◌⊎◌, inl, inr, Bool, true, false, false≢true, true≢false, not, ◌&&◌, ◌||◌, Option, none,
  some, List, [], ◌∷◌, ◌++◌, map, append-nil, append_assoc, arith, ltb, leb, eqb, if◌then◌else◌,
  eqb_iff, eqb_refl, Bool-cases, Option-cases, Bool-eq, and_parts, or_cases, or_right, not-true,
  or_false, some_inj, not-false, length, take, drop, any, all, filter, find, is_empty, All, or_else,
  length-append, take-append_length, drop-append_length, any-append, any-filter, any_ext,
  All-weaken, All-append, All-middle, All-both, Exists, any_iff, all_iff, is_found, find-any, Text,
  text, ◌==◌, starts_with, join, truthy, or_text, eq_sound, eq_refl, eq_complete, eq_iff,
  starts_with-append, starts_with_rest, trim_end, trim_start, trim, includes, Distinct, SubsetOf,
  SameSet, includes-append, any_of_includes, all_of_includes, all_intro, any_witness, any-SameSet,
  without, includes-without, Distinct-without, length-without, length-SubsetOf, SameSet-of_length,
  digits_onto, decimal,
}
use porymcp.Catalogue.{Member, MemberCatalogue, idle_member}
use porymcp.DiscoverMany.{
  Run, Settled, settle_call, start_workers, picker_in_flight, fresh_run, min,
}

-- A call of discoverMembers that has not settled, with the reset key it started under.
pub record Going : Type 0 where
  pub started : ℕ
  pub run : Run

-- `seen_key` is the reset key of the last render; `by_id` has the last report of a member first.
pub record CatalogueHook : Type 0 where
  pub seen_key : ℕ
  pub by_id : List MemberCatalogue
  pub rate_limited : Text
  pub current : ℕ
  pub running : Option ℕ
  pub runs : List Going

abbrev pub mounted : ℕ → CatalogueHook
mounted key = record {
  seen_key = key;
  by_id = [];
  rate_limited = [];
  current = key;
  running = none;
  runs = [];
}

unfoldable pub render : ℕ → CatalogueHook → CatalogueHook
render key h =
    if eqb h.seen_key key then h else record h { seen_key = key; by_id = []; rate_limited = [] }

abbrev pub write_current : CatalogueHook → CatalogueHook
write_current h = record h { current = h.seen_key }

abbrev pub entry_of_member : Option MemberCatalogue → Member → MemberCatalogue
entry_of_member none m = idle_member m
entry_of_member (some e) m = record e { member = m }

unfoldable pub catalogue_of : List MemberCatalogue → List Member → List MemberCatalogue
catalogue_of by_id members =
    map (λ m. entry_of_member (find (λ e. e.upstream_id == m.upstream_id) by_id) m) members

-- Reports that were made after the first `seen` of a run, each put over the earlier ones.
unfoldable pub put_reports : List MemberCatalogue → List MemberCatalogue → List MemberCatalogue
put_reports by_id [] = by_id
put_reports by_id (m ∷ ms) = put_reports (m ∷ by_id) ms

abbrev pub key_is : Option ℕ → ℕ → Bool
key_is none key = false
key_is (some k) key = eqb k key

-- `stale()` of a run, as it is asked at this time.
abbrev pub as_of : CatalogueHook → Going → Run
as_of h g = record g.run { stale = not (eqb h.current g.started) }

abbrev pub targets : Text → List Member → List Member
targets upstream_id members =
    if truthy upstream_id then filter (λ m. m.upstream_id == upstream_id) members else members

abbrev pub opened : CatalogueHook → Text → List Member → Going
opened h upstream_id members =
    let chosen = targets upstream_id members in
    record {
      started = h.seen_key;
      run =
          start_workers (min picker_in_flight (length chosen))
            (record (fresh_run chosen) { stale = not (eqb h.current h.seen_key) });
    }

abbrev pub with_run : CatalogueHook → Going → CatalogueHook
with_run h g = record h {
  running = some g.started;
  rate_limited = [];
  by_id = put_reports h.by_id g.run.shown;
  runs = h.runs ++ g ∷ [];
}

unfoldable pub load : Text → List Member → CatalogueHook → CatalogueHook
unfolding put_reports
load upstream_id members h =
    if key_is h.running h.seen_key then h else with_run h (opened h upstream_id members)

abbrev pub with_answer : List Going → Going → List Going → Run → Run → CatalogueHook → CatalogueHook
with_answer before g after r s h = record h {
  by_id = put_reports h.by_id (drop (length r.shown) s.shown);
  runs = before ++ record g { run = s } ∷ after;
}

-- The answer of one call of a run; `others` are the run's calls that are still out.
unfoldable pub answer :
    List Going → Going → List Going → Member → List Member → Settled → CatalogueHook → CatalogueHook
unfolding put_reports
answer before g after m others o h =
    with_answer before g after g.run (settle_call m others o (as_of h g)) h

-- `.then` and `.finally` of a run whose workers have ended.
unfoldable pub finish : List Going → Going → List Going → CatalogueHook → CatalogueHook
finish before g after h = record h {
  rate_limited = if (as_of h g).stale then h.rate_limited else g.run.rate_limited;
  running = if key_is h.running g.started then none else h.running;
  runs = before ++ after;
}

-- The reset key is the dialog's open count, so it never goes back.
pub data Step : CatalogueHook → CatalogueHook → Type 0 where
  renders : {h : CatalogueHook} (key : ℕ) → h.seen_key ≤ key → Step h (render key h)
  writes : {h : CatalogueHook} → Step h (write_current h)
  presses :
      {h : CatalogueHook} (upstream_id : Text) (members : List Member)
      → Step h (load upstream_id members h)
  answers :
      {h : CatalogueHook} (before : List Going) (g : Going) (after : List Going)
      (first : List Member) (m : Member) (last : List Member) (o : Settled)
      → h.runs ≡ before ++ (g ∷ after)
      → g.run.waiting ≡ first ++ (m ∷ last)
      → Step h (answer before g after m (first ++ last) o h)
  finishes :
      {h : CatalogueHook} (before : List Going) (g : Going) (after : List Going)
      → h.runs ≡ before ++ (g ∷ after)
      → g.run.waiting ≡ []
      → Step h (finish before g after h)

pub data Reach : CatalogueHook → Type 0 where
  mounts : (key : ℕ) → Reach (mounted key)
  steps : {h k : CatalogueHook} → Reach h → Step h k → Reach k
