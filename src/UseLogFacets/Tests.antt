-- ===== src/UseLogFacets/Tests.antt =====
-- A page whose rows answer, and whose facets are then counted.
use porymcp.Base.{◌≤◌, ◌≡◌, refl, true, false, some, [], Text, text}
use porymcp.LogsView.Options.{LogFacets, facets_for, facet_fetch_due}
use porymcp.UseLogFacets.{
  FacetHook, Request, mounted, render, run_effects, query_effect, fetch_effect, Outcome, counts,
  settle_facets, Reach, effects, renders, answers, mounts, steps, held_fq,
}
use porymcp.UseLogFacets.Requests.{live, Reach-live, run_effects-held}
use porymcp.UseLogFacets.Shown.{IsFor, Reach-IsFor}

-- A server that has no counts for anything.
abbrev no_counts : LogFacets
no_counts = record { methods = []; tools = []; statuses = []; truncated = false }

abbrev Served : Text → Outcome → Type 0
Served fq o = o ≡ counts no_counts

abbrev answered_rows : FacetHook
answered_rows = render (some (text "since=1")) true (mounted (some (text "since=1")) false)

rows-Reach : Reach Served answered_rows
rows-Reach = steps (mounts (some (text "since=1")) false) (renders (some (text "since=1")) true)

abbrev asked : FacetHook
asked = run_effects answered_rows

asked-Reach : Reach Served asked
asked-Reach = steps rows-Reach effects

Reach-live_example : live asked.requests ≤ 1
Reach-live_example = Reach-live Served asked asked-Reach

run_effects-held_example : held_fq asked.held ≡ some (text "since=1")
run_effects-held_example =
    run_effects-held Served answered_rows (text "since=1") rows-Reach refl refl

-- The counts arrive.
abbrev sent : Request
sent = record { fq = text "since=1"; ctrl = 0; aborted = false }

abbrev counted : FacetHook
counted = settle_facets [] sent [] (counts no_counts) asked

counted-Reach : Reach Served counted
unfolding run_effects query_effect fetch_effect facet_fetch_due text
counted-Reach = steps asked-Reach (answers [] sent [] (counts no_counts) refl refl)

Reach-IsFor_example : IsFor Served counted.shown.fq (facets_for counted.answer counted.shown.fq)
Reach-IsFor_example = Reach-IsFor Served counted counted-Reach
