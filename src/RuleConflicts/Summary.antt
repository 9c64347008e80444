-- ===== src/RuleConflicts/Summary.antt =====
-- What a key's group does, and what a prefix reaches (groupFilterSummary, groupBlocks and
-- prefixMatches of web/src/lib/rule-conflicts.ts).
use porymcp.Base.{
  ◌+◌, ◌≡◌, refl, sym, ap, ap₂, ◌∙◌, ◌≢◌, ◌↔◌, inl, inr, Bool, true, false, true≢false, not, ◌||◌,
  List, [], ◌∷◌, ◌++◌, map, eqb, Bool-cases, length, any, filter, is_empty, Text,
}
use porymcp.ToolEntry.{DiscoveredTool, match_tool_entry, scoped_tool_name, FilterForm}
use porymcp.ToolFilter.{ParsedFilter, no_filter, filtered, unreadable, parse_tool_filter}
use porymcp.ToolFilter.Defs.{filter_admits_nothing, is_allow_mode}
use porymcp.ToolFilter.Problem.{filter_admits_nothing-filter_permits}
use porymcp.Api.{Group}
use porymcp.Catalogue.{Catalogue, catalogue_complete, advertised}
use porymcp.Catalogue.Verdicts.{Complete, ReachesAny, catalogue_complete_iff, advertised_iff}
use porymcp.RuleConflicts.{prefix_matches, matched_names, all_matched}
use porymcp.RuleConflicts.Groups.{
  zinc, pink, filter_summary, parsed_summary, group_filter_summary, parsed_blocks, group_blocks,
}

pink_filter :
    (name : Text) (f : FilterForm)
    → (filter_summary name f).tone ≡ pink
    → filter_admits_nothing f ≢ []
unfolding filter_summary
pink_filter name f h none_said = elim (Bool-cases (eqb (length f.tools + length f.prefixes) 0)) [
  | inl lists_none ↦ zinc≢pink (rw (none_said, lists_none) at h)
  | inr lists_some ↦ elim (Bool-cases (is_allow_mode f.mode)) [
    | inl allows ↦ zinc≢pink (rw (none_said, lists_some, allows) at h)
    | inr denies ↦ zinc≢pink (rw (none_said, lists_some, denies) at h)
  ]
]
  where
    zinc≢pink : zinc ≢ pink
    zinc≢pink h = cc

-- A summary is pink, where the server did not call the filter malformed, only of a group that
-- refuses every tool.
pub group_filter_summary-group_blocks :
    (g : Group) (lists_above : Bool)
    → (group_filter_summary g lists_above false).tone ≡ pink
    → (slug name : Text) → group_blocks g slug name ≡ true
unfolding group_filter_summary parsed_summary group_blocks
group_filter_summary-group_blocks g lists_above h slug name = go (parse_tool_filter g.tool_filter) h
  where
    go :
        (p : ParsedFilter)
        → (parsed_summary g.name lists_above false p).tone ≡ pink
        → parsed_blocks p slug name ≡ true
    go (unreadable t) h = refl
    go no_filter h = cc
    go (filtered f) h =
        rw (filter_admits_nothing-filter_permits f (pink_filter g.name f h) slug name) refl

all_matched_empty :
    (p : Text) (c : Catalogue) → not (is_empty (all_matched p c)) ≡ advertised p true c
unfolding advertised
all_matched_empty p [] = refl
all_matched_empty p (m ∷ c) =
    empty_append (matched_names p m) (all_matched p c)
    ∙ ap₂ (λ a b. a || b) (matched m.tools) (all_matched_empty p c)
  where
    empty_append :
        (a b : List Text) → not (is_empty (a ++ b)) ≡ (not (is_empty a) || not (is_empty b))
    empty_append [] b = refl
    empty_append (x ∷ a) b = refl

    matched :
        (ts : List DiscoveredTool)
        → not (
            is_empty (
              map
                (λ (t : DiscoveredTool). scoped_tool_name m.slug t.name)
                (filter (λ (t : DiscoveredTool). match_tool_entry p m.slug t.name true) ts)))
          ≡ any (λ (t : DiscoveredTool). match_tool_entry p m.slug t.name true) ts
    matched [] = refl
    matched (t ∷ ts) = elim (Bool-cases (match_tool_entry p m.slug t.name true)) [
      | inl reached ↦ rw reached refl
      | inr missed ↦ rw missed (matched ts)
    ]

-- A prefix has tools listed beside it exactly when every member answered with its whole catalogue
-- and the prefix reaches one of their tools.
pub prefix_matches_iff :
    (p : Text) (c : Catalogue) → (prefix_matches p c ≢ []) ↔ (Complete c × ReachesAny true p c)
unfolding prefix_matches
prefix_matches_iff p c = elim (Bool-cases (catalogue_complete c)) [
  | inr partly ↦ rw partly (
    λ n. absurd (n refl),
    λ k. absurd (true≢false (sym ((catalogue_complete_iff c).1 k.0) ∙ partly)),
  )
  | inl full ↦ rw full (
    λ n. (
      (catalogue_complete_iff c).0 full,
      (advertised_iff p true c).0 (sym (all_matched_empty p c) ∙ has_one (all_matched p c) n),
    ),
    λ k e. true≢false (
        sym ((advertised_iff p true c).1 k.1)
        ∙ sym (all_matched_empty p c)
        ∙ ap (λ l. not (is_empty l)) e),
  )
]
  where
    has_one : (l : List Text) → l ≢ [] → not (is_empty l) ≡ true
    has_one [] n = absurd (n refl)
    has_one (x ∷ l) n = refl
