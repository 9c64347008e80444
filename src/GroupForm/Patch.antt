-- ===== src/GroupForm/Patch.antt =====
-- What a save of the group form sends (groupPatchBody and groupSaveBlocked of
-- web/src/lib/group-form.ts).
use porymcp.Base.{
  ◌≡◌, refl, ap, ◌∙◌, ◌≢◌, ◌↔◌, inr, true, false, not, some, List, [], arith, eqb_refl, and_parts,
  not-false, length, or_else, Text, text, eq_refl, trim, includes, Distinct, all_intro,
}
use porymcp.Json.Members.{end}
use porymcp.ToolEntry.{FilterForm, unset, filter_permits, permits_under}
use porymcp.ToolFilter.{ParsedFilter, no_filter, filtered, unreadable, parse_tool_filter}
use porymcp.ToolFilter.Defs.{filter_value, filter_problem, same_filter, blank_filter_form}
use porymcp.ToolFilter.Meaning.{same_filter_iff, same_filter-filter_permits}
use porymcp.ToolFilter.Problem.{filter_problem-round_trip}
use porymcp.Api.{Group}
use porymcp.RuleConflicts.Groups.{group_blocks, parsed_blocks}
use porymcp.GroupForm.{
  GroupForm, form_from_group, same_members, sends_filter, sends_over, group_patch_body,
  group_save_blocked, seed_filter,
}

same_filter_refl : (f : FilterForm) → same_filter f f ≡ true
same_filter_refl f = (same_filter_iff f f).1 (inr (refl, λ e. refl, λ e. refl))

same_members_refl : (xs : List Text) → same_members xs xs ≡ true
unfolding same_members
same_members_refl xs = rw (eqb_refl (length xs)) (all_intro (includes xs) xs (λ e h. h))

untouched : (g : Group) → sends_filter g (form_from_group g) ≡ false
unfolding sends_filter form_from_group
untouched g = go (parse_tool_filter g.tool_filter)
  where
    go :
        (p : ParsedFilter)
        → sends_over p (record (form_from_group g) { filter = seed_filter p }) ≡ false
    go no_filter = rw (same_filter_refl blank_filter_form) refl
    go (filtered f) = rw (same_filter_refl f) refl
    go (unreadable t) = refl

-- A group form that was opened and not touched sends nothing, where the stored name has no
-- space around it.
pub group_patch_body-form_from_group :
    (g : Group) → trim g.name ≡ g.name → group_patch_body g (form_from_group g) ≡ end
unfolding group_patch_body form_from_group
group_patch_body-form_from_group g h =
    rw
      (
        h,
        eq_refl g.name,
        eq_refl (or_else g.description []),
        same_members_refl g.upstream_ids,
        untouched g,
      )
      refl

-- Where the stored filter can be read, a PATCH leaves tool_filter out only while the form's
-- filter refuses the very tools that the group refuses.
pub sends_filter-group_blocks :
    (before : Group) (f : GroupForm)
    → sends_filter before f ≡ false
    → ((t : Text) → parse_tool_filter before.tool_filter ≢ unreadable t)
    → (slug name : Text) → group_blocks before slug name ≡ not (filter_permits f.filter slug name)
unfolding sends_filter group_blocks filter_permits permits_under
sends_filter-group_blocks before f h readable slug name =
    go (parse_tool_filter before.tool_filter) h readable
  where
    go :
        (p : ParsedFilter)
        → sends_over p f ≡ false
        → ((t : Text) → p ≢ unreadable t)
        → parsed_blocks p slug name ≡ not (filter_permits f.filter slug name)
    go no_filter h r =
        ap not (same_filter-filter_permits blank_filter_form f.filter (not-false _ h) slug name)
    go (filtered g) h r = ap not (same_filter-filter_permits g f.filter (not-false _ h) slug name)
    go (unreadable t) h r = absurd (r t refl)

-- Where the stored filter cannot be read, a PATCH carries one only after both presses.
pub sends_filter-unreadable :
    (before : Group) (f : GroupForm) (t : Text)
    → parse_tool_filter before.tool_filter ≡ unreadable t
    → (sends_filter before f ≡ true) ↔ ((f.filter_replace ≡ true) × (f.filter_chosen ≡ true))
unfolding sends_filter
sends_filter-unreadable before f t h =
    rw h (λ k. and_parts f.filter_replace f.filter_chosen k, λ k. rw (k.0, k.1) refl)

save_problem :
    (before : Group) (f : GroupForm)
    → sends_filter before f ≡ true
    → group_save_blocked (some before) f ≡ []
    → filter_problem f.filter ≡ []
unfolding group_save_blocked text
save_problem before f s h = ground (arith)

-- Where Save may proceed with a filter on it, with a mode and no repetition, a group that stores
-- what was sent opens as that very filter, and is readable.
pub group_save_blocked-form_from_group :
    (before after : Group) (f : GroupForm)
    → sends_filter before f ≡ true
    → group_save_blocked (some before) f ≡ []
    → f.filter.mode ≢ unset
    → Distinct f.filter.tools
    → Distinct f.filter.prefixes
    → after.tool_filter ≡ some (filter_value f.filter)
    → ((form_from_group after).filter ≡ f.filter) × ((form_from_group after).filter_unreadable ≡ [])
unfolding form_from_group
group_save_blocked-form_from_group before after f s h m dt dp stored =
    let read =
      ap parse_tool_filter stored
      ∙ filter_problem-round_trip f.filter m dt dp (save_problem before f s h) in
    rw read (refl, refl)
