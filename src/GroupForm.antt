-- ===== src/GroupForm.antt =====
-- The Create and Edit group dialogs' form and the bodies made of it (web/src/lib/group-form.ts).
pub mod Patch
pub mod Policy
mod Tests
use porymcp.Base.{
  ℕ, zero, suc, ◌+◌, ◌-◌, ◌*◌, ◌/◌, ◌%◌, ◌≤◌, ◌<◌, String, ◌≡◌, refl, sym, ap, ap₂, subst, ◌∙◌, ◌≢◌,
  ◌↔◌, ◌⊎◌, inl, inr, Bool, true, false, false≢true, true≢false, not, ◌&&◌, ◌||◌, Option, none,
  some, List, [], ◌∷◌, ◌++◌, map, append-nil, append_assoc, arith, ltb, leb, eqb, if◌then◌else◌,
  eqb_iff, eqb_refl, Bool-cases, Option-cases, Bool-eq, and_parts, or_cases, or_right, not-true,
  or_false, some_inj, not-false, length, take, drop, any, all, filter, find, is_empty, All, or_else,
  length-append, take-append_length, drop-append_length, any-append, any-filter, any_ext,
  All-weaken, All-append, All-middle, All-both, Exists, any_iff, all_iff, is_found, find-any, Text,
  text, ◌==◌, starts_with, join, truthy, or_text, eq_sound, eq_refl, eq_complete, eq_iff,
  starts_with-append, starts_with_rest, trim_end, trim_start, trim, includes, Distinct, SubsetOf,
  SameSet, includes-append, any_of_includes, all_of_includes, all_intro, any_witness, any-SameSet,
  without, includes-without, Distinct-without, length-without, length-SubsetOf, SameSet-of_length,
  decimal,
}
use porymcp.Json.{Json, Members, strings}
use porymcp.Json.Json.{str, arr, obj}
use porymcp.Json.Members.{end, member}
use porymcp.ToolEntry.{FilterForm, FilterMode}
use porymcp.ToolFilter.{ParsedFilter, no_filter, filtered, unreadable, parse_tool_filter}
use porymcp.ToolFilter.Defs.{
  blank_filter_form, filter_value, filter_problem, same_filter, is_unset, is_allow_mode,
}
use porymcp.Api.{Group}
use porymcp.RuleConflicts.Groups.{Tone, zinc, pink}

pub record GroupForm : Type 0 where
  pub name : Text
  pub description : Text
  pub upstream_ids : List Text
  pub filter : FilterForm
  pub filter_unreadable : Text
  pub filter_replace : Bool
  pub filter_chosen : Bool

abbrev pub blank_group_form : GroupForm
blank_group_form = record {
  name = [];
  description = [];
  upstream_ids = [];
  filter = blank_filter_form;
  filter_unreadable = [];
  filter_replace = false;
  filter_chosen = false;
}

-- The filter that a form starts from: none of its own unless the stored one can be read.
abbrev pub seed_filter : ParsedFilter → FilterForm
seed_filter (filtered f) = f
seed_filter _ = blank_filter_form

abbrev unreadable_text : ParsedFilter → Text
unreadable_text (unreadable t) = t
unreadable_text _ = []

unfoldable pub form_from_group : Group → GroupForm
form_from_group g =
    let stored = parse_tool_filter g.tool_filter in
    record {
      name = g.name;
      description = or_else g.description [];
      upstream_ids = g.upstream_ids;
      filter = seed_filter stored;
      filter_unreadable = unreadable_text stored;
      filter_replace = false;
      filter_chosen = false;
    }

unfoldable pub same_members : List Text → List Text → Bool
same_members a b = if not (eqb (length a) (length b)) then false else all (includes b) a

-- `if (sent) body.key = value`, before the later members.
abbrev pub put_if : Bool → Text → Json → Members → Members
put_if true key v ms = member key v ms
put_if false key v ms = ms

unfoldable pub group_create_body : GroupForm → Json
group_create_body f = obj (
    member (text "name") (str f.name) (
      member (text "description") (str f.description) (
        member (text "upstream_ids") (arr (strings f.upstream_ids)) (
          put_if (not (is_unset f.filter.mode)) (text "tool_filter") (filter_value f.filter) end))))

abbrev pub sends_over : ParsedFilter → GroupForm → Bool
sends_over (unreadable t) f = f.filter_replace && f.filter_chosen
sends_over stored f = not (same_filter (seed_filter stored) f.filter)

unfoldable pub sends_filter : Group → GroupForm → Bool
sends_filter before f = sends_over (parse_tool_filter before.tool_filter) f

unfoldable pub group_patch_body : Group → GroupForm → Members
unfolding sends_filter same_members
group_patch_body before f =
    let name = trim f.name in
    put_if (not (name == before.name)) (text "name") (str name) (
      put_if (not (f.description == or_else before.description [])) (text "description")
        (str f.description)
        (put_if (not (same_members f.upstream_ids before.upstream_ids)) (text "upstream_ids")
          (arr (strings f.upstream_ids))
          (put_if (sends_filter before f) (text "tool_filter") (filter_value f.filter) end)))

abbrev sends_any : Option Group → GroupForm → Bool
sends_any none f = not (is_unset f.filter.mode)
sends_any (some before) f = sends_filter before f

unfoldable pub group_save_blocked : Option Group → GroupForm → Text
group_save_blocked before f =
    if f.filter_replace && not f.filter_chosen
    then text "Choose a mode to replace the stored filter."
    else if sends_any before f
    then filter_problem f.filter
    else []

abbrev pub changed : ParsedFilter → ParsedFilter → Bool
changed (unreadable s) (unreadable t) = not (s == t)
changed (filtered f) (filtered g) = not (same_filter f g)
changed no_filter no_filter = false
changed _ _ = true

unfoldable pub group_policy_stale : Group → Group → Bool
group_policy_stale seed fresh =
    changed (parse_tool_filter seed.tool_filter) (parse_tool_filter fresh.tool_filter)

abbrev pub group_filter_stale : Text
group_filter_stale =
    text
      "This group's filter changed since you opened it. Close this dialog and open it again to see the current filter."

pub record TableBadge : Type 0 where
  pub label : Text
  pub tone : Tone

abbrev parsed_badge : ParsedFilter → Option TableBadge
parsed_badge (unreadable t) = some (record { label = text "Filter unreadable"; tone = pink })
parsed_badge (filtered f) = some (record {
  label = if is_allow_mode f.mode then text "Allow filter" else text "Deny filter";
  tone = zinc;
})
parsed_badge no_filter = none

unfoldable pub group_filter_badge : Group → Option TableBadge
group_filter_badge g = parsed_badge (parse_tool_filter g.tool_filter)
