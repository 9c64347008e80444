-- ===== src/GroupForm/Tests.antt =====
-- The group form's theorems at concrete inputs.
use porymcp.Base.{◌≡◌, refl, ◌≢◌, true, false, not, none, some, List, [], ◌∷◌, Text, text, trim}
use porymcp.Json.Json.{arr, obj, str}
use porymcp.Json.Items.{nil}
use porymcp.Json.Members.{end, member}
use porymcp.ToolEntry.{FilterForm, rule, deny, filter_permits, entry_problem}
use porymcp.ToolEntry.Slug.{valid_slug, slug_pattern, slug_sep_run, uuid_like}
use porymcp.ToolFilter.{unreadable, parse_tool_filter, same_set, unique}
use porymcp.ToolFilter.Defs.{filter_value, filter_problem, same_filter, first_problem}
use porymcp.Api.{Group}
use porymcp.RuleConflicts.Groups.{group_blocks}
use porymcp.GroupForm.{
  GroupForm, form_from_group, sends_filter, group_patch_body, group_save_blocked,
  group_policy_stale, blank_group_form,
}
use porymcp.GroupForm.Patch.{
  group_patch_body-form_from_group, sends_filter-group_blocks, group_save_blocked-form_from_group,
}

run_group : Unit {0}
unfolding parse_tool_filter same_filter same_set unique sends_filter filter_problem first_problem
    entry_problem text valid_slug slug_pattern slug_sep_run uuid_like
run_group = tt

abbrev plain_group : Group
plain_group = record {
  id = [];
  name = text "Docs";
  description = none;
  upstream_ids = text "u1" ∷ text "u2" ∷ [];
  tool_filter = none;
  created_at = [];
  updated_at = [];
}

abbrev empty_deny : Group
empty_deny = record plain_group {
  tool_filter = some (obj (member (text "mode") (str (text "deny")) end));
}

-- The same filter, written in another way.
abbrev same_deny : Group
same_deny = record plain_group {
  tool_filter =
      some (obj (member (text "tools") (arr nil) (member (text "Mode") (str (text "deny")) end)));
}

abbrev broken : Group
broken = record plain_group { tool_filter = some (arr nil) }

abbrev deny_one : FilterForm
deny_one = record { mode = rule deny; tools = text "find" ∷ []; prefixes = [] }

abbrev deny_form : GroupForm
deny_form = record blank_group_form { name = text "Docs"; filter = deny_one }

abbrev denying_group : Group
denying_group = record plain_group { tool_filter = some (filter_value deny_one) }

trimmed : trim plain_group.name ≡ plain_group.name
unfolding trim text
trimmed = refl

group_patch_body-form_from_group_example :
    group_patch_body plain_group (form_from_group plain_group) ≡ end
group_patch_body-form_from_group_example = group_patch_body-form_from_group plain_group trimmed

sends_nothing : sends_filter plain_group blank_group_form ≡ false
unfolding run_group
sends_nothing = refl

is_readable : (t : Text) → parse_tool_filter plain_group.tool_filter ≢ unreadable t
unfolding run_group
is_readable t = λ e. cc

sends_filter-group_blocks_example :
    group_blocks plain_group (text "docs") (text "find")
    ≡ not (filter_permits blank_group_form.filter (text "docs") (text "find"))
sends_filter-group_blocks_example =
    sends_filter-group_blocks plain_group blank_group_form sends_nothing is_readable (text "docs")
      (text "find")

broken_reads : parse_tool_filter broken.tool_filter ≡ unreadable (b'[' ∷ b']' ∷ [])
unfolding run_group porymcp.Json.stringify
broken_reads = refl

sends_deny : sends_filter plain_group deny_form ≡ true
unfolding run_group
sends_deny = refl

may_save : group_save_blocked (some plain_group) deny_form ≡ []
unfolding run_group group_save_blocked
may_save = refl

group_save_blocked-form_from_group_example :
    ((form_from_group denying_group).filter ≡ deny_one)
    × ((form_from_group denying_group).filter_unreadable ≡ [])
group_save_blocked-form_from_group_example =
    group_save_blocked-form_from_group plain_group denying_group deny_form sends_deny may_save
      (λ e. cc) (refl, tt) tt refl

not_stale : group_policy_stale empty_deny same_deny ≡ false
unfolding run_group group_policy_stale porymcp.ToolFilter.lower
not_stale = refl

abbrev members_ab : List Text
members_ab = (b'a' ∷ []) ∷ (b'b' ∷ []) ∷ []

abbrev members_ba : List Text
members_ba = (b'b' ∷ []) ∷ (b'a' ∷ []) ∷ []
