-- ===== src/GroupsPage/Tests.antt =====
-- A group's filter taken away.
use porymcp.Base.{◌≡◌, refl, true, none, some, [], ◌∷◌, All, text, trim_end, trim_start, trim}
use porymcp.Json.{Members}
use porymcp.Json.Json.{null, str, obj, arr}
use porymcp.Json.Items.{nil, cons}
use porymcp.Json.Members.{end, member}
use porymcp.Api.{Group}
use porymcp.ToolEntry.{clean_entry}
use porymcp.AdminEvent.{entry}
use porymcp.ToolFilter.{parse_tool_filter, lower, same_set, unique}
use porymcp.ToolFilter.Defs.{
  first_problem, blank_filter_form, same_filter, filter_problem, filter_value,
}
use porymcp.GroupForm.{
  form_from_group, group_patch_body, group_save_blocked, group_policy_stale, sends_filter,
  same_members,
}
use porymcp.GroupsPage.{
  GroupsPage, fresh_groups, open_group, submit_group, reread, Reach, starts, steps, opens_edit,
  changes, submits, reads, rereading, catalogues, confirms_empty, confirms_blocks,
  confirm_remove_all, asks_about_blocking, create_group,
}
use porymcp.ToolEntry.Slug.{valid_slug, slug_pattern, slug_sep_run, uuid_like}
use porymcp.ToolEntry.{entry_problem, FilterForm, rule, allow, filter_permits}
use porymcp.Catalogue.{blocks_everything, catalogue_complete, whole, blocks_members, blocks_tools}
use porymcp.Catalogue.Tests.{one_member}
use porymcp.GroupsPage.Alerts.{Justified}
use porymcp.GroupsPage.Asked.{Step-Justified}
use porymcp.GroupsPage.Saves.{BlocksAlike, Reach-patching}

abbrev a_group : Group
a_group = record {
  id = text "g";
  name = text "team";
  description = none;
  upstream_ids = [];
  tool_filter = some (
      obj (
        member (text "mode") (str (text "deny"))
          (member (text "tools") (arr (cons (str (text "a")) nil)) end)));
  created_at = [];
  updated_at = [];
}

abbrev cleared : GroupsPage
cleared = record (open_group a_group fresh_groups) {
  form = record (form_from_group a_group) { filter = blank_filter_form };
}

cleared-Reach : Reach cleared
cleared-Reach = steps (steps starts (opens_edit a_group)) (changes _)

abbrev sent_body : Members
sent_body = member (text "tool_filter") null end

abbrev read_again : GroupsPage
read_again =
    reread 1 a_group sent_body (some a_group) (record (submit_group cleared) { calls = [] })

read_again-Reach : Reach read_again
unfolding submit_group group_save_blocked form_from_group sends_filter parse_tool_filter lower text
    clean_entry same_filter filter_problem group_patch_body trim entry filter_value
read_again-Reach =
    steps (steps cleared-Reach submits) (reads [] [] 1 a_group sent_body (some a_group) refl)

Reach-patching_example : BlocksAlike a_group (some a_group)
unfolding reread group_policy_stale parse_tool_filter lower text clean_entry same_filter same_set
    unique entry
Reach-patching_example =
    Reach-patching read_again [] [] 1 a_group sent_body (some a_group) read_again-Reach refl refl

-- Every member taken out, and a filter typed that refuses every tool: both Alerts ask.
abbrev with_members : Group
with_members = record a_group { upstream_ids = text "u1" ∷ []; tool_filter = none }

abbrev one_tool : FilterForm
one_tool = record { mode = rule allow; tools = text "docs__get" ∷ []; prefixes = [] }

abbrev taken_out : GroupsPage
taken_out = record (open_group with_members fresh_groups) {
  form = record (form_from_group with_members) { upstream_ids = []; filter = one_tool };
  catalogue = one_member;
}

abbrev asked_once : GroupsPage
asked_once = submit_group taken_out

abbrev asked_twice : GroupsPage
asked_twice = confirm_remove_all asked_once

asked_twice-Reach : Reach asked_twice
asked_twice-Reach =
    steps
      (steps
        (steps (steps (steps starts (opens_edit with_members)) (changes _)) (catalogues one_member))
        submits)
      confirms_empty

asked_runs : Unit {0}
unfolding submit_group group_save_blocked form_from_group sends_filter parse_tool_filter lower text
    clean_entry same_filter same_set unique filter_problem group_patch_body trim trim_start trim_end
    entry filter_value create_group asks_about_blocking blocks_everything catalogue_complete whole
    blocks_members filter_permits same_members blocks_tools first_problem entry_problem valid_slug
    slug_pattern slug_sep_run uuid_like
asked_runs = tt

first_alert : (asked_once.confirm_empty ≡ true) × (asked_once.calls ≡ [])
unfolding asked_runs
first_alert = (refl, refl)

second_alert : (asked_twice.confirm_blocks ≡ true) × (asked_twice.calls ≡ [])
unfolding asked_runs
second_alert = (refl, refl)

Step-Justified_example :
    All
      (Justified asked_twice-Reach confirms_blocks)
      (rereading 1 with_members (group_patch_body with_members taken_out.form) ∷ [])
unfolding asked_runs
Step-Justified_example = Step-Justified asked_twice-Reach confirms_blocks
