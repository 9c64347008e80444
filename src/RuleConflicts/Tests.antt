-- ===== src/RuleConflicts/Tests.antt =====
-- The rule conflicts' theorems at concrete inputs.
use porymcp.Base.{◌≡◌, refl, ◌≢◌, inl, true, false, none, some, List, [], ◌∷◌, arith, Text, text}
use porymcp.Json.Json.{arr}
use porymcp.Json.Items.{nil}
use porymcp.ToolFilter.{parse_tool_filter}
use porymcp.ToolEntry.{split_entry, match_tool_entry}
use porymcp.Api.{Group}
use porymcp.RuleConflicts.{
  allow_list_admits_nothing, judge_entries, entry_tool, allow_entry_denied_by, denied_by,
  key_refuses,
}
use porymcp.RuleConflicts.Groups.{pink, group_filter_summary, parsed_summary}
use porymcp.RuleConflicts.Admits.{allow_list_admits_nothing-key_refuses}

-- One entry is denied and the other names no member.
abbrev allowed_two : List Text
allowed_two = text "a__x" ∷ text "y" ∷ []

abbrev denied_one : List Text
denied_one = text "x" ∷ []

admits_nothing_here : allow_list_admits_nothing allowed_two denied_one true [] ≢ []
unfolding allow_list_admits_nothing judge_entries entry_tool allow_entry_denied_by denied_by
    split_entry match_tool_entry text
admits_nothing_here = λ e. ground arith

allow_list_admits_nothing-key_refuses_example :
    key_refuses allowed_two denied_one true (text "a") (text "z") ≡ true
allow_list_admits_nothing-key_refuses_example =
    allow_list_admits_nothing-key_refuses allowed_two denied_one true [] (text "a") (text "z")
      admits_nothing_here (inl refl)

abbrev broken_group : Group
broken_group = record {
  id = [];
  name = text "Docs";
  description = none;
  upstream_ids = [];
  tool_filter = some (arr nil);
  created_at = [];
  updated_at = [];
}

broken_is_pink : (group_filter_summary broken_group true false).tone ≡ pink
unfolding group_filter_summary parsed_summary parse_tool_filter
broken_is_pink = refl
