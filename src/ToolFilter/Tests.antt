-- ===== src/ToolFilter/Tests.antt =====
-- Runs of the filter form, and its theorems at concrete inputs.
use porymcp.Base.{
  ◌≡◌, refl, ◌≢◌, true, ◌&&◌, some, [], ◌∷◌, arith, Text, text, ◌==◌, join, Distinct,
}
use porymcp.Json.{stringify}
use porymcp.Json.Json.{null, str, obj}
use porymcp.Json.Members.{end, member}
use porymcp.ToolEntry.Slug.{valid_slug, slug_pattern, slug_sep_run, uuid_like}
use porymcp.ToolEntry.{
  allow, deny, rule, FilterForm, filter_permits, entry_problem, scoped_tool_name,
}
use porymcp.ToolFilter.{unique, same_set, no_filter, filtered, unreadable, parse_tool_filter, lower}
use porymcp.ToolFilter.Defs.{
  filter_value, same_filter, first_problem, filter_problem, filter_admits_nothing, pieces,
  clamp_text, whole_member_prefix,
}
use porymcp.ToolFilter.RoundTrip.{IsStored}
use porymcp.ToolFilter.Stored.{parse_tool_filter-IsStored}
use porymcp.ToolFilter.Problem.{filter_problem-round_trip}
use porymcp.ToolFilter.Edits.{
  tick_tool, tick_prefix, with_more, filter_permits-tick_tool, filter_permits-tick_member,
}

run_filter : Unit {0}
unfolding parse_tool_filter filter_value filter_problem first_problem entry_problem text valid_slug
    slug_pattern slug_sep_run uuid_like unique same_set same_filter filter_permits
    filter_admits_nothing stringify
run_filter = tt

abbrev allow_form : FilterForm
allow_form = record {
  mode = rule allow;
  tools = text "docs__find" ∷ text "docs__get" ∷ [];
  prefixes = text "mail__" ∷ [];
}

abbrev swapped_form : FilterForm
swapped_form = record {
  mode = rule allow;
  tools = text "docs__get" ∷ text "docs__find" ∷ text "docs__get" ∷ [];
  prefixes = text "mail__" ∷ [];
}

abbrev bare_form : FilterForm
bare_form = record { mode = rule allow; tools = text "find" ∷ []; prefixes = [] }

-- A capital in a member's name is read; an unknown member, a number among the entries and an
-- allow filter with nothing to allow are not; a null mode is passed over.
parse_tests :
    (parse_tool_filter (some (obj (member (text "Mode") (str (text "deny")) end)))
      ≡ filtered (record { mode = rule deny; tools = []; prefixes = [] }))
    × (parse_tool_filter (some (obj (member (text "tool") null end)))
        ≡ unreadable (text "{\"tool\":null}"))
    × (parse_tool_filter (some (obj (member (text "mode") (str (text "allow")) end)))
        ≡ unreadable (text "{\"mode\":\"allow\"}"))
    × (parse_tool_filter
          (some (obj (member (text "mode") (str (text "deny")) (member (text "Mode") null end))))
        ≡ filtered (record { mode = rule deny; tools = []; prefixes = [] }))
    × (parse_tool_filter (some (obj end)) ≡ no_filter)
unfolding run_filter lower
parse_tests = (refl, refl, refl, refl, refl)

clamp_test :
    clamp_text (b'a' ∷ 0xd83d ∷ 0xde00 ∷ b'b' ∷ []) 2
    ≡ record { text = b'a' ∷ 0xd83d ∷ 0xde00 ∷ []; cut = true }
unfolding clamp_text pieces join
clamp_test = refl

no_problem : filter_problem allow_form ≡ []
unfolding run_filter lower
no_problem = refl

allow_form-Distinct : Distinct allow_form.tools
unfolding text
allow_form-Distinct = (refl, (refl, tt))

filter_problem-round_trip_example :
    parse_tool_filter (some (filter_value allow_form)) ≡ filtered allow_form
filter_problem-round_trip_example =
    filter_problem-round_trip allow_form (λ e. cc) allow_form-Distinct (refl, tt) no_problem

read_back : parse_tool_filter (some (filter_value allow_form)) ≡ filtered allow_form
unfolding run_filter lower
read_back = refl

parse_tool_filter-IsStored_example : IsStored allow_form
parse_tool_filter-IsStored_example =
    parse_tool_filter-IsStored (some (filter_value allow_form)) allow_form read_back

swapped_is_same : same_filter allow_form swapped_form ≡ true
unfolding run_filter lower
swapped_is_same = refl

bare_admits_nothing : filter_admits_nothing bare_form ≢ []
unfolding run_filter lower
bare_admits_nothing h = ground arith

docs-slug : valid_slug (text "docs") ≡ true
unfolding run_filter lower
docs-slug = refl

filter_permits-tick_tool_example :
    filter_permits
      (tick_tool allow_form (scoped_tool_name (text "docs") (text "put")))
      (text "docs")
      (text "put")
    ≡ with_more
        (rule allow)
        (filter_permits allow_form (text "docs") (text "put"))
        (text "docs" == text "docs" && text "put" == text "put")
filter_permits-tick_tool_example =
    filter_permits-tick_tool allow_form (text "docs") (text "put") (text "docs") (text "put")
      docs-slug

filter_permits-tick_member_example :
    filter_permits
      (tick_prefix allow_form (whole_member_prefix (text "docs")))
      (text "mail")
      (text "put")
    ≡ with_more
        (rule allow)
        (filter_permits allow_form (text "mail") (text "put"))
        (text "docs" == text "mail")
filter_permits-tick_member_example =
    filter_permits-tick_member allow_form (text "docs") (text "mail") (text "put") docs-slug

abbrev smile : Text
smile = b'a' ∷ 0xd83d ∷ 0xde00 ∷ b'b' ∷ []
