-- ===== src/ToolEntry/Tests.antt =====
-- Runs of the entry rules, and their theorems at concrete inputs.
use porymcp.Base.{◌≡◌, refl, ◌↔◌, true, false, none, [], ◌∷◌, text}
use porymcp.ToolEntry.Slug.{valid_slug, slug_pattern, slug_sep_run, uuid_like}
use porymcp.ToolEntry.{
  allow, deny, tool, prefix, rule, FilterForm, split_entry, scoped_tool_name, tick_entry,
  clean_entry, entry_problem, filter_permits,
}
use porymcp.ToolEntry.Separator.{scoped_split}
use porymcp.ToolEntry.Permits.{Permits, filter_permits_iff}
use porymcp.ToolEntry.Problem.{IsAcceptable, entry_problem_iff}

run_slug : Unit {0}
unfolding valid_slug slug_pattern slug_sep_run uuid_like text
run_slug = tt

pub docs-slug : valid_slug (text "docs") ≡ true
unfolding run_slug
docs-slug = refl

slugs :
    (valid_slug (text "a-b_c") ≡ true)
    × (valid_slug (text "a__b") ≡ false)
    × (valid_slug (text "_a") ≡ false)
    × (valid_slug (text "6f9619ff-8b86-d011-b42d-00c04fc964ff") ≡ false)
    × (valid_slug (text "6f9619ff-8b86-d011-b42d-00c04fc964fg") ≡ true)
unfolding run_slug
slugs = (refl, refl, refl, refl, refl)

splits :
    (split_entry (text "docs__a__b") ≡ scoped_split (text "docs") (text "a__b"))
    × (split_entry (text "__search") ≡ record { head = []; rest = text "__search"; scoped = false })
    × (split_entry (text "a___b") ≡ scoped_split (text "a") (text "_b"))
unfolding split_entry text
splits = (refl, refl, refl)

-- A lone surrogate is refused, a pair is not.
clean_tests :
    (clean_entry (0xd83d ∷ []) ≡ false)
    × (clean_entry (0xd83d ∷ 0xde00 ∷ []) ≡ true)
    × (clean_entry (text "a b") ≡ false)
    × (clean_entry (text "get_me") ≡ true)
unfolding clean_entry text
clean_tests = (refl, refl, refl, refl)

problem_tests :
    (entry_problem (text "search") tool allow true
      ≡ text "\"search\" names no member, so it admits nothing. Write it as slug__search.")
    × (entry_problem (text "search") tool deny true ≡ [])
    × (entry_problem (text "docs__") prefix allow true ≡ [])
    × (entry_problem (text "docs__") tool allow true
        ≡ text
            "\"docs__\": nothing follows __, so it names no tool. Add it as a prefix to cover every tool on that upstream.")
unfolding entry_problem text run_slug porymcp.Json.quote
problem_tests = (refl, refl, refl, refl)

tick_test :
    tick_entry (text "docs") (record {
      name = text "find";
      title = none;
      description = none;
      description_truncated = none;
      scoped_name = none;
    })
    ≡ text "docs__find"
unfolding tick_entry scoped_tool_name text
tick_test = refl

abbrev deny_form : FilterForm
deny_form = record {
  mode = rule deny;
  tools = text "docs__find" ∷ [];
  prefixes = text "mail__" ∷ [];
}

permits_tests :
    (filter_permits deny_form (text "docs") (text "find") ≡ false)
    × (filter_permits deny_form (text "docs") (text "find2") ≡ true)
    × (filter_permits deny_form (text "mail") (text "send") ≡ false)
unfolding filter_permits text
permits_tests = (refl, refl, refl)

filter_permits_iff_example :
    (filter_permits deny_form (text "mail") (text "send") ≡ true)
    ↔ Permits (rule deny) deny_form (text "mail") (text "send")
filter_permits_iff_example = filter_permits_iff deny_form (text "mail") (text "send")

entry_problem_iff_example :
    (entry_problem (text "docs__find") tool allow true ≡ [])
    ↔ IsAcceptable (text "docs__find") tool allow true
entry_problem_iff_example = entry_problem_iff (text "docs__find") tool allow true
