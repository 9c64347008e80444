-- ===== src/Catalogue/Tests.antt =====
-- The catalogue's theorems at concrete inputs.
use porymcp.Base.{
  ◌≡◌, ◌↔◌, true, false, not, none, List, [], ◌∷◌, is_empty, All, Exists, Text, text, includes,
}
use porymcp.ToolEntry.{
  FilterForm, rule, allow, DiscoveredTool, listed, scoped_tool_name, filter_permits,
}
use porymcp.ToolFilter.Defs.{toggle_entry}
use porymcp.Catalogue.{
  MemberCatalogue, Catalogue, loaded, unmatched_entries, covering_entry, blocks_everything,
}
use porymcp.Catalogue.Verdicts.{Complete, ReachesAny, unmatched_entries_iff}
use porymcp.Catalogue.Covering.{covering_entry-listed}
use porymcp.Catalogue.Blocks.{Advertises, Closed, blocks_everything_iff}

abbrev find_tool : DiscoveredTool
find_tool = record {
  name = text "find";
  title = none;
  description = none;
  description_truncated = none;
  scoped_name = none;
}

abbrev docs_loaded : MemberCatalogue
docs_loaded = record {
  member = record {
    upstream_id = text "u1";
    slug = text "docs";
    name = text "Docs";
    enabled = true;
    transport = text "http";
    kind = text "mcp";
  };
  state = loaded;
  tools = find_tool ∷ [];
  truncated = false;
  unnameable = 0;
  error = [];
}

abbrev pub one_member : Catalogue
one_member = docs_loaded ∷ []

abbrev two_entries : List Text
two_entries = text "docs__find" ∷ text "docs__get" ∷ []

unmatched_entries_iff_example :
    (includes (unmatched_entries two_entries one_member false) (text "docs__get") ≡ true) ↔ (
      Complete one_member
      × (includes two_entries (text "docs__get") ≡ true)
      × (ReachesAny false (text "docs__get") one_member → ⊥))
unmatched_entries_iff_example =
    unmatched_entries_iff two_entries one_member false (text "docs__get")

abbrev twice_covered : FilterForm
twice_covered = record { mode = rule allow; tools = two_entries; prefixes = text "docs__f" ∷ [] }

covering_entry-listed_example :
    not (
      is_empty (
        covering_entry
          (text "docs")
          (text "find")
          twice_covered.tools
          twice_covered.prefixes
          allow
          true))
    ≡ listed
        (record twice_covered {
          tools =
              toggle_entry twice_covered.tools (scoped_tool_name (text "docs") (text "find")) false;
        })
        allow
        (text "docs")
        (text "find")
covering_entry-listed_example =
    covering_entry-listed twice_covered allow (text "docs") (text "find")

blocks_everything_iff_example :
    (blocks_everything (filter_permits twice_covered) one_member ≡ true) ↔ (
      Complete one_member
      × Exists (Advertises (filter_permits twice_covered)) one_member
      × All (Closed (filter_permits twice_covered)) one_member)
blocks_everything_iff_example = blocks_everything_iff (filter_permits twice_covered) one_member
