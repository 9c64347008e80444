-- ===== src/Catalogue/Notes.antt =====
-- The sentences and badges that the catalogue puts beside entries and members
-- (web/src/lib/catalogue.ts).
use porymcp.Base.{
  ℕ, Bool, true, false, not, ◌&&◌, Option, List, [], ◌∷◌, ◌++◌, map, ltb, eqb, if◌then◌else◌,
  length, all, filter, is_empty, or_else, Text, text, join, truthy, includes, decimal,
}
use porymcp.ToolEntry.{Side, EntryKind, tool, prefix, is_allow, split_entry, entry_problem}
use porymcp.Catalogue.{
  MemberCatalogue, Catalogue, is_loaded, is_failed, is_idle, incomplete_members,
}

unfoldable pub covered_note : Text → Text
covered_note entry = text "Covered by " ++ (entry ++ text ". Change it in the entries above.")

abbrev counted_tools : ℕ → Text
counted_tools n = decimal n ++ (text " " ++ (if eqb n 1 then text "tool" else text "tools"))

abbrev loaded_line : MemberCatalogue → Text
loaded_line m = m.name ++ (text ", " ++ (counted_tools (length m.tools) ++ text "."))

unfoldable pub catalogue_summary : Catalogue → Text
catalogue_summary c =
    let failures = length (filter (λ m. is_failed m.state) c) in
    let lines = map loaded_line (filter (λ m. is_loaded m.state) c) in
    let failed_line =
      decimal failures
      ++ (text " "
          ++ ((if eqb failures 1 then text "upstream" else text "upstreams")
              ++ text " could not be loaded.")) in
    join (text " ") (if ltb 0 failures then lines ++ failed_line ∷ [] else lines)

incomplete_names_line : List Text → Text
incomplete_names_line [] = []
incomplete_names_line (n ∷ names) =
    text "Entries are not checked against what is advertised, because "
    ++ ((if is_empty names
          then text "one catalogue is incomplete"
          else text "these catalogues are incomplete")
        ++ (text ": " ++ (join (text ", ") (n ∷ names) ++ text ".")))

unfoldable pub incomplete_line : Catalogue → Text
unfolding incomplete_names_line
incomplete_line c =
    if all (λ m. is_idle m.state) c then [] else incomplete_names_line (incomplete_members c)

unfoldable pub truncated_note : ℕ → Text
truncated_note shown =
    text "Not every tool is listed. " ++ (decimal shown ++ text " shown. This server offers more.")

unfoldable pub unnameable_note : ℕ → Text
unnameable_note n =
    if eqb n 0
    then []
    else if eqb n 1
    then text "1 tool is not listed: its name contains characters PoryMCP cannot hold a caller to."
    else decimal n
      ++ text
          " tools are not listed: their names contain characters PoryMCP cannot hold a caller to."

unfoldable pub unnameable_row_note : Side → Bool → Bool → Text
unnameable_row_note side prefixes covered =
    let base =
      text "This name holds a space or a control character, so no tool entry can name it." in
    let route = if prefixes then text " A prefix that stops before that character can." else [] in
    let stays =
      if is_allow side then text " It stays blocked, because it is not on the list." else [] in
    if covered then base else base ++ (route ++ stays)

unfoldable pub not_advertised_note : Side → Bool → Text
not_advertised_note side key_list =
    if key_list
    then text "No tool advertised right now carries this name. The rule is kept."
    else if is_allow side
    then text "No member advertises this tool right now, so this entry admits nothing."
    else text
        "No member advertises this tool right now. The rule is kept and applies if the tool comes back."

pub data Badge : Type 0 where
  no_badge cannot_be_saved also_denied not_advertised prefix_badge any_member : Badge

pub record EntryMark : Type 0 where
  pub badge : Badge
  pub note : Text

abbrev is_prefix_kind : EntryKind → Bool
is_prefix_kind prefix = true
is_prefix_kind tool = false

unfoldable pub entry_mark :
    Text → EntryKind → Side → Bool → Bool → List Text → Option Text → Option Text → EntryMark
entry_mark entry kind side group_target key_list unmatched overruled prefix_note =
    let problem = entry_problem entry kind side group_target in
    if truthy problem
    then record { badge = cannot_be_saved; note = problem }
    else if truthy (or_else overruled [])
    then record { badge = also_denied; note = or_else overruled [] }
    else if includes unmatched entry
    then record { badge = not_advertised; note = not_advertised_note side key_list }
    else if is_prefix_kind kind
    then record { badge = prefix_badge; note = or_else prefix_note [] }
    else if group_target && not (split_entry entry).scoped
    then record { badge = any_member; note = [] }
    else record { badge = no_badge; note = [] }
