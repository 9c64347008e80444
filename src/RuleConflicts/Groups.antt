-- ===== src/RuleConflicts/Groups.antt =====
-- What a key's group already does (groupFilterSummary and groupBlocks of
-- web/src/lib/rule-conflicts.ts).
use porymcp.Base.{
  ℕ, ◌+◌, ◌-◌, Bool, true, false, not, List, [], ◌++◌, eqb, if◌then◌else◌, length, take, Text, text,
  truthy,
}
use porymcp.ToolEntry.{FilterForm, filter_permits}
use porymcp.ToolFilter.{ParsedFilter, no_filter, filtered, unreadable, parse_tool_filter}
use porymcp.ToolFilter.Defs.{filter_admits_nothing, is_allow_mode}
use porymcp.Api.{Group}

abbrev group_entries_shown : ℕ
group_entries_shown = 12

pub data Tone : Type 0 where
  zinc pink : Tone

pub record GroupFilterSummary : Type 0 where
  pub tone : Tone
  pub sentence : Text
  pub tools : List Text
  pub prefixes : List Text
  pub more : ℕ

abbrev alone : Tone → Text → GroupFilterSummary
alone tone sentence = record {
  tone = tone;
  sentence = sentence;
  tools = [];
  prefixes = [];
  more = 0;
}

abbrev where_edited : Text
where_edited = text "It is edited on the Groups page."

-- A summary that lists the filter's first entries.
abbrev with_entries : FilterForm → Tone → Text → GroupFilterSummary
with_entries f tone sentence =
    let tools = take group_entries_shown f.tools in
    let prefixes = take (group_entries_shown - length tools) f.prefixes in
    record {
      tone = tone;
      sentence = sentence;
      tools = tools;
      prefixes = prefixes;
      more = length f.tools + length f.prefixes - length tools - length prefixes;
    }

unfoldable pub filter_summary : Text → FilterForm → GroupFilterSummary
filter_summary name f =
    if truthy (filter_admits_nothing f)
    then with_entries f pink (
        text "The group "
        ++ (name
            ++ (text
                  " has an allow filter whose entries name no member, so every tool on it is blocked whatever this key allows. "
                ++ where_edited)))
    else if eqb (length f.tools + length f.prefixes) 0
    then with_entries f zinc (
        text "The group "
        ++ (name ++ text " has a deny filter that lists nothing, so it blocks nothing."))
    else if is_allow_mode f.mode
    then with_entries f zinc (
        text "The group "
        ++ (name
            ++ (text
                  " allows only what is listed here. Everything else is blocked whatever this key allows. "
                ++ where_edited)))
    else with_entries f zinc (
        text "The group "
        ++ (name
            ++ (text " already denies what is listed here, whatever this key allows. "
                ++ where_edited)))

unfoldable pub parsed_summary : Text → Bool → Bool → ParsedFilter → GroupFilterSummary
unfolding filter_summary
parsed_summary name lists_above malformed stored =
    let cannot = alone pink (
      text "The group "
      ++ (name
          ++ text
              " has a filter that cannot be read, so every tool on it is blocked whatever this key allows. Replace it on the Groups page.")) in
    if malformed then cannot else elim stored [
      | unreadable t ↦ cannot
      | no_filter ↦ alone zinc (
          text "The group "
          ++ (name
              ++ (if lists_above
                  then text
                      " has no filter, so the key's two lists above are the only rules on this key."
                  else text
                      " has no filter, so the two lists below are the only rules on this key.")))
      | filtered f ↦ filter_summary name f
    ]

unfoldable pub group_filter_summary : Group → Bool → Bool → GroupFilterSummary
unfolding parsed_summary
group_filter_summary g lists_above malformed =
    parsed_summary g.name lists_above malformed (parse_tool_filter g.tool_filter)

abbrev pub parsed_blocks : ParsedFilter → Text → Text → Bool
parsed_blocks (unreadable t) slug name = true
parsed_blocks no_filter slug name = false
parsed_blocks (filtered f) slug name = not (filter_permits f slug name)

unfoldable pub group_blocks : Group → Text → Text → Bool
group_blocks g slug name = parsed_blocks (parse_tool_filter g.tool_filter) slug name

abbrev pub group_blocks_note : Text
group_blocks_note = text "Blocked by the group's filter, whatever this key allows."
