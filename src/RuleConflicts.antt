-- ===== src/RuleConflicts.antt =====
-- What one rule does to another, read off the stored text (web/src/lib/rule-conflicts.ts), and
-- the proxy's own order of the rules (internal/proxy/policy.go).
pub mod Groups
pub mod Admits
pub mod Summary
mod Tests
use porymcp.Base.{
  ℕ, zero, suc, ◌+◌, ◌-◌, ◌*◌, ◌/◌, ◌%◌, ◌≤◌, ◌<◌, String, ◌≡◌, refl, sym, ap, ap₂, subst, ◌∙◌, ◌≢◌,
  ◌↔◌, ◌⊎◌, inl, inr, Bool, true, false, false≢true, true≢false, not, ◌&&◌, ◌||◌, Option, none,
  some, List, [], ◌∷◌, ◌++◌, map, append-nil, append_assoc, arith, ltb, leb, eqb, if◌then◌else◌,
  eqb_iff, eqb_refl, Bool-cases, Option-cases, Bool-eq, and_parts, or_cases, or_right, not-true,
  or_false, some_inj, not-false, length, take, drop, any, all, filter, find, is_empty, All, or_else,
  length-append, take-append_length, drop-append_length, any-append, any-filter, any_ext,
  All-weaken, All-append, All-middle, All-both, Exists, any_iff, all_iff, is_found, find-any, Text,
  text, ◌==◌, starts_with, join, truthy, or_text, eq_sound, eq_refl, eq_complete, eq_iff,
  starts_with-append, starts_with_rest, trim_end, trim_start, trim, includes, Distinct, SubsetOf,
  SameSet, includes-append, any_of_includes, all_of_includes, all_intro, any_witness, any-SameSet,
  without, includes-without, Distinct-without, length-without, length-SubsetOf, SameSet-of_length,
  digits_onto, decimal,
}
use porymcp.ToolEntry.{
  Split, FilterForm, rule, allow, split_entry, match_tool_entry, scoped_tool_name, filter_permits,
  usable, Side, FilterMode,
}
use porymcp.ToolFilter.{ParsedFilter, no_filter, filtered, unreadable, parse_tool_filter}
use porymcp.ToolFilter.Defs.{filter_admits_nothing, is_allow_mode}
use porymcp.Catalogue.{Catalogue, MemberCatalogue, catalogue_complete}
use porymcp.ToolEntry.{DiscoveredTool}
use porymcp.Api.{Group}

pub record ToolName : Type 0 where
  pub slug : Text
  pub name : Text

-- What a cut entry names, and a bare one on the key's target.
abbrev pub split_tool : Split → Text → Text → Option ToolName
split_tool s entry target_slug =
    if s.scoped
    then if is_empty s.rest then none else some (record { slug = s.head; name = s.rest })
    else if truthy target_slug && not (is_empty entry)
    then some (record { slug = target_slug; name = entry })
    else none

unfoldable pub entry_tool : Text → Text → Option ToolName
entry_tool entry target_slug = split_tool (split_entry entry) entry target_slug

unfoldable pub denied_by : Text → Text → List Text → Text
denied_by slug name deny = or_else (find (λ d. match_tool_entry d slug name false) deny) []

abbrev pub denied_tool : Option ToolName → List Text → Text
denied_tool none deny = []
denied_tool (some t) deny = denied_by t.slug t.name deny

unfoldable pub allow_entry_denied_by : Text → List Text → Text → Text
unfolding denied_by
allow_entry_denied_by entry deny target_slug = denied_tool (entry_tool entry target_slug) deny

abbrev pub also_denied_note : Text
also_denied_note = text "This tool is on the deny list too. Deny wins, so it stays blocked."

abbrev admits_nothing_sentence : Bool → Text
admits_nothing_sentence true =
    text
      "Every entry on the allow list is either denied or names no member, so this key can call nothing."
admits_nothing_sentence false =
    text "Every tool on the allow list is also denied, so this key can call nothing."

-- The loop of `allowListAdmitsNothing`.
unfoldable pub judge_entries : List Text → List Text → Bool → Text → Bool → Text
unfolding entry_tool allow_entry_denied_by
judge_entries [] deny group_target target_slug unnamed = admits_nothing_sentence unnamed
judge_entries (e ∷ es) deny group_target target_slug unnamed =
    let noted = judge_entries es deny group_target target_slug true in
    let rest = judge_entries es deny group_target target_slug unnamed in
    if group_target && not (split_entry e).scoped
    then noted
    else if not (is_found (entry_tool e target_slug))
    then []
    else if is_empty (allow_entry_denied_by e deny target_slug)
    then []
    else rest

unfoldable pub allow_list_admits_nothing : List Text → List Text → Bool → Text → Text
unfolding judge_entries
allow_list_admits_nothing allowed deny group_target target_slug =
    if is_empty allowed then [] else judge_entries allowed deny group_target target_slug false

-- The key's two lists in the proxy: the deny list first, then a list of allowed tools that is not
-- empty, in which an entry without a member is passed over on a group.
unfoldable pub key_refuses : List Text → List Text → Bool → Text → Text → Bool
key_refuses allowed deny group_target slug name =
    any (λ d. match_tool_entry d slug name false) deny
    || (not (is_empty allowed)
        && not (
            any
              (λ e.
                not (group_target && not (split_entry e).scoped)
                && match_tool_entry e slug name false)
              allowed))

unfoldable pub denied_row_note : Text → Text
denied_row_note deny_entry =
    text "On the deny list as "
    ++ (deny_entry ++ text ", so it stays blocked whatever is ticked here.")

abbrev prefix_names_shown : ℕ
prefix_names_shown = 5

abbrev matched_names : Text → MemberCatalogue → List Text
matched_names p m =
    map (λ (t : DiscoveredTool). scoped_tool_name m.slug t.name)
      (filter (λ (t : DiscoveredTool). match_tool_entry p m.slug t.name true) m.tools)

abbrev all_matched : Text → Catalogue → List Text
all_matched p [] = []
all_matched p (m ∷ c) = matched_names p m ++ all_matched p c

unfoldable pub prefix_matches : Text → Catalogue → List Text
prefix_matches p c = if not (catalogue_complete c) then [] else all_matched p c

unfoldable pub prefix_match_note : Text → Catalogue → Text
unfolding prefix_matches
prefix_match_note p c =
    let names = prefix_matches p c in
    let n = length names in
    let more =
      if ltb prefix_names_shown n
      then text ", and " ++ (decimal (n - prefix_names_shown) ++ text " more")
      else [] in
    if eqb n 0
    then []
    else text "Matches "
      ++ (decimal n
          ++ (text " "
              ++ ((if eqb n 1 then text "tool" else text "tools")
                  ++ (text " advertised now: "
                      ++ (join (text ", ") (take prefix_names_shown names)
                          ++ (more ++ text "."))))))
