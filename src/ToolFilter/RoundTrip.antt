-- ===== src/ToolFilter/RoundTrip.antt =====
-- Sending a filter and reading it back (filterValue and parseToolFilter of
-- web/src/lib/tool-filter.ts).
use porymcp.Base.{
  ◌+◌, ◌<◌, ◌≡◌, refl, ap, ◌≢◌, true, Option, none, some, List, [], ◌∷◌, arith, length, All, Text,
  text, Distinct,
}
use porymcp.Json.{Json, strings}
use porymcp.Json.Json.{str, arr}
use porymcp.Json.Members.{end, member}
use porymcp.ToolEntry.{FilterMode, unset, rule, Side, allow, deny, FilterForm, clean_entry}
use porymcp.ToolFilter.{
  unique_of_Distinct, filtered, lower, no_members, put_member, put_mode, fold_members, read_mode,
  read_entries, read_list, form_of, read_folded, read_members, parse_tool_filter,
}
use porymcp.ToolFilter.Defs.{filter_value, mode_value, list_member, mode_name}

abbrev pub AllClean : List Text → Type 0
AllClean es = All (λ e. clean_entry e ≡ true) es

-- A filter that the proxy enforces as it stands: a mode, lists of clean entries without
-- repetition, and something to allow.
pub record IsStored (f : FilterForm) : Type 0 where
  pub some_mode : f.mode ≢ unset
  pub distinct_tools : Distinct f.tools
  pub distinct_prefixes : Distinct f.prefixes
  pub clean_tools : AllClean f.tools
  pub clean_prefixes : AllClean f.prefixes
  pub some_entry : f.mode ≡ rule allow → 0 < length f.tools + length f.prefixes

read_entries-strings : (es : List Text) → AllClean es → read_entries (strings es) ≡ some es
unfolding read_entries
read_entries-strings [] h = refl
read_entries-strings (e ∷ es) h = rw (h.0, read_entries-strings es h.1)

-- What a list of the form becomes on the way.
abbrev sent : List Text → Option Json
sent [] = none
sent (e ∷ es) = some (arr (strings (e ∷ es)))

read_list-sent : (es : List Text) → Distinct es → AllClean es → read_list (sent es) ≡ some es
unfolding read_list
read_list-sent [] d h = refl
read_list-sent (e ∷ es) d h =
    rw (read_entries-strings (e ∷ es) h) (ap some (unique_of_Distinct (e ∷ es) d))

fold_members-sent :
    (m : Text) (tools prefixes : List Text)
    → fold_members
        (member
          (text "mode")
          (str m)
          (list_member (text "tools") tools (list_member (text "prefixes") prefixes end)))
        no_members
      ≡ some (record { mode = some (str m); tools = sent tools; prefixes = sent prefixes })
unfolding fold_members put_member put_mode lower text list_member
fold_members-sent m [] [] = refl
fold_members-sent m [] (p ∷ ps) = refl
fold_members-sent m (t ∷ ts) [] = refl
fold_members-sent m (t ∷ ts) (p ∷ ps) = refl

read_mode-mode_name : (side : Side) → read_mode (some (str (mode_name side))) ≡ some (rule side)
unfolding read_mode text
read_mode-mode_name allow = refl
read_mode-mode_name deny = refl

form_of-stored :
    (side : Side) (tools prefixes : List Text)
    → (rule side ≡ rule allow → 0 < length tools + length prefixes)
    → form_of (rule side) tools prefixes
      ≡ some (filtered (record { mode = rule side; tools = tools; prefixes = prefixes }))
form_of-stored deny tools prefixes h = refl
form_of-stored allow tools prefixes h = let full = h refl in ground arith

parse-mode_value :
    (side : Side) (tools prefixes : List Text)
    → IsStored (record { mode = rule side; tools = tools; prefixes = prefixes })
    → parse_tool_filter (some (mode_value (rule side) tools prefixes))
      ≡ filtered (record { mode = rule side; tools = tools; prefixes = prefixes })
unfolding parse_tool_filter mode_value read_members read_folded
parse-mode_value side tools prefixes s = rw (
  fold_members-sent (mode_name side) tools prefixes,
  read_mode-mode_name side,
  read_list-sent tools s.distinct_tools s.clean_tools,
  read_list-sent prefixes s.distinct_prefixes s.clean_prefixes,
  form_of-stored side tools prefixes s.some_entry,
)

abbrev form : FilterMode → List Text → List Text → FilterForm
form mode tools prefixes = record { mode = mode; tools = tools; prefixes = prefixes }

parse-value :
    (mode : FilterMode) (tools prefixes : List Text)
    → IsStored (form mode tools prefixes)
    → parse_tool_filter (some (mode_value mode tools prefixes))
      ≡ filtered (form mode tools prefixes)
parse-value unset tools prefixes s = absurd (s.some_mode refl)
parse-value (rule side) tools prefixes s = parse-mode_value side tools prefixes s

-- A filter that is sent is read back as it was, with its entries in their order.
pub parse_tool_filter-filter_value :
    (f : FilterForm) → IsStored f → parse_tool_filter (some (filter_value f)) ≡ filtered f
unfolding filter_value
parse_tool_filter-filter_value f s = parse-value f.mode f.tools f.prefixes s
