-- ===== src/ToolFilter/Defs.antt =====
-- The rest of web/src/lib/tool-filter.ts: the value to send, the problems, the edits, the copy.
use porymcp.Base.{
  ℕ, ◌+◌, Bool, true, false, not, ◌&&◌, ◌||◌, Option, List, [], ◌∷◌, ◌++◌, leb, eqb, if◌then◌else◌,
  length, take, any, filter, is_empty, or_else, Text, text, ◌==◌, join, or_text, includes,
}
use porymcp.Json.{is_high, is_low, Json, Members, strings}
use porymcp.Json.Json.{null, str, arr, obj}
use porymcp.Json.Members.{end, member}
use porymcp.ToolEntry.{
  FilterMode, unset, rule, Side, allow, deny, FilterForm, tool, prefix, entry_problem, split_entry,
  tool_separator,
}
use porymcp.ToolFilter.{same_set}

abbrev pub blank_filter_form : FilterForm
blank_filter_form = record { mode = unset; tools = []; prefixes = [] }

abbrev pub mode_name : Side → Text
mode_name allow = text "allow"
mode_name deny = text "deny"

-- A list is left out when it is empty.
unfoldable pub list_member : Text → List Text → Members → Members
list_member key [] ms = ms
list_member key (e ∷ es) ms = member key (arr (strings (e ∷ es))) ms

unfoldable pub mode_value : FilterMode → List Text → List Text → Json
unfolding list_member
mode_value unset tools prefixes = null
mode_value (rule side) tools prefixes = obj (
    member (text "mode") (str (mode_name side))
      (list_member (text "tools") tools (list_member (text "prefixes") prefixes end)))

unfoldable pub filter_value : FilterForm → Json
unfolding mode_value
filter_value f = mode_value f.mode f.tools f.prefixes

abbrev pub is_unset : FilterMode → Bool
is_unset unset = true
is_unset (rule side) = false

abbrev pub same_mode : FilterMode → FilterMode → Bool
same_mode unset unset = true
same_mode (rule allow) (rule allow) = true
same_mode (rule deny) (rule deny) = true
same_mode _ _ = false

unfoldable pub same_filter : FilterForm → FilterForm → Bool
same_filter a b =
    if is_unset a.mode && is_unset b.mode
    then true
    else same_mode a.mode b.mode && same_set a.tools b.tools && same_set a.prefixes b.prefixes

unfoldable pub same_entries : Option (List Text) → Option (List Text) → Bool
same_entries a b = same_set (or_else a []) (or_else b [])

unfoldable pub toggle_entry : List Text → Text → Bool → List Text
toggle_entry list entry true = if includes list entry then list else list ++ entry ∷ []
toggle_entry list entry false = filter (λ e. not (e == entry)) list

abbrev pub zero_entries : Text
zero_entries = text "List at least one tool or prefix, or choose No filter."

-- The first entry's problem that is not ''.
unfoldable pub first_problem : (Text → Text) → List Text → Text
first_problem problem [] = []
first_problem problem (e ∷ es) = or_text (problem e) (first_problem problem es)

unfoldable pub mode_problem : FilterMode → List Text → List Text → Text
mode_problem unset tools prefixes = []
mode_problem (rule side) tools prefixes =
    if eqb (length tools + length prefixes) 0
    then zero_entries
    else or_text (first_problem (λ e. entry_problem e tool side true) tools)
        (first_problem (λ e. entry_problem e prefix side true) prefixes)

unfoldable pub filter_problem : FilterForm → Text
unfolding mode_problem
filter_problem f = mode_problem f.mode f.tools f.prefixes

unfoldable pub list_problem : List Text → Side → Bool → Text
list_problem list side group_target =
    first_problem (λ e. entry_problem e tool side group_target) list

abbrev pub is_allow_mode : FilterMode → Bool
is_allow_mode (rule allow) = true
is_allow_mode _ = false

unfoldable pub filter_admits_nothing : FilterForm → Text
filter_admits_nothing f =
    if not (is_allow_mode f.mode)
    then []
    else if is_empty (f.tools ++ f.prefixes)
        || any (λ e. (split_entry e).scoped) (f.tools ++ f.prefixes)
    then []
    else text
        "Every entry in this allow rule names no member, so it admits nothing and every tool on this group is blocked."

abbrev pub is_deny_mode : FilterMode → Bool
is_deny_mode (rule deny) = true
is_deny_mode _ = false

unfoldable pub filter_lists_nothing : FilterForm → Text
filter_lists_nothing f =
    if is_deny_mode f.mode && eqb (length f.tools + length f.prefixes) 0
    then text "This filter lists nothing, so it blocks nothing."
    else []

abbrev verb : Side → Text
verb allow = text "Allows"
verb deny = text "Denies"

unfoldable pub add_tool_hint : Side → Text
add_tool_hint side =
    verb side
    ++ text
        " one tool. Write its full name: the upstream's slug, two underscores, then the tool's own name."

unfoldable pub add_prefix_hint : Side → Text
add_prefix_hint side =
    verb side
    ++ text
        " every tool whose own name starts with this text, so it can match more than one. For a single tool, use the box above."

unfoldable pub whole_member_label : FilterMode → Text → Text
whole_member_label mode slug =
    (if is_allow_mode mode then text "Allow" else text "Deny")
    ++ (text " every tool on " ++ (slug ++ text ", including tools it adds later."))

unfoldable pub whole_member_prefix : Text → Text
whole_member_prefix slug = slug ++ tool_separator

pub record Clamped : Type 0 where
  pub text : Text
  pub cut : Bool

-- `Array.from(s)`: the code points of a string, each as its one or two units.
unfoldable pub pieces : Text → List Text
pieces [] = []
pieces (u ∷ []) = (u ∷ []) ∷ []
pieces (u ∷ v ∷ s) =
    let pair = (u ∷ v ∷ []) ∷ pieces s in
    let single = (u ∷ []) ∷ pieces (v ∷ s) in if is_high u && is_low v then pair else single

unfoldable pub clamp_text : Text → ℕ → Clamped
clamp_text s max =
    let points = pieces s in
    if leb (length points) max
    then record { text = s; cut = false }
    else record { text = join [] (take max points); cut = true }
