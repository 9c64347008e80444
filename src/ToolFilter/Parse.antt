-- ===== src/ToolFilter/Parse.antt =====
-- Reading a served filter: parseToolFilter of web/src/lib/tool-filter.ts.
use porymcp.Base.{
  ℕ, ◌+◌, ◌&&◌, Option, none, some, List, [], ◌∷◌, ◌++◌, leb, eqb, if◌then◌else◌, length, or_else,
  Text, text, ◌==◌,
}
use porymcp.Json.{Json, Items, Members, stringify}
use porymcp.Json.Json.{null, str, arr, obj}
use porymcp.Json.Items.{nil, cons}
use porymcp.Json.Members.{end, member}
use porymcp.ToolEntry.{FilterMode, unset, rule, allow, deny, FilterForm, clean_entry}
use porymcp.ToolFilter.Unique.{unique}

pub data ParsedFilter : Type 0 where
  no_filter : ParsedFilter
  filtered : FilterForm → ParsedFilter
  unreadable : Text → ParsedFilter

-- `toLowerCase` on one unit, as far as an ASCII letter comes of it: the ASCII capitals and
-- U+212A (kelvin). Every other unit maps to units that are no ASCII letter, but U+0130, whose i
-- is followed by U+0307.
lower_unit : ℕ → Text
lower_unit u =
    if leb b'A' u && leb u b'Z'
    then (u + 32) ∷ []
    else if eqb u 0x212a
    then b'k' ∷ []
    else if eqb u 0x130
    then b'i' ∷ 0x307 ∷ []
    else u ∷ []

unfoldable pub lower : Text → Text
unfolding lower_unit
lower [] = []
lower (u ∷ s) = lower_unit u ++ lower s

-- The members read so far. A later one replaces an earlier one of its name.
pub record Folded : Type 0 where
  pub mode : Option Json
  pub tools : Option Json
  pub prefixes : Option Json

abbrev pub no_members : Folded
no_members = record { mode = none; tools = none; prefixes = none }

-- A null mode is passed over; a null list is stored.
unfoldable pub put_mode : Json → Folded → Folded
put_mode null f = f
put_mode v f = record f { mode = some v }

-- One round of the loop over the entries; `none` is an unknown member.
unfoldable pub put_member : Text → Json → Folded → Option Folded
unfolding put_mode
put_member k v f =
    if k == text "mode"
    then some (put_mode v f)
    else if k == text "tools"
    then some (record f { tools = some v })
    else if k == text "prefixes"
    then some (record f { prefixes = some v })
    else none

unfoldable pub fold_members : Members → Folded → Option Folded
unfolding put_member
fold_members end f = some f
fold_members (member key v ms) f = elim (put_member (lower key) v f) [
  | none ↦ none
  | some f' ↦ fold_members ms f'
]

unfoldable pub read_mode : Option Json → Option FilterMode
read_mode none = some unset
read_mode (some (str [])) = some unset
read_mode (some (str (c ∷ s))) =
    if (c ∷ s) == text "allow"
    then some (rule allow)
    else if (c ∷ s) == text "deny"
    then some (rule deny)
    else none
read_mode (some _) = none

abbrev pub prepend : Text → Option (List Text) → Option (List Text)
prepend e none = none
prepend e (some es) = some (e ∷ es)

-- The strings of an array, each of them clean.
unfoldable pub read_entries : Items → Option (List Text)
read_entries nil = some []
read_entries (cons (str e) xs) =
    let rest = read_entries xs in if clean_entry e then prepend e rest else none
read_entries (cons _ xs) = none

abbrev pub distinct_entries : Option (List Text) → Option (List Text)
distinct_entries none = none
distinct_entries (some es) = some (unique es)

unfoldable pub read_list : Option Json → Option (List Text)
unfolding read_entries
read_list none = some []
read_list (some null) = some []
read_list (some (arr xs)) = distinct_entries (read_entries xs)
read_list (some _) = none

abbrev pub form_of : FilterMode → List Text → List Text → Option ParsedFilter
form_of unset tools prefixes =
    if eqb (length tools + length prefixes) 0 then some no_filter else none
form_of (rule allow) tools prefixes =
    if eqb (length tools + length prefixes) 0
    then none
    else some (filtered (record { mode = rule allow; tools = tools; prefixes = prefixes }))
form_of (rule deny) tools prefixes =
    some (filtered (record { mode = rule deny; tools = tools; prefixes = prefixes }))

infixl 5 ◌>>=◌
abbrev pub ◌>>=◌ : {A B : Type 0} → Option A → (A → Option B) → Option B
none >>= k = none
some a >>= k = k a

unfoldable pub read_folded : Folded → Option ParsedFilter
unfolding read_mode read_list
read_folded f = do
  mode ← read_mode f.mode
  tools ← read_list f.tools
  prefixes ← read_list f.prefixes
  form_of mode tools prefixes

unfoldable pub read_members : Members → Option ParsedFilter
unfolding fold_members read_folded
read_members ms = fold_members ms no_members >>= read_folded

-- `undefined` is `none`. Whatever is refused is unreadable, with the text that was served.
unfoldable pub parse_tool_filter : Option Json → ParsedFilter
unfolding read_members
parse_tool_filter none = no_filter
parse_tool_filter (some null) = no_filter
parse_tool_filter (some (obj ms)) = or_else (read_members ms) (unreadable (stringify (obj ms)))
parse_tool_filter (some raw) = unreadable (stringify raw)
