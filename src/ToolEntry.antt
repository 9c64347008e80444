-- ===== src/ToolEntry.antt =====
-- The tool identity and entry rules (web/src/lib/tool-entry.ts), and the form of a filter
-- (web/src/lib/tool-filter.ts).
pub mod Slug
pub mod Separator
pub mod Identity
pub mod Matching
pub mod Permits
pub mod Problem
mod Tests
use porymcp.Base.{
  ℕ, zero, suc, ◌+◌, ◌-◌, ◌*◌, Bool, true, false, not, ◌&&◌, ◌||◌, Option, none, some, List, [],
  ◌∷◌, ◌++◌, Text, text, ◌==◌, starts_with, is_empty, truthy, or_text, or_else, take, drop, length,
  any, all, filter, leb, ltb, eqb, if◌then◌else◌,
}
use porymcp.Json.{is_high, is_low, quote}
use Slug.{valid_slug}

-- Which way a rule works, and what an entry is: a tool's name or a prefix of names.
pub data Side : Type 0 where
  allow deny : Side

pub data EntryKind : Type 0 where
  tool prefix : EntryKind

-- '' is "No filter".
pub data FilterMode : Type 0 where
  unset : FilterMode
  rule : Side → FilterMode

pub record FilterForm : Type 0 where
  pub mode : FilterMode
  pub tools : List Text
  pub prefixes : List Text

abbrev pub tool_separator : Text
tool_separator = b'_' ∷ b'_' ∷ []

-- `s.indexOf(t)`, with `none` for -1.
unfoldable pub index_of : Text → Text → Option ℕ
index_of [] t = if starts_with [] t then some 0 else none
index_of (c ∷ s) t =
    if starts_with (c ∷ s) t
    then some 0
    else elim (index_of s t) [ none ↦ none | some i ↦ some (suc i) ]

pub record Split : Type 0 where
  pub head : Text
  pub rest : Text
  pub scoped : Bool

abbrev split_at : Text → Option ℕ → Split
split_at e none = record { head = []; rest = e; scoped = false }
split_at e (some zero) = record { head = []; rest = e; scoped = false }
split_at e (some (suc i)) = record {
  head = take (suc i) e;
  rest = drop (suc i + length tool_separator) e;
  scoped = true;
}

unfoldable pub split_entry : Text → Split
unfolding index_of
split_entry e = split_at e (index_of e tool_separator)

unfoldable pub scoped_tool_name : Text → Text → Text
scoped_tool_name [] name = []
scoped_tool_name (c ∷ slug) name = (c ∷ slug) ++ (tool_separator ++ name)

pub record DiscoveredTool : Type 0 where
  pub name : Text
  pub title : Option Text
  pub description : Option Text
  pub description_truncated : Option Bool
  pub scoped_name : Option Text

unfoldable pub tick_entry : Text → DiscoveredTool → Text
tick_entry slug t = or_text (or_else t.scoped_name []) (scoped_tool_name slug t.name)

is_space : ℕ → Bool
is_space cp =
    (leb 0x09 cp && leb cp 0x0d)
    || eqb cp 0x20
    || eqb cp 0x85
    || eqb cp 0xa0
    || eqb cp 0x1680
    || (leb 0x2000 cp && leb cp 0x200a)
    || eqb cp 0x2028
    || eqb cp 0x2029
    || eqb cp 0x202f
    || eqb cp 0x205f
    || eqb cp 0x3000

is_control : ℕ → Bool
is_control cp = leb cp 0x1f || (leb 0x7f cp && leb cp 0x9f)

-- The code points of a string, as `for (const ch of e)` steps through them: a lone surrogate is
-- one step of its own.
unfoldable pub code_points : Text → List ℕ
code_points [] = []
code_points (u ∷ []) = u ∷ []
code_points (u ∷ v ∷ s) =
    let pair = (0x10000 + (u - 0xd800) * 1024 + (v - 0xdc00)) ∷ code_points s in
    let single = u ∷ code_points (v ∷ s) in if is_high u && is_low v then pair else single

-- What one step of `cleanEntry`'s loop refuses.
unfoldable pub refused_point : ℕ → Bool
unfolding is_space is_control
refused_point cp = eqb cp 0xfffd || (leb 0xd800 cp && leb cp 0xdfff) || is_space cp || is_control cp

unfoldable pub clean_entry : Text → Bool
unfolding code_points refused_point
clean_entry e = if is_empty e then false else all (λ cp. not (refused_point cp)) (code_points e)

abbrev pub match_split : Split → Text → Text → Bool → Bool
match_split s slug name is_prefix =
    if s.scoped && not (s.head == slug)
    then false
    else if is_prefix
    then starts_with name s.rest
    else s.rest == name

unfoldable pub match_tool_entry : Text → Text → Text → Bool → Bool
unfolding split_entry
match_tool_entry entry slug name is_prefix =
    if is_empty entry then false else match_split (split_entry entry) slug name is_prefix

abbrev is_tool : EntryKind → Bool
is_tool tool = true
is_tool prefix = false

abbrev pub is_allow : Side → Bool
is_allow allow = true
is_allow deny = false

abbrev scoped_problem : Text → Text → Split → EntryKind → Text
scoped_problem entry shown s kind =
    if not (valid_slug s.head)
    then shown
      ++ (text ": the text before " ++ (tool_separator ++ text " must be an upstream's slug."))
    else if is_empty s.rest && is_tool kind
    then shown
      ++ (text ": nothing follows "
          ++ (tool_separator
              ++ text
                  ", so it names no tool. Add it as a prefix to cover every tool on that upstream."))
    else []

abbrev split_problem : Text → Text → Split → EntryKind → Side → Bool → Text
split_problem entry shown s kind side group_target =
    if s.scoped
    then scoped_problem entry shown s kind
    else if is_allow side && group_target
    then shown
      ++ (text " names no member, so it admits nothing. Write it as slug"
          ++ (tool_separator ++ (entry ++ text ".")))
    else []

unfoldable pub entry_problem : Text → EntryKind → Side → Bool → Text
unfolding split_entry clean_entry
entry_problem entry kind side group_target =
    if is_empty entry
    then text "An entry cannot be empty."
    else if not (clean_entry entry)
    then quote entry
      ++ text
          " holds a space or a control character. An entry is compared with the tool name character for character."
    else split_problem entry (quote entry) (split_entry entry) kind side group_target

-- The entries of a rule that can take effect: under allow an unscoped one is skipped.
unfoldable pub usable : Side → Text → Bool
unfolding split_entry
usable side e = not (is_allow side) || (split_entry e).scoped

unfoldable pub listed : FilterForm → Side → Text → Text → Bool
unfolding usable match_tool_entry
listed f side slug name =
    any (λ e. match_tool_entry e slug name false) (filter (usable side) f.tools)
    || any (λ e. match_tool_entry e slug name true) (filter (usable side) f.prefixes)

unfoldable pub permits_under : FilterMode → FilterForm → Text → Text → Bool
unfolding listed
permits_under unset f slug name = true
permits_under (rule allow) f slug name = listed f allow slug name
permits_under (rule deny) f slug name = not (listed f deny slug name)

unfoldable pub filter_permits : FilterForm → Text → Text → Bool
unfolding permits_under
filter_permits f slug name = permits_under f.mode f slug name
