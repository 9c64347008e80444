-- ===== src/LogsView/Options.antt =====
-- The options of the Logs page's selects (web/src/lib/logs-view.ts).
use porymcp.Base.{
  ℕ, Bool, true, false, not, ◌&&◌, ◌||◌, Option, none, some, List, [], ◌∷◌, ◌++◌, map, leb, eqb,
  if◌then◌else◌, length, drop, any, filter, find, is_empty, is_found, Text, text, ◌==◌, starts_with,
  truthy, trim, decimal,
}
use porymcp.Copy.{absent}

pub record FacetEntry : Type 0 where
  pub value : Text
  pub count : ℕ

pub record LogFacets : Type 0 where
  pub methods : List FacetEntry
  pub tools : List FacetEntry
  pub statuses : List FacetEntry
  pub truncated : Bool

pub record FilterOption : Type 0 where
  pub value : Text
  pub label : Text

abbrev pub option : Text → Text → FilterOption
option value label = record { value = value; label = label }

abbrev pub none_choice : Text
none_choice = text "none"

abbrev pub named_tool : Text
named_tool = text "tool:"

unfoldable pub tool_choice : Text → Bool → Text
tool_choice tool true = none_choice
tool_choice [] false = []
tool_choice (c ∷ tool) false = named_tool ++ (c ∷ tool)

-- What a choice says of the tool: its name, and whether None is chosen.
pub record ToolPick : Type 0 where
  pub tool : Text
  pub no_tool : Bool

unfoldable pub from_tool_choice : Text → ToolPick
from_tool_choice v =
    if v == none_choice
    then record { tool = []; no_tool = true }
    else if starts_with v named_tool
    then record { tool = drop (length named_tool) v; no_tool = false }
    else record { tool = []; no_tool = false }

abbrev is_bidi : ℕ → Bool
is_bidi c = (leb 0x202a c && leb c 0x202e) || (leb 0x2066 c && leb c 0x2069)

unfoldable pub without_bidi : Text → Text
without_bidi s = filter (λ c. not (is_bidi c)) s

unfoldable pub counted : Text → ℕ → Text
unfolding without_bidi
counted label count =
    0x2068 ∷ (without_bidi label ++ (0x2069 ∷ (text " (" ++ (decimal count ++ text ")"))))

abbrev pub has_value : List FilterOption → Text → Bool
has_value os v = any (λ (o : FilterOption). o.value == v) os

unfoldable pub listed_methods : List FacetEntry → List FilterOption
listed_methods [] = []
listed_methods (e ∷ es) =
    let rest = listed_methods es in
    if truthy e.value then option e.value (counted e.value e.count) ∷ rest else rest

abbrev pub facet_methods : Option LogFacets → List FacetEntry
facet_methods none = []
facet_methods (some f) = f.methods

abbrev pub facet_tools : Option LogFacets → List FacetEntry
facet_tools none = []
facet_tools (some f) = f.tools

unfoldable pub method_options : Option LogFacets → Text → List FilterOption
unfolding listed_methods
method_options facets selected =
    let out = option [] (text "All methods") ∷ listed_methods (facet_methods facets) in
    if truthy selected && not (has_value out selected)
    then out ++ option selected selected ∷ []
    else out

-- The named tools of a facet list, and the count of its empty one: the last, where it is listed
-- more than once.
unfoldable pub listed_tools : List FacetEntry → List FilterOption
listed_tools [] = []
listed_tools (e ∷ es) =
    let rest = listed_tools es in
    if is_empty e.value
    then rest
    else option (named_tool ++ e.value) (counted e.value e.count) ∷ rest

unfoldable pub tool_names : List FacetEntry → List Text
tool_names [] = []
tool_names (e ∷ es) = let rest = tool_names es in if is_empty e.value then rest else e.value ∷ rest

unfoldable pub empty_count : Option ℕ → List FacetEntry → Option ℕ
empty_count found [] = found
empty_count found (e ∷ es) =
    let this = empty_count (some e.count) es in
    let rest = empty_count found es in if is_empty e.value then this else rest

-- The selected tool is not among the listed ones.
abbrev pub is_extra : List FilterOption → Text → Bool → Bool
is_extra listed tool no_tool =
    truthy tool && not no_tool && not (has_value listed (named_tool ++ tool))

unfoldable pub none_label : List Text → Option ℕ → Text
none_label names count =
    let clash = any (λ n. trim (without_bidi n) == absent) names in
    let label = if clash then absent ++ text " (no tool)" else absent in
    elim count [ none ↦ label | some n ↦ counted label n ]

-- The option for None goes first.
abbrev pub with_none : Bool → Text → List FilterOption → List FilterOption
with_none true label named = option none_choice label ∷ named
with_none false label named = named

unfoldable pub tool_options : Option LogFacets → Text → Bool → List FilterOption
unfolding listed_tools tool_names empty_count none_label
tool_options facets tool no_tool =
    let entries = facet_tools facets in
    let extra = is_extra (listed_tools entries) tool no_tool in
    let named =
      if extra
      then listed_tools entries ++ option (named_tool ++ tool) tool ∷ []
      else listed_tools entries in
    let names = if extra then tool_names entries ++ tool ∷ [] else tool_names entries in
    let empty = empty_count none entries in
    option [] (text "All tools")
    ∷ with_none (is_found empty || no_tool) (none_label names empty) named

pub data Status : Type 0 where
  success error blocked : Status

abbrev status_value : Status → Text
status_value success = text "success"
status_value error = text "error"
status_value blocked = text "blocked"

abbrev status_label : Status → Text
status_label success = text "Success"
status_label error = text "Error"
status_label blocked = text "Blocked"

abbrev count_of : Option FacetEntry → ℕ
count_of none = 0
count_of (some e) = e.count

unfoldable pub status_option : Option LogFacets → Status → FilterOption
status_option none s = option (status_value s) (status_label s)
status_option (some f) s = option (status_value s) (
    counted (status_label s)
      (count_of (find (λ (e : FacetEntry). e.value == status_value s) f.statuses)))

unfoldable pub status_options : Option LogFacets → List FilterOption
unfolding status_option
status_options facets =
    option [] (text "All statuses") ∷ map (status_option facets) (success ∷ error ∷ blocked ∷ [])

abbrev pub facet_cap : ℕ
facet_cap = 200

pub data FacetList : Type 0 where
  methods tools : FacetList

abbrev facet_list : FacetList → LogFacets → List FacetEntry
facet_list methods f = f.methods
facet_list tools f = f.tools

unfoldable pub facet_cut : Option LogFacets → FacetList → Bool
facet_cut none l = false
facet_cut (some f) l = f.truncated && eqb (length (facet_list l f)) facet_cap

abbrev pub same_query : Option Text → Option Text → Bool
same_query none none = true
same_query (some a) (some b) = a == b
same_query _ _ = false

unfoldable pub facet_fetch_due : Option Text → Option Text → Bool → Bool → Bool
facet_fetch_due held fq list_answered waited =
    is_found fq && not (same_query held fq) && (list_answered || waited)

pub record FacetAnswer : Type 0 where
  pub fq : Text
  pub facets : Option LogFacets
  pub error : Text

pub record Facets : Type 0 where
  pub facets : Option LogFacets
  pub error : Text

abbrev no_facets : Facets
no_facets = record { facets = none; error = [] }

unfoldable pub facets_for : Option FacetAnswer → Option Text → Facets
facets_for none fq = no_facets
facets_for (some a) fq =
    if same_query (some a.fq) fq then record { facets = a.facets; error = a.error } else no_facets
