-- ===== src/LogsView/Choice.antt =====
-- What the Tool and Method selects show (toolChoice, fromToolChoice, toolOptions and methodOptions
-- of web/src/lib/logs-view.ts).
use porymcp.Base.{
  ℕ, ◌≡◌, refl, ◌∙◌, inl, inr, Bool, true, false, ◌||◌, Option, none, List, [], ◌∷◌, ◌++◌,
  if◌then◌else◌, Bool-cases, or_right, any-append, is_found, Text, text, ◌==◌, eq_refl,
}
use porymcp.LogsView.Options.{
  FilterOption, LogFacets, tool_choice, from_tool_choice, tool_options, method_options, none_choice,
  with_none, named_tool, has_value, is_extra, listed_tools, empty_count, listed_methods,
  facet_tools, facet_methods, option,
}

-- A choice stands for the filter that it was made of, where None is chosen without a tool.
pub from_tool_choice-tool_choice :
    (tool : Text) (no_tool : Bool)
    → (no_tool ≡ true → tool ≡ [])
    → from_tool_choice (tool_choice tool no_tool) ≡ record { tool = tool; no_tool = no_tool }
unfolding from_tool_choice tool_choice text
from_tool_choice-tool_choice tool true h = rw (h refl) refl
from_tool_choice-tool_choice [] false h = refl
from_tool_choice-tool_choice (c ∷ tool) false h = refl

has_value-append :
    (os ps : List FilterOption) (v : Text)
    → has_value (os ++ ps) v ≡ (has_value os v || has_value ps v)
has_value-append os ps v = any-append (λ (o : FilterOption). o.value == v) os ps

-- A value among the options is there under the one that may be put first.
has_value-with_none :
    (b : Bool) (label : Text) (os : List FilterOption) (v : Text)
    → has_value os v ≡ true
    → has_value (with_none b label os) v ≡ true
has_value-with_none true label os v h = or_right (none_choice == v) (has_value os v) h
has_value-with_none false label os v h = h

none_chosen :
    (b : Bool) (label : Text) (os : List FilterOption)
    → has_value (with_none (b || true) label os) none_choice ≡ true
none_chosen true label os = rw (eq_refl none_choice) refl
none_chosen false label os = rw (eq_refl none_choice) refl

extra_listed :
    (listed : List FilterOption) (c : ℕ) (tool label : Text)
    → has_value
        (if is_extra listed (c ∷ tool) false
          then listed ++ option (named_tool ++ (c ∷ tool)) label ∷ []
          else listed)
        (named_tool ++ (c ∷ tool))
      ≡ true
extra_listed listed c tool label = elim (Bool-cases (has_value listed (named_tool ++ (c ∷ tool)))) [
  | inl there ↦ rw there there
  | inr missing ↦ rw missing (
      has_value-append listed (option (named_tool ++ (c ∷ tool)) label ∷ [])
        (named_tool ++ (c ∷ tool))
      ∙ or_right (has_value listed (named_tool ++ (c ∷ tool))) _
          (rw (eq_refl (named_tool ++ (c ∷ tool))) refl))
]

-- Whatever the server counted, the Tool select has an option for the choice that is made.
pub tool_options-tool_choice :
    (facets : Option LogFacets) (tool : Text) (no_tool : Bool)
    → has_value (tool_options facets tool no_tool) (tool_choice tool no_tool) ≡ true
unfolding tool_options tool_choice
tool_options-tool_choice facets tool true =
    or_right ([] == none_choice) _
      (none_chosen (is_found (empty_count none (facet_tools facets))) _ _)
tool_options-tool_choice facets [] false = refl
tool_options-tool_choice facets (c ∷ tool) false = or_right ([] == (named_tool ++ (c ∷ tool))) _ (
    has_value-with_none (is_found (empty_count none (facet_tools facets)) || false) _ _
      (named_tool ++ (c ∷ tool))
      (extra_listed (listed_tools (facet_tools facets)) c tool (c ∷ tool)))

-- The Method select has an option for the method that is selected.
pub method_options-selected :
    (facets : Option LogFacets) (selected : Text)
    → has_value (method_options facets selected) selected ≡ true
unfolding method_options
method_options-selected facets [] = refl
method_options-selected facets (c ∷ s) =
    elim (Bool-cases (
      has_value (option [] (text "All methods") ∷ listed_methods (facet_methods facets)) (c ∷ s))) [
        | inl there ↦ rw there there
        | inr missing ↦ rw missing (
            has_value-append
              (option [] (text "All methods") ∷ listed_methods (facet_methods facets))
              (option (c ∷ s) (c ∷ s) ∷ []) (c ∷ s)
            ∙ or_right
                (has_value (option [] (text "All methods") ∷ listed_methods (facet_methods facets))
                  (c ∷ s))
                _ (rw (eq_refl (c ∷ s)) refl))
      ]
