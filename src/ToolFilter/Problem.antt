-- ===== src/ToolFilter/Problem.antt =====
-- What the form says about a filter (filterProblem, listProblem, filterAdmitsNothing and
-- filterListsNothing of web/src/lib/tool-filter.ts).
use porymcp.Base.{
  ◌+◌, ◌<◌, ◌≡◌, refl, sym, ap, ap₂, ◌∙◌, ◌≢◌, ◌↔◌, inl, inr, Bool, true, false, ◌&&◌, ◌||◌, some,
  List, [], ◌∷◌, ◌++◌, arith, eqb, eqb_iff, Bool-cases, or_false, length, any, All, any-append,
  any-filter, any_ext, Text, text, or_text, Distinct,
}
use porymcp.ToolEntry.{
  FilterMode, unset, rule, Side, allow, FilterForm, EntryKind, tool, prefix, clean_entry,
  entry_problem, filter_permits, permits_under, listed, usable, split_entry,
}
use porymcp.ToolEntry.Problem.{IsAcceptable, entry_problem_iff, clean_entry_iff}
use porymcp.ToolFilter.{parse_tool_filter, filtered}
use porymcp.ToolFilter.Defs.{
  filter_value, first_problem, filter_problem, mode_problem, zero_entries, list_problem,
  filter_admits_nothing,
}
use porymcp.ToolFilter.RoundTrip.{AllClean, IsStored, parse_tool_filter-filter_value}

abbrev pub AllAcceptable : List Text → EntryKind → Side → Bool → Type 0
AllAcceptable es kind side group_target = All (λ e. IsAcceptable e kind side group_target) es

or_text_nil : (a b : Text) → (or_text a b ≡ []) ↔ ((a ≡ []) × (b ≡ []))
or_text_nil [] b = (λ h. (refl, h), λ k. k.1)
or_text_nil (c ∷ a) b = (λ h. ground arith, λ k. k.0)

first_problem_iff :
    (es : List Text) (kind : EntryKind) (side : Side) (group_target : Bool)
    → (first_problem (λ e. entry_problem e kind side group_target) es ≡ [])
      ↔ AllAcceptable es kind side group_target
unfolding first_problem
first_problem_iff [] kind side group_target = (λ _. tt, λ _. refl)
first_problem_iff (e ∷ es) kind side group_target =
    let here = entry_problem_iff e kind side group_target in
    let later = first_problem_iff es kind side group_target in
    let parts = or_text_nil (entry_problem e kind side group_target) _ in
    (λ h. let (p, q) = parts.0 h in (here.0 p, later.0 q), λ k. parts.1 (here.1 k.0, later.1 k.1))

-- A key's list has no problem exactly when the API accepts each of its entries.
pub list_problem_iff :
    (list : List Text) (side : Side) (group_target : Bool)
    → (list_problem list side group_target ≡ []) ↔ AllAcceptable list tool side group_target
unfolding list_problem
list_problem_iff list side group_target = first_problem_iff list tool side group_target

-- A filter that the API accepts: none, or a mode with at least one entry, each acceptable on
-- that side of a group's rule.
abbrev pub IsSendable : FilterMode → List Text → List Text → Type 0
IsSendable unset tools prefixes = Unit {0}
IsSendable (rule side) tools prefixes =
    (0 < length tools + length prefixes)
    × AllAcceptable tools tool side true
    × AllAcceptable prefixes prefix side true

sentence : zero_entries ≢ []
unfolding text
sentence h = ground arith

mode_problem_iff :
    (mode : FilterMode) (tools prefixes : List Text)
    → (mode_problem mode tools prefixes ≡ []) ↔ IsSendable mode tools prefixes
unfolding mode_problem
mode_problem_iff unset tools prefixes = (λ _. tt, λ _. refl)
mode_problem_iff (rule side) tools prefixes =
    elim (Bool-cases (eqb (length tools + length prefixes) 0)) [
      | inl empty ↦ (
        λ h. absurd (sentence (rw empty at h)),
        λ k. let full = k.0 in let no_entry = (eqb_iff _ _).0 empty in absurd (omega arith),
      )
      | inr full ↦
          let t = first_problem_iff tools tool side true in
          let p = first_problem_iff prefixes prefix side true in
          let parts = or_text_nil (first_problem (λ e. entry_problem e tool side true) tools) _ in
          (
            λ h. let (a, b) = parts.0 (rw full at h) in (ground arith, t.0 a, p.0 b),
            λ k. rw full (parts.1 (t.1 k.1, p.1 k.2)),
          )
    ]

-- The form reports no problem exactly for the filters that the API accepts and that list
-- something.
pub filter_problem_iff :
    (f : FilterForm) → (filter_problem f ≡ []) ↔ IsSendable f.mode f.tools f.prefixes
unfolding filter_problem
filter_problem_iff f = mode_problem_iff f.mode f.tools f.prefixes

Acceptable-clean :
    (e : Text) (kind : EntryKind) (side : Side) (group_target : Bool)
    → IsAcceptable e kind side group_target
    → clean_entry e ≡ true
Acceptable-clean [] kind side group_target a = absurd (a.some_text refl)
Acceptable-clean (c ∷ e) kind side group_target a = (clean_entry_iff c e).1 a.clean

AllClean-of_acceptable :
    (es : List Text) (kind : EntryKind) (side : Side) (group_target : Bool)
    → AllAcceptable es kind side group_target
    → AllClean es
AllClean-of_acceptable [] kind side group_target h = tt
AllClean-of_acceptable (e ∷ es) kind side group_target h = (
  Acceptable-clean e kind side group_target h.0,
  AllClean-of_acceptable es kind side group_target h.1,
)

IsStored-of_sendable :
    (mode : FilterMode) (tools prefixes : List Text)
    → mode ≢ unset
    → Distinct tools
    → Distinct prefixes
    → IsSendable mode tools prefixes
    → IsStored (record { mode = mode; tools = tools; prefixes = prefixes })
IsStored-of_sendable unset tools prefixes m dt dp s = absurd (m refl)
IsStored-of_sendable (rule side) tools prefixes m dt dp s = record {
  some_mode = m;
  distinct_tools = dt;
  distinct_prefixes = dp;
  clean_tools = AllClean-of_acceptable tools tool side true s.1;
  clean_prefixes = AllClean-of_acceptable prefixes prefix side true s.2;
  some_entry = λ _. s.0;
}

-- A form with a mode, no repeated entry and no problem is read back, from the value that
-- filter_value sends, as the very same form.
pub filter_problem-round_trip :
    (f : FilterForm)
    → f.mode ≢ unset
    → Distinct f.tools
    → Distinct f.prefixes
    → filter_problem f ≡ []
    → parse_tool_filter (some (filter_value f)) ≡ filtered f
filter_problem-round_trip f m dt dp h =
    parse_tool_filter-filter_value f
      (IsStored-of_sendable f.mode f.tools f.prefixes m dt dp ((filter_problem_iff f).0 h))

any-false :
    (p : Text → Bool) (xs : List Text)
    → any p xs ≡ false
    → (q : Text → Bool) → any (λ x. p x && q x) xs ≡ false
any-false p [] h q = refl
any-false p (x ∷ xs) h q =
    let (here, later) = or_false (p x) (any p xs) h in rw (here) (any-false p xs later q)

allow_usable : (e : Text) → usable allow e ≡ (split_entry e).scoped
unfolding usable
allow_usable e = refl

nothing_listed :
    (f : FilterForm) (slug name : Text)
    → any (λ e. (split_entry e).scoped) (f.tools ++ f.prefixes) ≡ false
    → listed f allow slug name ≡ false
unfolding listed
nothing_listed f slug name h =
    let (t, p) = or_false (any (usable allow) f.tools) (any (usable allow) f.prefixes) (
      sym (any-append (usable allow) f.tools f.prefixes)
      ∙ any_ext _ _ (f.tools ++ f.prefixes) allow_usable
      ∙ h) in
    ap₂ ◌||◌ (any-filter _ (usable allow) f.tools ∙ any-false (usable allow) f.tools t _)
      (any-filter _ (usable allow) f.prefixes ∙ any-false (usable allow) f.prefixes p _)

admits_nothing_cases :
    (f : FilterForm)
    → filter_admits_nothing f ≢ []
    → (f.mode ≡ rule allow) × (any (λ e. (split_entry e).scoped) (f.tools ++ f.prefixes) ≡ false)
unfolding filter_admits_nothing
admits_nothing_cases f h = ground arith

-- Where the form says that an allow filter admits nothing, it lets no tool through.
pub filter_admits_nothing-filter_permits :
    (f : FilterForm)
    → filter_admits_nothing f ≢ []
    → (slug name : Text) → filter_permits f slug name ≡ false
unfolding filter_permits permits_under
filter_admits_nothing-filter_permits f h slug name =
    let (mode, none_scoped) = admits_nothing_cases f h in
    ap (λ m. permits_under m f slug name) mode ∙ nothing_listed f slug name none_scoped
