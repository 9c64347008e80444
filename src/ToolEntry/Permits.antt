-- ===== src/ToolEntry/Permits.antt =====
-- Which tools a group's filter lets through (filterPermits of web/src/lib/tool-entry.ts).
use porymcp.Base.{
  ◌≡◌, refl, sym, ap, ◌∙◌, ◌↔◌, ◌⊎◌, inl, inr, Bool, true, false, false≢true, true≢false, ◌&&◌,
  List, Bool-cases, and_parts, or_cases, or_right, not-true, any, filter, any-filter, Text,
  includes, any_of_includes, any_witness,
}
use porymcp.ToolEntry.{
  Side, allow, deny, FilterMode, unset, rule, FilterForm, match_tool_entry, filter_permits,
  permits_under, listed, usable,
}
use porymcp.ToolEntry.Matching.{Bare, Reaches, entry_cases, match_tool_entry_iff}

-- Under allow an entry that names no member is skipped.
abbrev pub Effective : Side → Text → Type 0
Effective allow e = Bare e → ⊥
Effective deny e = Unit {0}

-- A listed entry that takes effect reaches the tool.
abbrev pub Covers : Bool → Side → List Text → Text → Text → Type 0
Covers is_prefix side entries slug name =
    (e : Text) × (includes entries e ≡ true) × Effective side e × Reaches is_prefix e slug name

abbrev pub Lists : Side → FilterForm → Text → Text → Type 0
Lists side f slug name = Covers false side f.tools slug name ⊎ Covers true side f.prefixes slug name

abbrev pub Permits : FilterMode → FilterForm → Text → Text → Type 0
Permits unset f slug name = Unit {0}
Permits (rule allow) f slug name = Lists allow f slug name
Permits (rule deny) f slug name = Lists deny f slug name → ⊥

pub usable_iff : (side : Side) (e : Text) → (usable side e ≡ true) ↔ Effective side e
unfolding usable
usable_iff deny e = (λ _. tt, λ _. refl)
usable_iff allow e = elim (entry_cases e) [
  | inl (head, rest, cut, s) ↦ (λ _ bare. bare head rest cut, λ _. ap (λ x. x.scoped) s)
  | inr (bare, s) ↦
      (λ h. absurd (false≢true (sym (ap (λ x. x.scoped) s) ∙ h)), λ k. absurd (k bare))
]

Covers-iff :
    (is_prefix : Bool) (side : Side) (entries : List Text) (slug name : Text)
    → (any (λ e. match_tool_entry e slug name is_prefix) (filter (usable side) entries) ≡ true)
      ↔ Covers is_prefix side entries slug name
Covers-iff is_prefix side entries slug name = (
  λ h.
      let (e, m, k) =
        any_witness (λ e. usable side e && match_tool_entry e slug name is_prefix) entries
          (sym (any-filter _ (usable side) entries) ∙ h) in
      let (u, r) = and_parts _ _ k in
      (e, m, (usable_iff side e).0 u, (match_tool_entry_iff e slug name is_prefix).0 r),
  λ c.
      any-filter _ (usable side) entries
      ∙ any_of_includes (λ e. usable side e && match_tool_entry e slug name is_prefix) entries c.0
          c.1
          (rw ((usable_iff side c.0).1 c.2, (match_tool_entry_iff c.0 slug name is_prefix).1 c.3)),
)

listed_iff :
    (f : FilterForm) (side : Side) (slug name : Text)
    → (listed f side slug name ≡ true) ↔ Lists side f slug name
unfolding listed
listed_iff f side slug name = (
  λ h. elim (or_cases _ _ h) [
    | inl t ↦ inl ((Covers-iff false side f.tools slug name).0 t)
    | inr p ↦ inr ((Covers-iff true side f.prefixes slug name).0 p)
  ],
  λ l. elim l [
    | inl t ↦ rw ((Covers-iff false side f.tools slug name).1 t)
    | inr p ↦ or_right _ _ ((Covers-iff true side f.prefixes slug name).1 p)
  ],
)

permits_under_iff :
    (mode : FilterMode) (f : FilterForm) (slug name : Text)
    → (permits_under mode f slug name ≡ true) ↔ Permits mode f slug name
unfolding permits_under
permits_under_iff unset f slug name = (λ _. tt, λ _. refl)
permits_under_iff (rule allow) f slug name = listed_iff f allow slug name
permits_under_iff (rule deny) f slug name = (
  λ h l. true≢false (sym ((listed_iff f deny slug name).1 l) ∙ not-true _ h),
  λ k. elim (Bool-cases (listed f deny slug name)) [
    | inl l ↦ absurd (k ((listed_iff f deny slug name).0 l))
    | inr l ↦ rw l
  ],
)

-- filter_permits decides the meaning of a filter: with no mode every tool passes; under allow a
-- tool passes exactly when a listed entry that names a member reaches it, a tools entry by the
-- whole name and a prefixes entry by its beginning; under deny exactly when no listed entry
-- reaches it.
pub filter_permits_iff :
    (f : FilterForm) (slug name : Text)
    → (filter_permits f slug name ≡ true) ↔ Permits f.mode f slug name
unfolding filter_permits
filter_permits_iff f slug name = permits_under_iff f.mode f slug name
