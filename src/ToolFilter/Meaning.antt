-- ===== src/ToolFilter/Meaning.antt =====
-- What a filter means, and what the form says about it (sameFilter, filterProblem,
-- filterAdmitsNothing and filterListsNothing of web/src/lib/tool-filter.ts).
use porymcp.Base.{
  ◌≡◌, refl, sym, ap, ap₂, ◌∙◌, ◌↔◌, ◌⊎◌, inl, inr, true, false≢true, not, ◌&&◌, ◌||◌, Bool-cases,
  and_parts, any-filter, Text, SameSet, any-SameSet,
}
use porymcp.ToolEntry.{
  FilterMode, unset, rule, Side, allow, deny, FilterForm, filter_permits, permits_under, listed,
  usable,
}
use porymcp.ToolFilter.{same_set, same_set_iff}
use porymcp.ToolFilter.Defs.{same_filter, same_mode, is_unset}

-- Two filters that are one as the proxy reads them: no filter both, or the same mode over lists
-- with the same entries.
abbrev pub SameMeaning : FilterForm → FilterForm → Type 0
SameMeaning a b =
    ((a.mode ≡ unset) × (b.mode ≡ unset))
    ⊎ ((a.mode ≡ b.mode) × SameSet a.tools b.tools × SameSet a.prefixes b.prefixes)

same_mode_iff : (m n : FilterMode) → (same_mode m n ≡ true) ↔ (m ≡ n)
same_mode_iff unset unset = (λ _. refl, λ _. refl)
same_mode_iff unset (rule side) = (λ h. cc, λ e. cc)
same_mode_iff (rule allow) unset = (λ h. cc, λ e. cc)
same_mode_iff (rule deny) unset = (λ h. cc, λ e. cc)
same_mode_iff (rule allow) (rule allow) = (λ _. refl, λ _. refl)
same_mode_iff (rule allow) (rule deny) = (λ h. cc, λ e. cc)
same_mode_iff (rule deny) (rule allow) = (λ h. cc, λ e. cc)
same_mode_iff (rule deny) (rule deny) = (λ _. refl, λ _. refl)

same_parts_iff :
    (a b : FilterForm)
    → ((same_mode a.mode b.mode && same_set a.tools b.tools && same_set a.prefixes b.prefixes)
        ≡ true)
      ↔ ((a.mode ≡ b.mode) × SameSet a.tools b.tools × SameSet a.prefixes b.prefixes)
same_parts_iff a b = (
  λ h.
      let (mt, p) = and_parts _ _ h in
      let (m, t) = and_parts _ _ mt in
      (
        (same_mode_iff a.mode b.mode).0 m,
        (same_set_iff a.tools b.tools).0 t,
        (same_set_iff a.prefixes b.prefixes).0 p,
      ),
  λ k. rw (
    (same_mode_iff a.mode b.mode).1 k.0,
    (same_set_iff a.tools b.tools).1 k.1,
    (same_set_iff a.prefixes b.prefixes).1 k.2,
  ),
)

both_unset_iff :
    (m n : FilterMode) → ((is_unset m && is_unset n) ≡ true) ↔ ((m ≡ unset) × (n ≡ unset))
both_unset_iff unset unset = (λ _. (refl, refl), λ _. refl)
both_unset_iff unset (rule side) = (λ h. cc, λ k. cc (k.1))
both_unset_iff (rule side) n = (λ h. cc, λ k. cc (k.0))

-- `same_filter` decides whether two filters mean the same: the order of the entries, and the
-- entries kept under No filter, are not part of it.
pub same_filter_iff : (a b : FilterForm) → (same_filter a b ≡ true) ↔ SameMeaning a b
unfolding same_filter
same_filter_iff a b = elim (Bool-cases (is_unset a.mode && is_unset b.mode)) [
  | inl both ↦ (λ _. inl ((both_unset_iff a.mode b.mode).0 both), λ _. rw both)
  | inr other ↦ (
    λ h. inr ((same_parts_iff a b).0 (rw other at h)),
    λ k. elim k [
      | inl u ↦ absurd (false≢true (sym other ∙ (both_unset_iff a.mode b.mode).1 u))
      | inr p ↦ rw other ((same_parts_iff a b).1 p)
    ],
  )
]

listed-SameSet :
    (a b : FilterForm) (side : Side) (slug name : Text)
    → SameSet a.tools b.tools
    → SameSet a.prefixes b.prefixes
    → listed a side slug name ≡ listed b side slug name
unfolding listed
listed-SameSet a b side slug name t p =
    ap₂ ◌||◌
      (any-filter _ (usable side) a.tools
        ∙ any-SameSet _ a.tools b.tools t
        ∙ sym (any-filter _ (usable side) b.tools))
      (any-filter _ (usable side) a.prefixes
        ∙ any-SameSet _ a.prefixes b.prefixes p
        ∙ sym (any-filter _ (usable side) b.prefixes))

permits_under_same :
    (m : FilterMode) (a b : FilterForm) (slug name : Text)
    → SameSet a.tools b.tools
    → SameSet a.prefixes b.prefixes
    → permits_under m a slug name ≡ permits_under m b slug name
unfolding permits_under
permits_under_same unset a b slug name t p = refl
permits_under_same (rule allow) a b slug name t p = listed-SameSet a b allow slug name t p
permits_under_same (rule deny) a b slug name t p = ap not (listed-SameSet a b deny slug name t p)

-- Filters that are judged the same let the same tools through, so a save that is left out for
-- that reason loses nothing.
pub same_filter-filter_permits :
    (a b : FilterForm)
    → same_filter a b ≡ true
    → (slug name : Text) → filter_permits a slug name ≡ filter_permits b slug name
unfolding filter_permits permits_under
same_filter-filter_permits a b h slug name = elim ((same_filter_iff a b).0 h) [
  | inl u ↦
      ap (λ m. permits_under m a slug name) u.0 ∙ ap (λ m. permits_under m b slug name) (sym u.1)
  | inr p ↦
      ap (λ m. permits_under m a slug name) p.0 ∙ permits_under_same b.mode a b slug name p.1 p.2
]
