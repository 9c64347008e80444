-- ===== src/Catalogue/Verdicts.antt =====
-- Verdicts are passed over a complete catalogue alone (catalogueComplete, unmatchedEntries and
-- blocksEverything of web/src/lib/catalogue.ts).
use porymcp.Base.{
  ◌≡◌, refl, sym, ap, ◌∙◌, ◌≢◌, ◌↔◌, inl, inr, Bool, true, false, true≢false, not, ◌&&◌, List, [],
  ◌∷◌, arith, Bool-cases, and_parts, not-true, drop, filter, All, Exists, any_iff, all_iff, Text,
  ◌==◌, eq_sound, includes,
}
use porymcp.ToolEntry.{DiscoveredTool}
use porymcp.ToolEntry.Matching.{Reaches, match_tool_entry_iff}
use porymcp.Catalogue.{
  MemberCatalogue, Catalogue, LoadState, idle, loading, loaded, failed, whole, is_loaded,
  catalogue_complete, advertised, unmatched_entries,
}

-- The member answered, and with all its tools.
abbrev pub Answered : MemberCatalogue → Type 0
Answered m = (m.state ≡ loaded) × (m.truncated ≡ false)

abbrev pub Complete : Catalogue → Type 0
Complete c = (c ≢ []) × All Answered c

loaded_iff : (s : LoadState) → (is_loaded s ≡ true) ↔ (s ≡ loaded)
loaded_iff idle = (λ h. cc, λ h. cc)
loaded_iff loading = (λ h. cc, λ h. cc)
loaded_iff loaded = (λ h. refl, λ h. refl)
loaded_iff failed = (λ h. cc, λ h. cc)

whole_iff : (m : MemberCatalogue) → (whole m ≡ true) ↔ Answered m
unfolding whole
whole_iff m = (
  λ h.
      let (a, b) = and_parts (is_loaded m.state) (not m.truncated) h in
      ((loaded_iff m.state).0 a, not-true m.truncated b),
  λ k. rw ((loaded_iff m.state).1 k.0, k.1),
)

pub catalogue_complete_iff : (c : Catalogue) → (catalogue_complete c ≡ true) ↔ Complete c
unfolding catalogue_complete
catalogue_complete_iff [] = (λ h. ground arith, λ k. absurd (k.0 refl))
catalogue_complete_iff (m ∷ c) = (
  λ h. ((λ e. ground arith), (all_iff whole Answered whole_iff (m ∷ c)).0 h),
  λ k. (all_iff whole Answered whole_iff (m ∷ c)).1 k.1,
)

-- Some tool of some member is one that the entry reaches.
abbrev pub ReachesAny : Bool → Text → Catalogue → Type 0
ReachesAny is_prefix e c =
    Exists (λ m. Exists (λ (t : DiscoveredTool). Reaches is_prefix e m.slug t.name) m.tools) c

pub advertised_iff :
    (e : Text) (is_prefix : Bool) (c : Catalogue)
    → (advertised e is_prefix c ≡ true) ↔ ReachesAny is_prefix e c
unfolding advertised
advertised_iff e is_prefix c =
    any_iff _ (λ m. Exists (λ (t : DiscoveredTool). Reaches is_prefix e m.slug t.name) m.tools)
      (λ m.
        any_iff _ (λ (t : DiscoveredTool). Reaches is_prefix e m.slug t.name)
          (λ t. match_tool_entry_iff e m.slug t.name is_prefix) m.tools)
      c

includes-filter :
    (p : Text → Bool) (xs : List Text) (e : Text)
    → includes (filter p xs) e ≡ (includes xs e && p e)
includes-filter p [] e = refl
includes-filter p (x ∷ xs) e = elim (Bool-cases (x == e)) [
  | inr other ↦ elim (Bool-cases (p x)) [
    | inl keep ↦ rw (keep, other) (includes-filter p xs e)
    | inr drop ↦ rw (drop, other) (includes-filter p xs e)
  ]
  | inl same ↦
      let x-e = eq_sound x e same in
      elim (Bool-cases (p x)) [
        | inl keep ↦ rw (keep, same) (sym keep ∙ ap p x-e)
        | inr drop ↦
            rw (drop, same)
              (includes-filter p xs e
                ∙ ap (λ b. includes xs e && b) (sym (ap p x-e) ∙ drop)
                ∙ and_false (includes xs e)
                ∙ sym drop
                ∙ ap p x-e)
      ]
]
  where
    and_false : (b : Bool) → (b && false) ≡ false
    and_false true = refl
    and_false false = refl

unmatched_listed :
    (entries : List Text) (c : Catalogue) (is_prefix : Bool) (e : Text)
    → includes (unmatched_entries entries c is_prefix) e
      ≡ (catalogue_complete c && (includes entries e && not (advertised e is_prefix c)))
unfolding unmatched_entries
unmatched_listed entries c is_prefix e = elim (Bool-cases (catalogue_complete c)) [
  | inl full ↦ rw full (includes-filter (λ x. not (advertised x is_prefix c)) entries e)
  | inr partly ↦ rw partly refl
]

-- An entry is flagged as not advertised exactly when it is listed, every member answered with its
-- whole catalogue, and the entry reaches no tool of any of them.
pub unmatched_entries_iff :
    (entries : List Text) (c : Catalogue) (is_prefix : Bool) (e : Text)
    → (includes (unmatched_entries entries c is_prefix) e ≡ true)
      ↔ (Complete c × (includes entries e ≡ true) × (ReachesAny is_prefix e c → ⊥))
unmatched_entries_iff entries c is_prefix e = (
  λ h.
      let (full, rest) =
        and_parts (catalogue_complete c) _ (sym (unmatched_listed entries c is_prefix e) ∙ h) in
      let (here, off) = and_parts (includes entries e) _ rest in
      (
        (catalogue_complete_iff c).0 full,
        here,
        λ r.
            true≢false
              (sym ((advertised_iff e is_prefix c).1 r) ∙ not-true (advertised e is_prefix c) off),
      ),
  λ k.
      unmatched_listed entries c is_prefix e
      ∙ rw ((catalogue_complete_iff c).1 k.0, k.1) (unreached k.2),
)
  where
    unreached : (ReachesAny is_prefix e c → ⊥) → not (advertised e is_prefix c) ≡ true
    unreached n = elim (Bool-cases (advertised e is_prefix c)) [
      | inl a ↦ absurd (n ((advertised_iff e is_prefix c).0 a))
      | inr a ↦ rw a
    ]
