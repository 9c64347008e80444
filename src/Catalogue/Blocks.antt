-- ===== src/Catalogue/Blocks.antt =====
-- A filter that blocks every advertised tool (blocksEverything of web/src/lib/catalogue.ts).
use porymcp.Base.{
  ◌≡◌, refl, sym, ap, ◌∙◌, ◌≢◌, ◌↔◌, inl, inr, Bool, true, false, false≢true, true≢false, not, ◌&&◌,
  ◌||◌, none, some, List, [], ◌∷◌, arith, if◌then◌else◌, Bool-cases, and_parts, not-true, or_false,
  any, all, is_empty, All, Exists, any_iff, all_iff, Text,
}
use porymcp.ToolEntry.{DiscoveredTool}
use porymcp.Catalogue.{
  MemberCatalogue, Catalogue, catalogue_complete, blocks_tools, blocks_members, blocks_everything,
}
use porymcp.Catalogue.Verdicts.{Complete, catalogue_complete_iff}

module _ (permits : Text → Text → Bool) where
  -- One of the tools may be called.
  abbrev some_permitted : Text → List DiscoveredTool → Bool
  some_permitted slug ts = any (λ t. permits slug t.name) ts

  blocks_tools_lem :
      (slug : Text) (seen : Bool) (ts : List DiscoveredTool)
      → blocks_tools permits slug seen ts
        ≡ (if some_permitted slug ts then none else some (seen || not (is_empty ts)))
  unfolding blocks_tools
  blocks_tools_lem slug true [] = refl
  blocks_tools_lem slug false [] = refl
  blocks_tools_lem slug seen (t ∷ ts) = elim (Bool-cases (permits slug t.name)) [
    | inl may ↦ rw may refl
    | inr shut ↦ rw shut (
        blocks_tools_lem slug true ts
        ∙ ap (λ b. if some_permitted slug ts then none else some b) (always seen))
  ]
    where
      always : (b : Bool) → true ≡ (b || true)
      always true = refl
      always false = refl

  -- No tool of the member may be called, unless the member is disabled.
  abbrev closed : MemberCatalogue → Bool
  closed m = not (m.enabled && some_permitted m.slug m.tools)

  abbrev advertises : MemberCatalogue → Bool
  advertises m = m.enabled && not (is_empty m.tools)

  blocks_members_lem :
      (seen : Bool) (c : Catalogue)
      → blocks_members permits seen c ≡ (all closed c && (seen || any advertises c))
  unfolding blocks_members
  blocks_members_lem true [] = refl
  blocks_members_lem false [] = refl
  blocks_members_lem seen (m ∷ ms) = elim (Bool-cases m.enabled) [
    | inr off ↦ rw off (blocks_members_lem seen ms)
    | inl on ↦ elim (Bool-cases (some_permitted m.slug m.tools)) [
      | inl may ↦ rw (on, blocks_tools_lem m.slug seen m.tools, may) refl
      | inr shut ↦
          rw (on, blocks_tools_lem m.slug seen m.tools, shut)
            (blocks_members_lem (seen || not (is_empty m.tools)) ms
              ∙ ap (λ b. all closed ms && b)
                  (or_assoc seen (not (is_empty m.tools)) (any advertises ms)))
    ]
  ]
    where
      or_assoc : (a b c : Bool) → ((a || b) || c) ≡ (a || (b || c))
      or_assoc true b c = refl
      or_assoc false b c = refl

  -- What the two tests say.
  abbrev pub Closed : MemberCatalogue → Type 0
  Closed m = m.enabled ≡ true → All (λ (t : DiscoveredTool). permits m.slug t.name ≡ false) m.tools

  abbrev pub Advertises : MemberCatalogue → Type 0
  Advertises m = (m.enabled ≡ true) × (m.tools ≢ [])

  none_permitted :
      (slug : Text) (ts : List DiscoveredTool)
      → (some_permitted slug ts ≡ false)
        ↔ All (λ (t : DiscoveredTool). permits slug t.name ≡ false) ts
  none_permitted slug [] = (λ _. tt, λ _. refl)
  none_permitted slug (t ∷ ts) = (
    λ h.
        let (a, b) = or_false (permits slug t.name) (some_permitted slug ts) h in
        (a, (none_permitted slug ts).0 b),
    λ k. rw k.0 ((none_permitted slug ts).1 k.1),
  )

  closed_iff : (m : MemberCatalogue) → (closed m ≡ true) ↔ Closed m
  closed_iff m = elim (Bool-cases m.enabled) [
    | inr off ↦ (λ h on. absurd (true≢false (sym on ∙ off)), λ k. rw off refl)
    | inl on ↦ (
      λ h _.
          (none_permitted m.slug m.tools).0 (not-true (some_permitted m.slug m.tools) (rw on at h)),
      λ k. rw (on, (none_permitted m.slug m.tools).1 (k on)) refl,
    )
  ]

  advertises_iff : (m : MemberCatalogue) → (advertises m ≡ true) ↔ Advertises m
  advertises_iff m = (
    λ h. let (a, b) = and_parts m.enabled (not (is_empty m.tools)) h in (a, not_nil m.tools b),
    λ k. rw k.0 (has_one m.tools k.1),
  )
    where
      not_nil : (ts : List DiscoveredTool) → not (is_empty ts) ≡ true → ts ≢ []
      not_nil [] h = λ _. false≢true h
      not_nil (t ∷ ts) h = λ e. ground arith

      has_one : (ts : List DiscoveredTool) → ts ≢ [] → not (is_empty ts) ≡ true
      has_one [] n = absurd (n refl)
      has_one (t ∷ ts) n = refl

  -- A filter is said to block everything exactly when every member answered with its whole
  -- catalogue, some enabled member advertises a tool, and no tool of an enabled member is
  -- permitted.
  pub blocks_everything_iff :
      (c : Catalogue)
      → (blocks_everything permits c ≡ true) ↔ (Complete c × Exists Advertises c × All Closed c)
  unfolding blocks_everything
  blocks_everything_iff c = elim (Bool-cases (catalogue_complete c)) [
    | inr partly ↦ rw partly (
      λ h. absurd (false≢true h),
      λ k. absurd (true≢false (sym ((catalogue_complete_iff c).1 k.0) ∙ partly)),
    )
    | inl full ↦ rw full (
      λ h.
          let (shut, one) =
            and_parts (all closed c) (any advertises c) (sym (blocks_members_lem false c) ∙ h) in
          (
            (catalogue_complete_iff c).0 full,
            (any_iff advertises Advertises advertises_iff c).0 one,
            (all_iff closed Closed closed_iff c).0 shut,
          ),
      λ k.
          blocks_members_lem false c
          ∙ rw
              (
                (all_iff closed Closed closed_iff c).1 k.2,
                (any_iff advertises Advertises advertises_iff c).1 k.1,
              )
              refl,
    )
  ]
