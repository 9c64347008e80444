-- ===== src/PolicyView/Blocks.antt =====
-- Which blocks of the Policy dialog are drawn (visibleBlocks of web/src/lib/policy-view.ts).
use porymcp.Base.{
  ℕ, ◌≤◌, ◌≡◌, refl, sym, ◌∙◌, ◌↔◌, ◌⊎◌, inl, inr, Bool, true, false, true≢false, not, ◌||◌, List,
  [], ◌∷◌, ◌++◌, arith, ltb, if◌then◌else◌, any, Exists, any_iff, Text, text, includes,
}
use porymcp.PolicyView.{
  PolicyView, PolicyBlock, mcp, http, outbound, mcp_rules, http_rules, rule_count, any_count,
  visible_blocks, shown_for_counts_only,
}

abbrev is_block : PolicyBlock → PolicyBlock → Bool
is_block mcp mcp = true
is_block http http = true
is_block outbound outbound = true
is_block _ _ = false

abbrev pub draws : List PolicyBlock → PolicyBlock → Bool
draws blocks block = any (is_block block) blocks

abbrev pub rules_of : PolicyBlock → List Text
rules_of mcp = mcp_rules
rules_of http = http_rules
rules_of outbound = []

draws_of : (a b : Bool) (block : PolicyBlock) → Bool
draws_of a b mcp = a
draws_of a b http = b
draws_of a b outbound = true

draws_lem :
    (a b : Bool) (block : PolicyBlock)
    → draws ((if a then mcp ∷ [] else []) ++ (if b then http ∷ [] else []) ++ outbound ∷ []) block
      ≡ draws_of a b block
unfolding draws_of
draws_lem true true mcp = refl
draws_lem true false mcp = refl
draws_lem false true mcp = refl
draws_lem false false mcp = refl
draws_lem true true http = refl
draws_lem true false http = refl
draws_lem false true http = refl
draws_lem false false http = refl
draws_lem true true outbound = refl
draws_lem true false outbound = refl
draws_lem false true outbound = refl
draws_lem false false outbound = refl

above_zero : (n : ℕ) → (ltb 0 n ≡ true) ↔ (1 ≤ n)
above_zero n = ground arith

-- A door that the key has, or a count.
door_iff :
    (view : PolicyView) (door : Bool) (ids : List Text)
    → (door || any_count view ids ≡ true)
      ↔ ((not door ≡ false) ⊎ Exists (λ id. 1 ≤ rule_count view id) ids)
door_iff view true ids = ((λ h. inl refl), λ h. refl)
door_iff view false ids =
    let counts =
      any_iff (λ id. ltb 0 (rule_count view id)) (λ id. 1 ≤ rule_count view id)
        (λ id. above_zero (rule_count view id)) ids in
    ((λ h. inr (counts.0 h)), λ h. elim h [ inl e ↦ absurd (true≢false e) | inr e ↦ counts.1 e ])

-- A block is drawn exactly for a door that the key has, or when one of the rules of the door
-- refused a call in the period; the outbound block always is.
pub visible_blocks_iff :
    (view : PolicyView) (block : PolicyBlock)
    → (draws (visible_blocks view) block ≡ true) ↔ (
        (shown_for_counts_only view block ≡ false)
        ⊎ Exists (λ id. 1 ≤ rule_count view id) (rules_of block))
unfolding visible_blocks draws_of shown_for_counts_only
visible_blocks_iff view mcp =
    let (there, back) = door_iff view (includes view.target_kinds (text "mcp")) mcp_rules in
    ((λ h. there (sym (draws_lem _ _ mcp) ∙ h)), λ h. draws_lem _ _ mcp ∙ back h)
visible_blocks_iff view http =
    let (there, back) = door_iff view (includes view.target_kinds (text "http")) http_rules in
    (
      (λ h. there (
          sym
            (draws_lem (includes view.target_kinds (text "mcp") || any_count view mcp_rules) _ http)
          ∙ h)),
      λ h. draws_lem _ _ http ∙ back h,
    )
visible_blocks_iff view outbound = ((λ h. inl refl), λ h. draws_lem _ _ outbound)
