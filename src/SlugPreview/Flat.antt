-- ===== src/SlugPreview/Flat.antt =====
-- What the steps of a slug's preview keep: letters, digits and single underscores.
use porymcp.Base.{
  ℕ, zero, suc, ◌≡◌, refl, sym, ap, ◌∙◌, ◌⊎◌, inl, inr, Bool, true, false, true≢false, ◌&&◌, [],
  ◌∷◌, arith, if◌then◌else◌, eqb_iff, Bool-cases, take, is_empty, Text,
}
use porymcp.ToolEntry.Slug.{is_edge}
use porymcp.SlugPreview.{collapse, is_under, drop_start, drop_end}

-- Letters, digits and underscores, none after another and, where `after`, none at the start.
abbrev pub Flat : Bool → Text → Type 0
Flat after [] = Unit
Flat after (c ∷ s) =
    ((is_edge c ≡ true) × Flat false s) ⊎ ((c ≡ b'_') × (after ≡ false) × Flat true s)

-- The last unit is a letter or a digit.
abbrev pub EndsInEdge : Text → Type 0
EndsInEdge [] = Unit
EndsInEdge (c ∷ []) = is_edge c ≡ true
EndsInEdge (c ∷ d ∷ s) = EndsInEdge (d ∷ s)

pub collapse-Flat : (run : Bool) (s : Text) → Flat run (collapse b'_' run s)
unfolding collapse
collapse-Flat run [] = tt
collapse-Flat run (c ∷ s) = elim (Bool-cases (is_edge c)) [
  | inl edge ↦ rw edge (inl (edge, collapse-Flat false s))
  | inr other ↦ rw other (go run (collapse-Flat true s))
]
  where
    go :
        (run : Bool)
        → Flat true (collapse b'_' true s)
        → Flat run (if run then collapse b'_' true s else b'_' ∷ collapse b'_' true s)
    go true f = f
    go false f = inr (refl, refl, f)

-- A letter or a digit is no underscore and no dash.
pub edge-is_under : (c : ℕ) → is_edge c ≡ true → is_under c ≡ false
edge-is_under c h = ground arith

pub drop_start-Flat : (after : Bool) (s : Text) → Flat after s → Flat true (drop_start s)
unfolding drop_start
drop_start-Flat after [] h = tt
drop_start-Flat after (c ∷ s) (inl (edge, t)) = rw (edge-is_under c edge) (inl (edge, t))
drop_start-Flat after (c ∷ s) (inr (u, _, t)) = rw ((eqb_iff c b'_').1 u) (drop_start-Flat true s t)

pub take-Flat : (n : ℕ) (after : Bool) (s : Text) → Flat after s → Flat after (take n s)
take-Flat zero after s h = tt
take-Flat (suc n) after [] h = tt
take-Flat (suc n) after (c ∷ s) (inl (edge, t)) = inl (edge, take-Flat n false s t)
take-Flat (suc n) after (c ∷ s) (inr (u, a, t)) = inr (u, a, take-Flat n true s t)

-- One round of the cut at the end.
kept :
    (p : ℕ → Bool) (after : Bool) (c : ℕ) (rest : Text)
    → p b'_' ≡ true
    → Flat after (c ∷ rest)
    → EndsInEdge rest
    → let cut = if is_empty rest && p c then [] else c ∷ rest in Flat after cut × EndsInEdge cut
kept p after c (d ∷ rest) h f e = (f, e)
kept p after c [] h f e = elim (Bool-cases (p c)) [
  | inl cut ↦ rw cut (tt, tt)
  | inr stays ↦ rw stays (f, edge f stays)
]
  where
    edge : Flat after (c ∷ []) → p c ≡ false → is_edge c ≡ true
    edge (inl (here, _)) k = here
    edge (inr (u, _, _)) k = absurd (true≢false (sym h ∙ ap p (sym u) ∙ k))

pub drop_end-Flat :
    (p : ℕ → Bool) (after : Bool) (s : Text)
    → p b'_' ≡ true
    → Flat after s
    → Flat after (drop_end p s) × EndsInEdge (drop_end p s)
unfolding drop_end
drop_end-Flat p after [] h f = (tt, tt)
drop_end-Flat p after (c ∷ s) h (inl (edge, t)) =
    let (flat, ends) = drop_end-Flat p false s h t in
    kept p after c (drop_end p s) h (inl (edge, flat)) ends
drop_end-Flat p after (c ∷ s) h (inr (u, a, t)) =
    let (flat, ends) = drop_end-Flat p true s h t in
    kept p after c (drop_end p s) h (inr (u, a, flat)) ends
