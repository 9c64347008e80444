-- ===== src/SlugPreview/Valid.antt =====
-- A slug that is previewed is one that the server accepts (deriveSlug of web/src/lib/slug.ts and
-- validSlug of web/src/lib/tool-entry.ts).
use porymcp.Base.{
  ℕ, zero, suc, ◌≤◌, ◌≡◌, refl, subst, ◌⊎◌, inl, inr, Bool, true, false, true≢false, ◌&&◌, Option,
  none, some, [], ◌∷◌, arith, ltb, eqb, if◌then◌else◌, Bool-cases, Option-cases, some_inj, length,
  take, is_empty, All, Text, trim,
}
use porymcp.ToolEntry.Slug.{
  is_edge, is_sep, is_inner, slug_pattern, slug_rest, slug_sep_run, uuid_like, hex_run, after_dash,
  valid_slug,
}
use porymcp.ToolFilter.{lower}
use porymcp.SlugPreview.{
  derive_slug, cut_slug, collapse, is_under, drop_start, drop_end, plain_i, max_slug_length,
}
use porymcp.SlugPreview.Flat.{
  Flat, EndsInEdge, collapse-Flat, drop_start-Flat, drop_end-Flat, take-Flat,
}

edge-is_inner : (c : ℕ) → is_edge c ≡ true → is_inner c ≡ true
edge-is_inner c h = rw h refl

Flat-slug_rest :
    (n : ℕ) (after : Bool) (c : ℕ) (s : Text)
    → Flat after (c ∷ s)
    → EndsInEdge (c ∷ s)
    → length s ≤ n
    → slug_rest n (c ∷ s) ≡ true
unfolding slug_rest
Flat-slug_rest n after c [] f e h = e
Flat-slug_rest zero after c (d ∷ s) f e h = absurd (omega (arith, h))
Flat-slug_rest (suc n) after c (d ∷ s) (inl (edge, t)) e h =
    rw edge (Flat-slug_rest n false d s t e (omega (arith, h)))
Flat-slug_rest (suc n) after c (d ∷ s) (inr (u, _, t)) e h =
    rw u (Flat-slug_rest n true d s t e (omega (arith, h)))

Flat-slug_pattern :
    (c : ℕ) (s : Text)
    → Flat true (c ∷ s)
    → EndsInEdge (c ∷ s)
    → length s ≤ 39
    → slug_pattern (c ∷ s) ≡ true
unfolding slug_pattern
Flat-slug_pattern c s (inr (_, a, _)) e h = absurd (true≢false a)
Flat-slug_pattern c [] (inl (edge, t)) e h = rw edge refl
Flat-slug_pattern c (d ∷ s) (inl (edge, t)) e h =
    rw edge (Flat-slug_rest 38 false d s t e (omega (arith, h)))

edge-is_sep : (c : ℕ) → is_edge c ≡ true → is_sep c ≡ false
edge-is_sep c h = ground arith

Flat-slug_sep_run : (after : Bool) (s : Text) → Flat after s → slug_sep_run s ≡ false
unfolding slug_sep_run
Flat-slug_sep_run after [] f = refl
Flat-slug_sep_run after (c ∷ []) f = refl
Flat-slug_sep_run after (c ∷ d ∷ s) (inl (edge, t)) =
    rw (edge-is_sep c edge) (Flat-slug_sep_run false (d ∷ s) t)
Flat-slug_sep_run after (c ∷ d ∷ s) (inr (u, _, inl (edge, t))) =
    rw (u, edge-is_sep d edge) (Flat-slug_sep_run true (d ∷ s) (inl (edge, t)))
Flat-slug_sep_run after (c ∷ d ∷ s) (inr (u, _, inr (_, a, _))) = absurd (true≢false a)

NoDash : Text → Type 0
NoDash s = All (λ c. eqb c b'-' ≡ false) s

Flat-NoDash : (after : Bool) (s : Text) → Flat after s → NoDash s
unfolding NoDash
Flat-NoDash after [] f = tt
Flat-NoDash after (c ∷ s) (inl (edge, t)) = (ground arith, Flat-NoDash false s t)
Flat-NoDash after (c ∷ s) (inr (u, _, t)) = (rw u refl, Flat-NoDash true s t)

if_some : (b : Bool) {o : Option Text} {r : Text} → (if b then o else none) ≡ some r → o ≡ some r
if_some true h = h
if_some false h = cc

hex_run-NoDash : (n : ℕ) (s r : Text) → NoDash s → hex_run n s ≡ some r → NoDash r
unfolding NoDash hex_run
hex_run-NoDash zero s r d h = subst NoDash (some_inj h) d
hex_run-NoDash (suc n) [] r d h = cc
hex_run-NoDash (suc n) (c ∷ s) r d h = hex_run-NoDash n s r d.1 (if_some _ h)

after_dash-none : (s : Text) → NoDash s → after_dash s ≡ none
unfolding NoDash after_dash
after_dash-none [] d = refl
after_dash-none (c ∷ s) d = rw d.0 refl

NoDash-uuid_like : (s : Text) → NoDash s → uuid_like s ≡ false
unfolding uuid_like
NoDash-uuid_like s d = elim (Option-cases (hex_run 8 s)) [
  | inl off ↦ rw off refl
  | inr (r, on) ↦ rw (on, after_dash-none r (hex_run-NoDash 8 s r d on)) refl
]

Flat-valid_slug :
    (s : Text)
    → Flat true s
    → EndsInEdge s
    → length s ≤ max_slug_length
    → (s ≡ []) ⊎ (valid_slug s ≡ true)
unfolding valid_slug
Flat-valid_slug [] f e h = inl refl
Flat-valid_slug (c ∷ s) f e h = inr (
    rw
      (
        Flat-slug_pattern c s f e (omega (arith, h)),
        Flat-slug_sep_run true (c ∷ s) f,
        NoDash-uuid_like (c ∷ s) (Flat-NoDash true (c ∷ s) f),
      )
      refl)

length-drop_end : (p : ℕ → Bool) (s : Text) → length (drop_end p s) ≤ length s
unfolding drop_end
length-drop_end p [] = omega arith
length-drop_end p (c ∷ s) = elim (Bool-cases (is_empty (drop_end p s) && p c)) [
  | inl cut ↦ rw cut (omega arith)
  | inr stays ↦ rw stays (omega (arith, length-drop_end p s))
]

length-take : (n : ℕ) (s : Text) → length (take n s) ≤ n
length-take zero s = omega arith
length-take (suc n) [] = omega arith
length-take (suc n) (c ∷ s) = omega (arith, length-take n s)

cut_slug-Flat :
    (s : Text)
    → Flat true s
    → EndsInEdge s
    → Flat true (cut_slug s) × EndsInEdge (cut_slug s) × (length (cut_slug s) ≤ max_slug_length)
unfolding cut_slug
cut_slug-Flat s f e = elim (Bool-cases (ltb max_slug_length (length s))) [
  | inl long ↦
      let (g, d) =
        drop_end-Flat is_sep true (take max_slug_length s) refl
          (take-Flat max_slug_length true s f) in
      rw long (g, d, bound)
  | inr short ↦ rw short (f, e, within short)
]
  where
    bound : length (drop_end is_sep (take max_slug_length s)) ≤ max_slug_length
    bound =
        omega
          (arith, length-drop_end is_sep (take max_slug_length s), length-take max_slug_length s)

    within : ltb max_slug_length (length s) ≡ false → length s ≤ max_slug_length
    within short = ground (arith, short)

-- Whatever the name, the slug that is previewed is empty, or one that the server's rule for slugs
-- accepts; and it is never longer than 40 units.
pub derive_slug-valid_slug :
    (name : Text)
    → ((derive_slug name ≡ []) ⊎ (valid_slug (derive_slug name) ≡ true))
      × (length (derive_slug name) ≤ max_slug_length)
unfolding derive_slug
derive_slug-valid_slug name =
    let shown = collapse b'_' false (lower (trim (plain_i name))) in
    let flat = drop_start-Flat false shown (collapse-Flat false (lower (trim (plain_i name)))) in
    let (f, e) = drop_end-Flat is_under true (drop_start shown) refl flat in
    let (g, d, h) = cut_slug-Flat (drop_end is_under (drop_start shown)) f e in
    (Flat-valid_slug (cut_slug (drop_end is_under (drop_start shown))) g d h, h)
