-- ===== src/ToolFilter/Clamp.antt =====
-- Cutting a text for display (clampText of web/src/lib/tool-filter.ts).
use porymcp.Base.{
  ℕ, zero, suc, ◌≤◌, ◌<◌, ◌≡◌, refl, sym, ap, ◌∙◌, ◌≢◌, ◌⊎◌, inl, inr, true, false, ◌&&◌, List, [],
  ◌∷◌, ◌++◌, append-nil, append_assoc, arith, leb, Bool-cases, length, take, drop, Text, join,
}
use porymcp.Json.{is_high, is_low}
use porymcp.ToolFilter.Defs.{pieces, clamp_text}

-- Pieces of a text put back together.
abbrev pub glued : List Text → Text
glued [] = []
glued (p ∷ ps) = p ++ glued ps

join-glued : (ps : List Text) → join [] ps ≡ glued ps
unfolding join
join-glued [] = refl
join-glued (p ∷ []) = sym (append-nil p)
join-glued (p ∷ q ∷ ps) = ap (λ t. p ++ t) (join-glued (q ∷ ps))

glued-pieces : (s : Text) → glued (pieces s) ≡ s
unfolding pieces
glued-pieces [] = refl
glued-pieces (u ∷ []) = refl
glued-pieces (u ∷ v ∷ s) = elim (Bool-cases (is_high u && is_low v)) [
  | inl pair ↦ rw pair (ap (λ t. u ∷ v ∷ t) (glued-pieces s))
  | inr single ↦ rw single (ap (λ t. u ∷ t) (glued-pieces (v ∷ s)))
]

glued-append : (ps qs : List Text) → glued (ps ++ qs) ≡ glued ps ++ glued qs
glued-append [] qs = refl
glued-append (p ∷ ps) qs =
    ap (λ t. p ++ t) (glued-append ps qs) ∙ sym (append_assoc p (glued ps) (glued qs))

take-append-drop : (n : ℕ) (ps : List Text) → take n ps ++ drop n ps ≡ ps
take-append-drop zero ps = refl
take-append-drop (suc n) [] = refl
take-append-drop (suc n) (p ∷ ps) = ap (λ l. p ∷ l) (take-append-drop n ps)

length-take_le : (n : ℕ) (ps : List Text) → n ≤ length ps → length (take n ps) ≡ n
length-take_le zero ps h = refl
length-take_le (suc n) [] h = absurd (omega arith)
length-take_le (suc n) (p ∷ ps) h = ap suc (length-take_le n ps (omega arith))

-- What is shown of a text is the whole text, and it has at most `max` code points; or it is the
-- text's first `max` code points, none of them split, and there are more.
pub clamp_text_lem :
    (s : Text) (max : ℕ)
    → (((clamp_text s max).cut ≡ false) × ((clamp_text s max).text ≡ s) × (length (pieces s) ≤ max))
      ⊎ ((shown : List Text) × (hidden : List Text) × ((clamp_text s max).cut ≡ true)
          × ((clamp_text s max).text ≡ glued shown)
          × (pieces s ≡ shown ++ hidden)
          × (s ≡ glued shown ++ glued hidden)
          × (length shown ≡ max)
          × (hidden ≢ []))
unfolding clamp_text
clamp_text_lem s max = elim (Bool-cases (leb (length (pieces s)) max)) [
  | inl fits ↦ inl (rw fits, rw fits, ground arith)
  | inr over ↦
      let parts = take-append-drop max (pieces s) in
      inr (
        take max (pieces s),
        drop max (pieces s),
        rw over,
        rw over (join-glued (take max (pieces s))),
        sym parts,
        sym (glued-pieces s)
            ∙ ap glued (sym parts)
            ∙ glued-append (take max (pieces s)) (drop max (pieces s)),
        length-take_le max (pieces s) (ground arith),
        λ none_left. too_long max (pieces s) (ground arith) none_left,
      )
]
  where
    too_long : (n : ℕ) (ps : List Text) → n < length ps → drop n ps ≡ [] → ⊥
    too_long n [] h e = absurd (omega arith)
    too_long zero (p ∷ ps) h e = cc
    too_long (suc n) (p ∷ ps) h e = too_long n ps (omega arith) e
