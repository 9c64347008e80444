-- ===== src/Base/Texts.antt =====
-- Texts: lists of UTF-16 code units, as JavaScript's strings are.
use Prim.Native.Nat.{ℕ, ◌+◌, ◌-◌, ◌/◌, ◌%◌}
use Prim.Native.Char.{code}
use Prim.Native.String.{String}
use mathlib.Core.Path.{◌≡◌, refl, ap, ◌∙◌}
use mathlib.Core.Logic.{◌↔◌, inl, inr}
use mathlib.Core.Bool.{Bool, true, false, not, ◌&&◌, ◌||◌}
use mathlib.Core.List.{List, [], ◌∷◌, ◌++◌}
use native.Mathlib.Omega.{arith}
use porymcp.Base.Tests.{if◌then◌else◌, leb, ltb, eqb, Bool-cases, not-true}
use porymcp.Base.Lists.{is_empty}

abbrev pub Text : Type 0
Text = List ℕ

-- A code point as one code unit or as a surrogate pair.
abbrev units_of : ℕ → Text
units_of c =
    if ltb c 0x10000
    then c ∷ []
    else (0xd800 + (c - 0x10000) / 1024) ∷ (0xdc00 + (c - 0x10000) % 1024) ∷ []

-- A literal. It stays shut, so that a long sentence costs nothing in a proof.
unfoldable pub text : String → Text
text String.[] = []
text (String.◌∷◌ c s) = units_of (code c) ++ text s

-- `===` on strings.
infix 50 ◌==◌
abbrev pub ◌==◌ : Text → Text → Bool
[] == [] = true
[] == (y ∷ ys) = false
(x ∷ xs) == [] = false
(x ∷ xs) == (y ∷ ys) = eqb x y && xs == ys

-- `s.startsWith(t)`.
abbrev pub starts_with : Text → Text → Bool
starts_with s [] = true
starts_with [] (y ∷ ys) = false
starts_with (x ∷ xs) (y ∷ ys) = eqb x y && starts_with xs ys

-- `list.join(sep)`.
unfoldable pub join : Text → List Text → Text
join sep [] = []
join sep (x ∷ []) = x
join sep (x ∷ y ∷ xs) = x ++ (sep ++ join sep (y ∷ xs))

-- A string as a condition: the empty string is false.
abbrev pub truthy : Text → Bool
truthy t = not (is_empty t)

-- `a || b` on strings.
abbrev pub or_text : Text → Text → Text
or_text [] b = b
or_text (c ∷ a) b = c ∷ a

pub eq_sound : (s t : Text) → (s == t) ≡ true → s ≡ t
eq_sound [] [] h = refl
eq_sound [] (y ∷ t) h = ground arith
eq_sound (x ∷ s) [] h = ground arith
eq_sound (x ∷ s) (y ∷ t) h = ground (arith, eq_sound s t)

pub eq_refl : (s : Text) → (s == s) ≡ true
eq_refl [] = refl
eq_refl (x ∷ s) = ground (arith, eq_refl s)

pub eq_complete : (s t : Text) → s ≡ t → (s == t) ≡ true
eq_complete s t h = rw (← h) (eq_refl s)

pub eq_iff : (s t : Text) → ((s == t) ≡ true) ↔ (s ≡ t)
eq_iff s t = (eq_sound s t, eq_complete s t)

pub starts_with-append : (s t : Text) → starts_with (s ++ t) s ≡ true
starts_with-append [] t = refl
starts_with-append (x ∷ s) t = ground (arith, starts_with-append s t)

-- A prefix leaves a rest.
pub starts_with_rest : (s t : Text) → starts_with s t ≡ true → (u : Text) × (s ≡ t ++ u)
starts_with_rest s [] h = (s, refl)
starts_with_rest [] (y ∷ t) h = ground arith
starts_with_rest (x ∷ s) (y ∷ t) h =
    let (u, e) = starts_with_rest s t (ground arith) in (u, ground arith)

-- The units that `trim` takes for white space.
is_white : ℕ → Bool
is_white u =
    (leb 0x09 u && leb u 0x0d)
    || eqb u 0x20
    || eqb u 0xa0
    || eqb u 0x1680
    || (leb 0x2000 u && leb u 0x200a)
    || eqb u 0x2028
    || eqb u 0x2029
    || eqb u 0x202f
    || eqb u 0x205f
    || eqb u 0x3000
    || eqb u 0xfeff

unfoldable pub trim_end : Text → Text
unfolding is_white
trim_end [] = []
trim_end (u ∷ s) = let rest = trim_end s in if is_empty rest && is_white u then [] else u ∷ rest

unfoldable pub trim_start : Text → Text
unfolding is_white
trim_start [] = []
trim_start (u ∷ s) = let rest = trim_start s in if is_white u then rest else u ∷ s

unfoldable pub trim : Text → Text
unfolding trim_end trim_start
trim s = trim_end (trim_start s)

starts_black : Text → Bool
unfolding is_white
starts_black [] = true
starts_black (u ∷ s) = not (is_white u)

trim_start-starts_black : (s : Text) → starts_black (trim_start s) ≡ true
unfolding trim_start starts_black
trim_start-starts_black [] = refl
trim_start-starts_black (u ∷ s) = elim (Bool-cases (is_white u)) [
  | inl white ↦ rw white (trim_start-starts_black s)
  | inr black ↦ rw (black, black) refl
]

trim_start-of_black : (s : Text) → starts_black s ≡ true → trim_start s ≡ s
unfolding trim_start starts_black
trim_start-of_black [] h = refl
trim_start-of_black (u ∷ s) h = rw (not-true _ h) refl

trim_end-starts_black : (s : Text) → starts_black s ≡ true → starts_black (trim_end s) ≡ true
unfolding trim_end starts_black
trim_end-starts_black [] h = refl
trim_end-starts_black (u ∷ s) h = elim (Bool-cases (is_empty (trim_end s) && is_white u)) [
  | inl gone ↦ rw gone refl
  | inr stays ↦ rw stays h
]

trim_end-trim_end : (s : Text) → trim_end (trim_end s) ≡ trim_end s
unfolding trim_end
trim_end-trim_end [] = refl
trim_end-trim_end (u ∷ s) = elim (Bool-cases (is_empty (trim_end s) && is_white u)) [
  | inl gone ↦ rw gone refl
  | inr stays ↦ rw (stays, trim_end-trim_end s, stays) refl
]

pub trim-trim : (s : Text) → trim (trim s) ≡ trim s
unfolding trim
trim-trim s =
    ap trim_end
      (trim_start-of_black _ (trim_end-starts_black (trim_start s) (trim_start-starts_black s)))
    ∙ trim_end-trim_end (trim_start s)
