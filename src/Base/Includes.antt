-- ===== src/Base/Includes.antt =====
-- `includes` on a list of texts, and lists without repetition.
use Prim.Native.Nat.{suc, ◌≤◌}
use mathlib.Core.Path.{◌≡◌, refl}
use mathlib.Core.Logic.{inl, inr}
use mathlib.Core.Bool.{Bool, true, false, not, ◌&&◌, ◌||◌}
use mathlib.Core.List.{List, [], ◌∷◌, ◌++◌}
use native.Mathlib.Omega.{arith}
use porymcp.Base.Tests.{Bool-cases, Bool-eq}
use porymcp.Base.Lists.{length, any, all, filter}
use porymcp.Base.Texts.{Text, ◌==◌, eq_iff, eq_refl}

abbrev pub includes : List Text → Text → Bool
includes [] e = false
includes (x ∷ xs) e = x == e || includes xs e

abbrev pub Distinct : List Text → Type 0
Distinct [] = Unit
Distinct (x ∷ xs) = (includes xs x ≡ false) × Distinct xs

-- Every entry of the first list is in the second.
abbrev pub SubsetOf : List Text → List Text → Type 0
SubsetOf xs ys = (e : Text) → includes xs e ≡ true → includes ys e ≡ true

-- The two lists hold the same entries, in any order and as often.
abbrev pub SameSet : List Text → List Text → Type 0
SameSet xs ys = (e : Text) → includes xs e ≡ includes ys e

pub includes-append :
    (xs ys : List Text) (e : Text) → includes (xs ++ ys) e ≡ (includes xs e || includes ys e)
includes-append [] ys e = refl
includes-append (x ∷ xs) ys e = ground (arith, includes-append xs ys e)

pub any_of_includes :
    (p : Text → Bool) (xs : List Text) (e : Text)
    → includes xs e ≡ true
    → p e ≡ true
    → any p xs ≡ true
any_of_includes p [] e h k = ground arith
any_of_includes p (x ∷ xs) e h k = ground (arith, eq_iff x e, any_of_includes p xs e)

pub all_of_includes :
    (p : Text → Bool) (xs : List Text) (e : Text)
    → all p xs ≡ true
    → includes xs e ≡ true
    → p e ≡ true
all_of_includes p [] e h k = ground arith
all_of_includes p (x ∷ xs) e h k = ground (arith, eq_iff x e, all_of_includes p xs e)

pub all_intro :
    (p : Text → Bool) (xs : List Text)
    → ((e : Text) → includes xs e ≡ true → p e ≡ true)
    → all p xs ≡ true
all_intro p [] h = refl
all_intro p (x ∷ xs) h = ground (arith, eq_refl x, h x, all_intro p xs (λ e k. h e (ground arith)))

pub any_witness :
    (p : Text → Bool) (xs : List Text)
    → any p xs ≡ true
    → (e : Text) × (includes xs e ≡ true) × (p e ≡ true)
any_witness p [] h = ground arith
any_witness p (x ∷ xs) h = elim (Bool-cases (p x)) [
  | inl here ↦ (x, ground (arith, eq_refl x), here)
  | inr away ↦ let (e, m, k) = any_witness p xs (ground arith) in (e, ground arith, k)
]

pub any-SameSet : (p : Text → Bool) (xs ys : List Text) → SameSet xs ys → any p xs ≡ any p ys
any-SameSet p xs ys h =
    Bool-eq (any p xs) (any p ys)
      (λ k. let (e, m, q) = any_witness p xs k in any_of_includes p ys e (rw (h e) at m) q)
      (λ k. let (e, m, q) = any_witness p ys k in any_of_includes p xs e (rw (← h e) at m) q)

-- The list with every occurrence of an entry taken out.
abbrev pub without : List Text → Text → List Text
without xs e = filter (λ x. not (x == e)) xs

pub includes-without :
    (xs : List Text) (e d : Text) → includes (without xs e) d ≡ (includes xs d && not (d == e))
includes-without [] e d = refl
includes-without (x ∷ xs) e d =
    ground (arith, eq_iff x e, eq_iff x d, eq_iff d e, includes-without xs e d)

pub Distinct-without : (xs : List Text) (e : Text) → Distinct xs → Distinct (without xs e)
Distinct-without [] e h = tt
Distinct-without (x ∷ xs) e h = ground (arith, includes-without xs e x, Distinct-without xs e)

length-without_absent : (xs : List Text) (e : Text) → includes xs e ≡ false → without xs e ≡ xs
length-without_absent [] e h = refl
length-without_absent (x ∷ xs) e h = ground (arith, length-without_absent xs e)

pub length-without :
    (xs : List Text) (e : Text)
    → Distinct xs
    → includes xs e ≡ true
    → length xs ≡ suc (length (without xs e))
length-without [] e h k = ground arith
length-without (x ∷ xs) e h k =
    ground (arith, eq_iff x e, length-without xs e, length-without_absent xs x)

-- A list without repetition is no longer than one that holds its entries.
pub length-SubsetOf :
    (xs ys : List Text) → Distinct xs → Distinct ys → SubsetOf xs ys → length xs ≤ length ys
length-SubsetOf [] ys dx dy s = omega arith
length-SubsetOf (x ∷ xs) ys dx dy s =
    let here : includes ys x ≡ true = s x (ground (arith, eq_refl x)) in
    let smaller : SubsetOf xs (without ys x) =
      λ e k. ground (arith, includes-without ys x e, eq_iff e x, s e) in
    let rest = length-SubsetOf xs (without ys x) dx.1 (Distinct-without ys x dy) smaller in
    omega (arith, length-without ys x dy here)

-- So two such lists of one length, one inside the other, hold the same entries.
pub SameSet-of_length :
    (xs ys : List Text)
    → Distinct xs
    → Distinct ys
    → length xs ≡ length ys
    → SubsetOf xs ys
    → SameSet xs ys
SameSet-of_length xs ys dx dy n s e = Bool-eq (includes xs e) (includes ys e) (s e) back
  where
    smaller : includes xs e ≡ false → includes ys e ≡ true → ⊥
    smaller out k =
        let fits : SubsetOf xs (without ys e) =
          λ d m. ground (arith, includes-without ys e d, eq_iff d e, s d m) in
        let le = length-SubsetOf xs (without ys e) dx (Distinct-without ys e dy) fits in
        omega (arith, length-without ys e dy k)

    back : includes ys e ≡ true → includes xs e ≡ true
    back k = elim (Bool-cases (includes xs e)) [ inl h ↦ h | inr h ↦ absurd (smaller h k) ]
