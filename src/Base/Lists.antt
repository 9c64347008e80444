-- ===== src/Base/Lists.antt =====
-- Lists measured by native numbers, and the array methods that the program calls.
use Prim.Native.Nat.{ℕ, zero, suc, ◌+◌}
use mathlib.Core.Path.{◌≡◌, refl, ap}
use mathlib.Core.Logic.{◌↔◌, ◌⊎◌, inl, inr}
use mathlib.Core.Bool.{Bool, true, false, ◌&&◌, ◌||◌}
use mathlib.Core.List.{List, [], ◌∷◌, ◌++◌}
use mathlib.Core.Option.{Option, none, some}
use native.Mathlib.Omega.{arith}
use porymcp.Base.Tests.{or_cases, or_right, and_parts, if◌then◌else◌}

module _ {ℓ} {A : Type ℓ} where
  abbrev pub length : List A → ℕ
  length [] = 0
  length (x ∷ xs) = suc (length xs)

  abbrev pub take : ℕ → List A → List A
  take zero xs = []
  take (suc n) [] = []
  take (suc n) (x ∷ xs) = x ∷ take n xs

  abbrev pub drop : ℕ → List A → List A
  drop zero xs = xs
  drop (suc n) [] = []
  drop (suc n) (x ∷ xs) = drop n xs

  -- `some`, `every`, `filter` and `find` of an array.
  abbrev pub any : (A → Bool) → List A → Bool
  any p [] = false
  any p (x ∷ xs) = p x || any p xs

  abbrev pub all : (A → Bool) → List A → Bool
  all p [] = true
  all p (x ∷ xs) = p x && all p xs

  abbrev pub filter : (A → Bool) → List A → List A
  filter p [] = []
  filter p (x ∷ xs) = let rest = filter p xs in if p x then x ∷ rest else rest

  abbrev pub find : (A → Bool) → List A → Option A
  find p [] = none
  find p (x ∷ xs) = if p x then some x else find p xs

  abbrev pub is_empty : List A → Bool
  is_empty [] = true
  is_empty (x ∷ xs) = false

  abbrev pub All {κ} : (A → Type κ) → List A → Type κ
  All P [] = Unit
  All P (x ∷ xs) = P x × All P xs

-- What an absent value stands for: `o ?? d`.
abbrev pub or_else {ℓ} : {A : Type ℓ} → Option A → A → A
or_else none d = d
or_else (some a) d = a

module _ {ℓ} {A : Type ℓ} where
  pub length-append : (xs ys : List A) → length (xs ++ ys) ≡ length xs + length ys
  length-append [] ys = omega arith
  length-append (x ∷ xs) ys = omega (arith, length-append xs ys)

  pub take-append_length : (xs ys : List A) → take (length xs) (xs ++ ys) ≡ xs
  take-append_length [] ys = refl
  take-append_length (x ∷ xs) ys = ap (λ l. x ∷ l) (take-append_length xs ys)

  pub drop-append_length : (xs ys : List A) → drop (length xs) (xs ++ ys) ≡ ys
  drop-append_length [] ys = refl
  drop-append_length (x ∷ xs) ys = drop-append_length xs ys

  pub any-append : (p : A → Bool) (xs ys : List A) → any p (xs ++ ys) ≡ (any p xs || any p ys)
  any-append p [] ys = refl
  any-append p (x ∷ xs) ys = ground (arith, any-append p xs ys)

  pub any-filter : (p q : A → Bool) (xs : List A) → any p (filter q xs) ≡ any (λ x. q x && p x) xs
  any-filter p q [] = refl
  any-filter p q (x ∷ xs) = ground (arith, any-filter p q xs)

  pub any_ext : (p q : A → Bool) (xs : List A) → ((x : A) → p x ≡ q x) → any p xs ≡ any q xs
  any_ext p q [] e = refl
  any_ext p q (x ∷ xs) e = ground (arith, e x, any_ext p q xs e)

module _ {ℓ κ} {A : Type ℓ} (P : A → Type κ) where
  pub All-weaken {μ} : (Q : A → Type μ) (xs : List A) → ((x : A) → P x → Q x) → All P xs → All Q xs
  All-weaken Q [] f h = tt
  All-weaken Q (x ∷ xs) f h = (f x h.0, All-weaken Q xs f h.1)

  pub All-append : (xs ys : List A) → All P xs → All P ys → All P (xs ++ ys)
  All-append [] ys h k = k
  All-append (x ∷ xs) ys h k = (h.0, All-append xs ys h.1 k)

  -- One element taken out of the middle.
  pub All-middle : (xs ys : List A) (a : A) → All P (xs ++ (a ∷ ys)) → P a × All P (xs ++ ys)
  All-middle [] ys a h = h
  All-middle (x ∷ xs) ys a h = let (there, rest) = All-middle xs ys a h.1 in (there, (h.0, rest))

  pub All-insert : (xs ys : List A) (a : A) → P a → All P (xs ++ ys) → All P (xs ++ a ∷ ys)
  All-insert [] ys a p h = (p, h)
  All-insert (x ∷ xs) ys a p h = (h.0, All-insert xs ys a p h.1)

  pub All-both {μ} : (Q : A → Type μ) (xs : List A) → All P xs → All Q xs → All (λ x. P x × Q x) xs
  All-both Q [] h k = tt
  All-both Q (x ∷ xs) h k = ((h.0, k.0), All-both Q xs h.1 k.1)

-- Some element has the property.
abbrev pub Exists {ℓ} : {A : Type ℓ} → (A → Type 0) → List A → Type 0
Exists P [] = ⊥
Exists P (x ∷ xs) = P x ⊎ Exists P xs

module _ {ℓ} {A : Type ℓ} (p : A → Bool) (P : A → Type 0) (iff : (x : A) → (p x ≡ true) ↔ P x) where
  -- `any` and `all` decide what their test decides of one element.
  pub any_iff : (xs : List A) → (any p xs ≡ true) ↔ Exists P xs
  any_iff [] = ((λ h. ground arith), λ k. absurd k)
  any_iff (x ∷ xs) = (
    (λ h. elim (or_cases (p x) (any p xs) h) [
      | inl here ↦ inl ((iff x).0 here)
      | inr later ↦ inr ((any_iff xs).0 later)
    ]),
    λ k. elim k [
      | inl here ↦ rw ((iff x).1 here)
      | inr later ↦ or_right (p x) (any p xs) ((any_iff xs).1 later)
    ],
  )

  pub all_iff : (xs : List A) → (all p xs ≡ true) ↔ All P xs
  all_iff [] = ((λ _. tt), λ _. refl)
  all_iff (x ∷ xs) = (
    (λ h.
        let (here, later) = and_parts (p x) (all p xs) h in ((iff x).0 here, (all_iff xs).0 later)),
    λ k. rw ((iff x).1 k.0) ((all_iff xs).1 k.1),
  )

abbrev pub is_found {ℓ} : {A : Type ℓ} → Option A → Bool
is_found none = false
is_found (some a) = true

-- `find` finds something exactly if something passes the test.
pub find-any {ℓ} : {A : Type ℓ} (p : A → Bool) (xs : List A) → is_found (find p xs) ≡ any p xs
find-any p [] = refl
find-any p (x ∷ xs) = ground (arith, find-any p xs)
