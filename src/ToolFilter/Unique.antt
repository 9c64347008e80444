-- ===== src/ToolFilter/Unique.antt =====
-- Lists as sets: `unique` and `sameSet` of web/src/lib/tool-filter.ts.
use porymcp.Base.{
  ℕ, suc, ◌<◌, ◌≡◌, refl, sym, ap, ◌∙◌, ◌↔◌, inl, inr, Bool, true, false, not, ◌&&◌, Option, none,
  some, List, [], ◌∷◌, ◌++◌, append_assoc, arith, eqb, if◌then◌else◌, eqb_iff, eqb_refl, Bool-cases,
  and_parts, or_false, length, all, length-append, Text, ◌==◌, eq_refl, eq_iff, includes, Distinct,
  SubsetOf, SameSet, includes-append, all_of_includes, all_intro, length-SubsetOf,
  SameSet-of_length,
}

-- `list.indexOf(e)`, with `none` for -1.
position : List Text → Text → Option ℕ
position [] e = none
position (x ∷ xs) e =
    if x == e then some 0 else elim (position xs e) [ none ↦ none | some i ↦ some (suc i) ]

abbrev is_at : Option ℕ → ℕ → Bool
is_at none i = false
is_at (some j) i = eqb j i

-- `whole.filter((e, i) => whole.indexOf(e) === i)`, from index `i` on.
unique_from : List Text → ℕ → List Text → List Text
unfolding position
unique_from whole i [] = []
unique_from whole i (e ∷ rest) =
    let later = unique_from whole (suc i) rest in
    if is_at (position whole e) i then e ∷ later else later

unfoldable pub unique : List Text → List Text
unfolding unique_from
unique list = unique_from list 0 list

-- A `Set` of strings is its distinct values, in the order in which they were added.
unfoldable pub same_set : List Text → List Text → Bool
same_set a b =
    let sa = unique a in
    let sb = unique b in eqb (length sa) (length sb) && all (λ e. includes sb e) sa

-- The first occurrences, given what stands before.
fresh : List Text → List Text → List Text
fresh seen [] = []
fresh seen (e ∷ rest) =
    let later = fresh (seen ++ e ∷ []) rest in if includes seen e then later else e ∷ later

position-absent :
    (seen rest : List Text) (e : Text)
    → includes seen e ≡ false
    → position (seen ++ (e ∷ rest)) e ≡ some (length seen)
unfolding position
position-absent [] rest e h = rw (eq_refl e)
position-absent (x ∷ seen) rest e h =
    let (off, later) = or_false (x == e) (includes seen e) h in
    rw (off, position-absent seen rest e later)

position-present :
    (seen rest : List Text) (e : Text)
    → includes seen e ≡ true
    → (i : ℕ) × (position (seen ++ rest) e ≡ some i) × (i < length seen)
unfolding position
position-present [] rest e h = ground arith
position-present (x ∷ seen) rest e h = elim (Bool-cases (x == e)) [
  | inl here ↦ (0, rw here, omega arith)
  | inr away ↦
      let (i, found, lt) = position-present seen rest e (rw away at h) in
      (suc i, rw (away, found), omega arith)
]

next_index :
    (seen rest : List Text) (e : Text)
    → unique_from ((seen ++ e ∷ []) ++ rest) (length (seen ++ e ∷ [])) rest
      ≡ unique_from (seen ++ (e ∷ rest)) (suc (length seen)) rest
next_index seen rest e =
    let n : length (seen ++ e ∷ []) ≡ suc (length seen) =
      omega (arith, length-append seen (e ∷ [])) in
    rw (n, append_assoc seen (e ∷ []) rest) refl

unique_from-fresh :
    (seen rest : List Text) → unique_from (seen ++ rest) (length seen) rest ≡ fresh seen rest
unfolding unique_from fresh
unique_from-fresh seen [] = refl
unique_from-fresh seen (e ∷ rest) =
    let step = sym (next_index seen rest e) ∙ unique_from-fresh (seen ++ e ∷ []) rest in
    elim (Bool-cases (includes seen e)) [
      | inl old ↦
          let (i, found, lt) = position-present seen (e ∷ rest) e old in
          let off : eqb i (length seen) ≡ false = ground arith in rw (old, found, off) step
      | inr new ↦
          rw (new, position-absent seen rest e new, eqb_refl (length seen)) (ap (λ l. e ∷ l) step)
    ]

includes-fresh :
    (seen rest : List Text) (d : Text)
    → includes (fresh seen rest) d ≡ (includes rest d && not (includes seen d))
unfolding fresh
includes-fresh seen [] d = refl
includes-fresh seen (e ∷ rest) d =
    ground
      (arith, includes-fresh (seen ++ e ∷ []) rest d, includes-append seen (e ∷ []) d, eq_iff e d)

Distinct-fresh : (seen rest : List Text) → Distinct (fresh seen rest)
unfolding fresh
Distinct-fresh seen [] = tt
Distinct-fresh seen (e ∷ rest) = ground (
  arith,
  Distinct-fresh (seen ++ e ∷ []) rest,
  includes-fresh (seen ++ e ∷ []) rest e,
  includes-append seen (e ∷ []) e,
  eq_refl e,
)

unique-fresh : (list : List Text) → unique list ≡ fresh [] list
unfolding unique
unique-fresh list = unique_from-fresh [] list

pub Distinct-unique : (list : List Text) → Distinct (unique list)
Distinct-unique list = rw (unique-fresh list) (Distinct-fresh [] list)

pub includes-unique : (list : List Text) (e : Text) → includes (unique list) e ≡ includes list e
includes-unique list e =
    rw (unique-fresh list) (includes-fresh [] list e ∙ and_true (includes list e))
  where
    and_true : (b : Bool) → (b && true) ≡ b
    and_true true = refl
    and_true false = refl

fresh_of_Distinct :
    (seen rest : List Text)
    → Distinct rest
    → ((e : Text) → includes rest e ≡ true → includes seen e ≡ false)
    → fresh seen rest ≡ rest
unfolding fresh
fresh_of_Distinct seen [] d apart = refl
fresh_of_Distinct seen (e ∷ rest) d apart = rw (apart e (rw (eq_refl e))) (
    ap (λ l. e ∷ l)
      (fresh_of_Distinct (seen ++ e ∷ []) rest d.1
        λ x m. ground (arith, includes-append seen (e ∷ []) x, eq_iff e x, apart x, d.0)))

-- A list without repetition is kept as it is.
pub unique_of_Distinct : (list : List Text) → Distinct list → unique list ≡ list
unique_of_Distinct list d = unique-fresh list ∙ fresh_of_Distinct [] list d (λ e m. refl)

-- `same_set` decides whether two lists hold the same entries.
pub same_set_iff : (a b : List Text) → (same_set a b ≡ true) ↔ SameSet a b
unfolding same_set
same_set_iff a b = (forth, back)
  where
    forth :
        (eqb (length (unique a)) (length (unique b)) && all (λ e. includes (unique b) e) (unique a))
          ≡ true
        → SameSet a b
    forth h =
        let (n, k) = and_parts _ _ h in
        let same =
          SameSet-of_length (unique a) (unique b) (Distinct-unique a) (Distinct-unique b)
            ((eqb_iff _ _).0 n)
            (λ e m. all_of_includes (λ x. includes (unique b) x) (unique a) e k m) in
        λ e. sym (includes-unique a e) ∙ same e ∙ includes-unique b e

    back :
        SameSet a b
        → (eqb (length (unique a)) (length (unique b))
            && all (λ e. includes (unique b) e) (unique a))
          ≡ true
    back s =
        let to : SubsetOf (unique a) (unique b) =
          λ e m. includes-unique b e ∙ sym (s e) ∙ sym (includes-unique a e) ∙ m in
        let from : SubsetOf (unique b) (unique a) =
          λ e m. includes-unique a e ∙ s e ∙ sym (includes-unique b e) ∙ m in
        let le = length-SubsetOf (unique a) (unique b) (Distinct-unique a) (Distinct-unique b) to in
        let ge =
          length-SubsetOf (unique b) (unique a) (Distinct-unique b) (Distinct-unique a) from in
        rw ((eqb_iff (length (unique a)) (length (unique b))).1 (omega arith))
          (all_intro (λ x. includes (unique b) x) (unique a) to)
