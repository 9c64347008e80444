-- ===== src/ToolEntry/Separator.antt =====
-- Where the separator of an entry stands (splitEntry of web/src/lib/tool-entry.ts).
use porymcp.Base.{
  eqb, ◌&&◌, ℕ, zero, suc, ◌+◌, ◌≡◌, refl, ap, ◌∙◌, ◌≢◌, ◌↔◌, true, false, Option, none, some, [],
  ◌∷◌, ◌++◌, Text, starts_with, take, drop, length, take-append_length, arith,
}
use porymcp.ToolEntry.{Split, index_of, tool_separator, split_entry, split_at}

-- The separator starts nowhere before its place, also not one place before.
abbrev pub NoEarlier : Text → Type 0
NoEarlier head = index_of (head ++ b'_' ∷ []) tool_separator ≡ none

-- A separator found at `i` cuts the entry in two, and is the first one.
index_of_found :
    (e : Text) (i : ℕ)
    → index_of e tool_separator ≡ some i
    → (e ≡ take i e ++ (tool_separator ++ drop (suc (suc i)) e)) × NoEarlier (take i e)
unfolding index_of
index_of_found [] i h = ground arith
index_of_found (c ∷ []) i h = ground arith
index_of_found (c ∷ d ∷ s) zero h = (ground arith, refl)
index_of_found (c ∷ d ∷ s) (suc zero) h =
    let (cut, first) = index_of_found (d ∷ s) zero (ground arith) in
    (ap (λ t. c ∷ t) cut, ground arith)
index_of_found (c ∷ d ∷ s) (suc (suc i)) h =
    let (cut, first) = index_of_found (d ∷ s) (suc i) (ground arith) in
    (ap (λ t. c ∷ t) cut, ground arith)

none_cons :
    (c : ℕ) (s : Text)
    → index_of (c ∷ s) tool_separator ≡ none
    → (starts_with (c ∷ s) tool_separator ≡ false) × (index_of s tool_separator ≡ none)
unfolding index_of
none_cons c s h = ground arith

some_cons :
    (c : ℕ) (s : Text) (i : ℕ)
    → starts_with (c ∷ s) tool_separator ≡ false
    → index_of s tool_separator ≡ some i
    → index_of (c ∷ s) tool_separator ≡ some (suc i)
unfolding index_of
some_cons c s i no_start h = rw (no_start, h)

index_of_here : (r : Text) → index_of (tool_separator ++ r) tool_separator ≡ some 0
unfolding index_of
index_of_here r = refl

-- Two units that are no separator, before a text that holds none.
pub index_of_cons_none :
    (c d : ℕ) (s : Text)
    → (eqb c b'_' && eqb d b'_') ≡ false
    → index_of (d ∷ s) tool_separator ≡ none
    → index_of (c ∷ d ∷ s) tool_separator ≡ none
unfolding index_of
index_of_cons_none c d s h k = ground arith

pub index_of_pair :
    (c d : ℕ) → (eqb c b'_' && eqb d b'_') ≡ false → index_of (c ∷ d ∷ []) tool_separator ≡ none
unfolding index_of
index_of_pair c d h = ground arith

-- A separator put behind a text that holds none, and does not end in half of one, is found there.
pub index_of-join :
    (h r : Text)
    → NoEarlier h
    → index_of (h ++ (tool_separator ++ r)) tool_separator ≡ some (length h)
index_of-join [] r n = index_of_here r
index_of-join (c ∷ []) r n =
    some_cons c (tool_separator ++ r) 0 (none_cons c (b'_' ∷ []) n).0 (index_of_here r)
index_of-join (c ∷ d ∷ h) r n =
    let (no_start, later) = none_cons c (d ∷ h ++ b'_' ∷ []) n in
    some_cons c ((d ∷ h) ++ (tool_separator ++ r)) (length (d ∷ h)) no_start
      (index_of-join (d ∷ h) r later)

abbrev pub scoped_split : Text → Text → Split
scoped_split h r = record { head = h; rest = r; scoped = true }

drop_past : (h r : Text) → drop (suc (suc (length h))) (h ++ (tool_separator ++ r)) ≡ r
drop_past [] r = refl
drop_past (c ∷ h) r = drop_past h r

-- `split_entry` splits at the first separator.
pub split_entry-join :
    (c : ℕ) (h r : Text)
    → NoEarlier (c ∷ h)
    → split_entry ((c ∷ h) ++ (tool_separator ++ r)) ≡ scoped_split (c ∷ h) r
unfolding split_entry
split_entry-join c h r n = rw (index_of-join (c ∷ h) r n) (λ i. record {
  head = c ∷ take-append_length h (tool_separator ++ r) i;
  rest = past i;
  scoped = true;
})
  where
    past : drop (suc (length h) + 2) ((c ∷ h) ++ (tool_separator ++ r)) ≡ r
    past =
        let e : suc (length h) + 2 ≡ suc (suc (suc (length h))) = omega arith in
        rw e (drop_past h r)

not_in_nil : (i : ℕ) → index_of [] tool_separator ≡ some i → ⊥
unfolding index_of
not_in_nil i h = ground arith

scoped_parts :
    (e : Text) (o : Option ℕ)
    → index_of e tool_separator ≡ o
    → (split_at e o).scoped ≡ true
    → ((split_at e o).head ≢ [])
      × (e ≡ (split_at e o).head ++ (tool_separator ++ (split_at e o).rest))
      × NoEarlier (split_at e o).head
scoped_parts e none found h = ground arith
scoped_parts e (some zero) found h = ground arith
scoped_parts [] (some (suc i)) found h = absurd (not_in_nil (suc i) found)
scoped_parts (c ∷ s) (some (suc i)) found h =
    let (cut, first) = index_of_found (c ∷ s) (suc i) found in
    let e : suc i + 2 ≡ suc (suc (suc i)) = omega arith in ((λ k. ground arith), rw e cut, first)

-- A scoped entry is its head, the separator and its rest, cut at the first separator.
pub split_entry_scoped :
    (e : Text)
    → (split_entry e).scoped ≡ true
    → ((split_entry e).head ≢ [])
      × (e ≡ (split_entry e).head ++ (tool_separator ++ (split_entry e).rest))
      × NoEarlier (split_entry e).head
unfolding split_entry
split_entry_scoped e h = scoped_parts e (index_of e tool_separator) refl h

-- `split_entry` gives a head and a rest exactly for the entries that are a head, which is not
-- empty, the separator, and the rest, where no separator starts before that one.
pub split_entry_iff :
    (e h r : Text)
    → (split_entry e ≡ scoped_split h r)
      ↔ ((h ≢ []) × (e ≡ h ++ (tool_separator ++ r)) × NoEarlier h)
split_entry_iff e h r = (cut e h r, glue e h r)
  where
    cut :
        (e h r : Text)
        → split_entry e ≡ scoped_split h r
        → (h ≢ []) × (e ≡ h ++ (tool_separator ++ r)) × NoEarlier h
    cut e h r q =
        let (some_head, whole, first) = split_entry_scoped e (ap (λ s. s.scoped) q) in
        let same_head : (split_entry e).head ≡ h = ap (λ s. s.head) q in
        let same_rest : (split_entry e).rest ≡ r = ap (λ s. s.rest) q in
        (
          (λ k. some_head (same_head ∙ k)),
          rw (← same_head, ← same_rest) whole,
          rw same_head at first,
        )

    glue :
        (e h r : Text)
        → (h ≢ []) × (e ≡ h ++ (tool_separator ++ r)) × NoEarlier h
        → split_entry e ≡ scoped_split h r
    glue e [] r q = absurd (q.0 refl)
    glue e (c ∷ h) r q = rw (q.1) (split_entry-join c h r q.2)

unscoped_parts :
    (e : Text) (o : Option ℕ)
    → (split_at e o).scoped ≡ false
    → ((split_at e o).head ≡ []) × ((split_at e o).rest ≡ e)
unscoped_parts e none h = (refl, refl)
unscoped_parts e (some zero) h = (refl, refl)
unscoped_parts e (some (suc i)) h = ground arith

-- The rest of an unscoped entry is the whole entry.
pub split_entry_unscoped :
    (e : Text)
    → (split_entry e).scoped ≡ false
    → ((split_entry e).head ≡ []) × ((split_entry e).rest ≡ e)
unfolding split_entry
split_entry_unscoped e h = unscoped_parts e (index_of e tool_separator) h
