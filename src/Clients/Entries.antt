-- ===== src/Clients/Entries.antt =====
-- The language's Object.fromEntries and JSON.stringify(value, null, 2), as
-- web/src/lib/clients.ts uses them.
use porymcp.Base.{
  ℕ, zero, suc, ◌+◌, ◌-◌, ◌*◌, Bool, false, not, ◌&&◌, ◌||◌, List, [], ◌∷◌, ◌++◌, ltb, leb, eqb,
  if◌then◌else◌, all, filter, is_empty, Text, text, ◌==◌,
}
use porymcp.Json.{Json, Items, Members, stringify, quote}
use porymcp.Json.Json.{arr, obj}
use porymcp.Json.Items.{nil, cons}
use porymcp.Json.Members.{end, member}

pub record Entry : Type 0 where
  pub key : Text
  pub value : Json

-- A later entry of a key takes the place of the earlier one.
set_entry : List Entry → Entry → List Entry
set_entry [] e = e ∷ []
set_entry (x ∷ xs) e = let rest = set_entry xs e in if x.key == e.key then e ∷ xs else x ∷ rest

set_entries : List Entry → List Entry → List Entry
unfolding set_entry
set_entries done [] = done
set_entries done (e ∷ es) = set_entries (set_entry done e) es

abbrev is_digit : ℕ → Bool
is_digit c = leb b'0' c && leb c b'9'

abbrev value_onto : ℕ → Text → ℕ
value_onto n [] = n
value_onto n (c ∷ s) = value_onto (n * 10 + (c - b'0')) s

-- A key that is an array index: such keys come first, in the order of their numbers.
is_index : Text → Bool
is_index [] = false
is_index (c ∷ s) =
    all is_digit (c ∷ s)
    && (is_empty s || not (eqb c b'0'))
    && ltb (value_onto 0 (c ∷ s)) 4294967295

insert_index : Entry → List Entry → List Entry
insert_index e [] = e ∷ []
insert_index e (x ∷ xs) =
    let rest = insert_index e xs in
    if ltb (value_onto 0 e.key) (value_onto 0 x.key) then e ∷ x ∷ xs else x ∷ rest

sort_indices : List Entry → List Entry
unfolding insert_index
sort_indices [] = []
sort_indices (e ∷ es) = insert_index e (sort_indices es)

members_of : List Entry → Members
members_of [] = end
members_of (e ∷ es) = member e.key e.value (members_of es)

unfoldable pub from_entries : List Entry → Members
unfolding set_entries sort_indices is_index members_of
from_entries es =
    let kept = set_entries [] es in
    members_of
      (sort_indices (filter (λ e. is_index e.key) kept) ++ filter (λ e. not (is_index e.key)) kept)

abbrev indent : ℕ → Text
indent zero = []
indent (suc n) = b' ' ∷ b' ' ∷ indent n

mutual
  pretty_at : ℕ → Json → Text
  pretty_at depth (arr nil) = text "[]"
  pretty_at depth (arr (cons x xs)) =
      text "[" ++ (pretty_items depth (cons x xs) ++ (10 ∷ (indent depth ++ text "]")))
  pretty_at depth (obj end) = text "{}"
  pretty_at depth (obj (member k v ms)) =
      text "{" ++ (pretty_members depth (member k v ms) ++ (10 ∷ (indent depth ++ text "}")))
  pretty_at depth v = stringify v

  pretty_items : ℕ → Items → Text
  pretty_items depth nil = []
  pretty_items depth (cons x nil) = 10 ∷ (indent (suc depth) ++ pretty_at (suc depth) x)
  pretty_items depth (cons x (cons y xs)) =
      10
      ∷ (indent (suc depth)
          ++ (pretty_at (suc depth) x ++ (text "," ++ pretty_items depth (cons y xs))))

  pretty_members : ℕ → Members → Text
  pretty_members depth end = []
  pretty_members depth (member k v end) =
      10 ∷ (indent (suc depth) ++ (quote k ++ (text ": " ++ pretty_at (suc depth) v)))
  pretty_members depth (member k v (member k' v' ms)) =
      10
      ∷ (indent (suc depth)
          ++ (quote k
              ++ (text ": "
                  ++ (pretty_at (suc depth) v
                      ++ (text "," ++ pretty_members depth (member k' v' ms))))))

unfoldable pub pretty : Json → Text
unfolding pretty_at pretty_items pretty_members
pretty v = pretty_at 0 v
