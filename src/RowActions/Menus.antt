-- ===== src/RowActions/Menus.antt =====
-- The order of the menus (web/src/lib/row-actions.ts).
use porymcp.Base.{
  ◌≡◌, refl, sym, ap, ◌∙◌, inl, inr, true, false, List, [], ◌∷◌, ◌++◌, map, Bool-cases, drop, text,
  ◌==◌,
}
use porymcp.Api.{Upstream}
use porymcp.RowActions.{RowMenuSpec, upstream_actions, bind_row_actions, bind_item}

abbrev pub all_items : {A : Type 0} → List (List A) → List A
all_items [] = []
all_items (s ∷ ss) = s ++ all_items ss

-- Delete is the last item, and the only destructive one.
abbrev pub EndsInDelete : {A : Type 0} → RowMenuSpec A → Type 0
EndsInDelete menu =
    map (λ i. i.destructive) (all_items menu)
    ≡ map (λ n. false) (drop 1 (all_items menu)) ++ true ∷ []

pub upstream_actions-EndsInDelete : (u : Upstream) → EndsInDelete (upstream_actions u)
unfolding upstream_actions
upstream_actions-EndsInDelete u = elim (Bool-cases (u.auth_type == text "oauth")) [
  | inl signs_in ↦ rw signs_in refl
  | inr other ↦ rw other refl
]

map-append : {A B : Type 0} (f : A → B) (xs ys : List A) → map f (xs ++ ys) ≡ map f xs ++ map f ys
map-append f [] ys = refl
map-append f (x ∷ xs) ys = ap (◌∷◌ (f x)) (map-append f xs ys)

-- Every item is bound to the handler of its own action, in the order of the menu, and nothing is
-- added or left out.
pub bind_row_actions-all_items :
    {A H : Type 0} (menu : RowMenuSpec A) (run : A → H)
    → all_items (bind_row_actions menu run) ≡ map (bind_item run) (all_items menu)
unfolding bind_row_actions
bind_row_actions-all_items [] run = refl
bind_row_actions-all_items (section ∷ menu) run =
    ap (◌++◌ (map (bind_item run) section)) (bind_row_actions-all_items menu run)
    ∙ sym (map-append (bind_item run) section (all_items menu))
