-- ===== src/Catalogue/Covering.antt =====
-- A tool that another entry covers, and a filter that blocks all (coveringEntry and
-- blocksEverything of web/src/lib/catalogue.ts).
use porymcp.Base.{
  ◌≡◌, refl, sym, ap, ap₂, subst, ◌∙◌, inl, inr, Bool, true, false, false≢true, not, ◌&&◌, ◌||◌,
  Option, none, some, List, [], ◌∷◌, Bool-cases, Option-cases, some_inj, any, find, is_empty,
  or_else, any-filter, any_ext, is_found, find-any, Text, ◌==◌,
}
use porymcp.ToolEntry.{
  Side, allow, deny, FilterForm, match_tool_entry, split_entry, scoped_tool_name, usable, listed,
}
use porymcp.ToolEntry.Matching.{match_nil}
use porymcp.ToolFilter.Defs.{toggle_entry}
use porymcp.Catalogue.{skipped, covering_entry}

-- What `find` gives is an element that passes the test.
find_passes : (p : Text → Bool) (xs : List Text) (e : Text) → find p xs ≡ some e → p e ≡ true
find_passes p [] e h = cc
find_passes p (x ∷ xs) e h = elim (Bool-cases (p x)) [
  | inl here ↦ subst (λ y. p y ≡ true) (some_inj (rw here at h)) here
  | inr later ↦ find_passes p xs e (rw later at h)
]

-- A text that is found is not empty, where the test refuses the empty one.
found-is_empty :
    (p : Text → Bool) (xs : List Text)
    → p [] ≡ false
    → not (is_empty (or_else (find p xs) [])) ≡ any p xs
found-is_empty p xs h = elim (Option-cases (find p xs)) [
  | inl off ↦ rw off (ap is_found (sym off) ∙ find-any p xs)
  | inr (e, on) ↦ rw on (not_nil e (find_passes p xs e on) ∙ ap is_found (sym on) ∙ find-any p xs)
]
  where
    not_nil : (e : Text) → p e ≡ true → not (is_empty e) ≡ true
    not_nil [] k = absurd (false≢true (sym h ∙ k))
    not_nil (c ∷ e) k = refl

skipped-usable : (side : Side) (e : Text) → not (skipped side true e) ≡ usable side e
unfolding skipped usable
skipped-usable allow e = not_not (split_entry e).scoped
  where
    not_not : (b : Bool) → not (not b) ≡ b
    not_not true = refl
    not_not false = refl
skipped-usable deny e = refl

and-false : (a b : Bool) → (a && b && false) ≡ false
and-false true true = refl
and-false true false = refl
and-false false b = refl

module _ (slug name : Text) (side : Side) where
  abbrev covers_tool : Text → Bool
  covers_tool e =
      not (e == scoped_tool_name slug name)
      && not (skipped side true e)
      && match_tool_entry e slug name false

  abbrev covers_prefix : Text → Bool
  covers_prefix e = not (skipped side true e) && match_tool_entry e slug name true

  covering-is_empty :
      (tools prefixes : List Text)
      → not (is_empty (covering_entry slug name tools prefixes side true))
        ≡ (any covers_tool tools || any covers_prefix prefixes)
  unfolding covering_entry
  covering-is_empty tools prefixes =
      first_or_second (find covers_tool tools) (or_else (find covers_prefix prefixes) [])
        (λ e h. not_nil e (find_passes covers_tool tools e h))
      ∙ ap₂ (λ a b. a || b) (find-any covers_tool tools)
          (found-is_empty covers_prefix prefixes (no_prefix))
    where
      first_or_second :
          (o : Option Text) (rest : Text)
          → ((e : Text) → o ≡ some e → not (is_empty e) ≡ true)
          → not (is_empty (or_else o rest)) ≡ (is_found o || not (is_empty rest))
      first_or_second none rest h = refl
      first_or_second (some e) rest h = h e refl

      no_prefix : covers_prefix [] ≡ false
      no_prefix = rw (match_nil slug name true) (and_false (not (skipped side true [])))
        where
          and_false : (b : Bool) → (b && false) ≡ false
          and_false true = refl
          and_false false = refl

      no_tool : covers_tool [] ≡ false
      no_tool =
          rw (match_nil slug name false)
            (and-false (not ([] == scoped_tool_name slug name)) (not (skipped side true [])))

      not_nil : (e : Text) → covers_tool e ≡ true → not (is_empty e) ≡ true
      not_nil [] k = absurd (false≢true (sym (no_tool) ∙ k))
      not_nil (c ∷ e) k = refl

and_assoc : (a b c : Bool) → (a && b && c) ≡ (a && (b && c))
and_assoc true b c = refl
and_assoc false b c = refl

-- On a group, another entry is named as covering a tool exactly when the rule still lists the
-- tool once its own entry is taken out.
pub covering_entry-listed :
    (f : FilterForm) (side : Side) (slug name : Text)
    → not (is_empty (covering_entry slug name f.tools f.prefixes side true))
      ≡ listed
          (record f { tools = toggle_entry f.tools (scoped_tool_name slug name) false })
          side
          slug
          name
unfolding listed toggle_entry
covering_entry-listed f side slug name =
    covering-is_empty slug name side f.tools f.prefixes
    ∙ ap₂ (λ a b. a || b)
        (any_ext (covers_tool slug name side) _ f.tools (λ e.
            ap
              (λ b.
                not (e == scoped_tool_name slug name) && b && match_tool_entry e slug name false)
              (skipped-usable side e)
            ∙ and_assoc (not (e == scoped_tool_name slug name)) (usable side e)
                (match_tool_entry e slug name false))
          ∙ sym (any-filter _ (λ e. not (e == scoped_tool_name slug name)) f.tools)
          ∙ sym (
              any-filter (λ e. match_tool_entry e slug name false) (usable side)
                (toggle_entry f.tools (scoped_tool_name slug name) false)))
        (any_ext (covers_prefix slug name side) _ f.prefixes
            (λ e. ap (λ b. b && match_tool_entry e slug name true) (skipped-usable side e))
          ∙ sym (any-filter (λ e. match_tool_entry e slug name true) (usable side) f.prefixes))
