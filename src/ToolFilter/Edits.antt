-- ===== src/ToolFilter/Edits.antt =====
-- Adding and removing entries (toggleEntry and wholeMemberPrefix of web/src/lib/tool-filter.ts).
use porymcp.Base.{
  ◌≡◌, refl, sym, ap, ap₂, ◌∙◌, inl, inr, Bool, true, false, not, ◌&&◌, ◌||◌, List, [], ◌∷◌, ◌++◌,
  arith, if◌then◌else◌, Bool-cases, or_right, or_false, any, filter, any-append, any-filter, Text,
  ◌==◌, starts_with, eq_refl, eq_iff, includes, Distinct, includes-append, any_of_includes, without,
  includes-without, Distinct-without,
}
use porymcp.ToolEntry.Slug.{valid_slug}
use porymcp.ToolEntry.{
  FilterMode, unset, rule, Side, allow, deny, FilterForm, filter_permits, permits_under, is_allow,
  listed, usable, match_tool_entry, scoped_tool_name,
}
use porymcp.ToolEntry.Identity.{
  slug-ne-nil, split_entry-scoped_tool_name, match_tool_entry-scoped_tool_name,
}
use porymcp.ToolFilter.Defs.{toggle_entry, whole_member_prefix}

-- Afterwards the entry is listed or not as asked, and every other entry as before.
pub includes-toggle_entry :
    (list : List Text) (entry : Text) (on : Bool) (e : Text)
    → includes (toggle_entry list entry on) e ≡ (if entry == e then on else includes list e)
unfolding toggle_entry
includes-toggle_entry list entry true e = elim (Bool-cases (includes list entry)) [
  | inl old ↦ rw old (ground (arith, eq_iff entry e))
  | inr new ↦ rw (new, includes-append list (entry ∷ []) e) (ground (arith, eq_iff entry e))
]
includes-toggle_entry list entry false e =
    includes-without list entry e ∙ ground (arith, eq_iff entry e, eq_iff e entry)

pub Distinct-append :
    (xs : List Text) (e : Text) → Distinct xs → includes xs e ≡ false → Distinct (xs ++ e ∷ [])
Distinct-append [] e d n = (refl, tt)
Distinct-append (x ∷ xs) e d n =
    ground (arith, includes-append xs (e ∷ []) x, eq_iff x e, eq_iff e x, Distinct-append xs e)

-- A list without repetition stays one.
pub Distinct-toggle_entry :
    (list : List Text) (entry : Text) (on : Bool)
    → Distinct list
    → Distinct (toggle_entry list entry on)
unfolding toggle_entry
Distinct-toggle_entry list entry true d = elim (Bool-cases (includes list entry)) [
  | inl old ↦ rw old d
  | inr new ↦ rw new (Distinct-append list entry d new)
]
Distinct-toggle_entry list entry false d = Distinct-without list entry d

without-append :
    (list : List Text) (entry : Text)
    → includes list entry ≡ false
    → without (list ++ entry ∷ []) entry ≡ list
without-append [] entry h = rw (eq_refl entry)
without-append (x ∷ list) entry h =
    let (off, later) = or_false (x == entry) (includes list entry) h in
    rw off (ap (λ l. x ∷ l) (without-append list entry later))

-- Adding an entry and removing it again gives the list back, in its order.
pub toggle_entry-undo :
    (list : List Text) (entry : Text)
    → includes list entry ≡ false
    → toggle_entry (toggle_entry list entry true) entry false ≡ list
unfolding toggle_entry
toggle_entry-undo list entry h = rw h (without-append list entry h)

any-toggle_on :
    (p : Text → Bool) (list : List Text) (entry : Text)
    → any p (toggle_entry list entry true) ≡ (any p list || p entry)
unfolding toggle_entry
any-toggle_on p list entry = elim (Bool-cases (includes list entry)) [
  | inl old ↦ rw old (absorbed (any p list) (p entry) (any_of_includes p list entry old))
  | inr new ↦ rw new (any-append p list (entry ∷ []) ∙ or_last (any p list) (p entry))
]
  where
    absorbed : (a b : Bool) → (b ≡ true → a ≡ true) → a ≡ (a || b)
    absorbed true b h = refl
    absorbed false true h = h refl
    absorbed false false h = refl

    or_last : (a b : Bool) → (a || (b || false)) ≡ (a || b)
    or_last true b = refl
    or_last false true = refl
    or_last false false = refl

usable-scoped_tool_name :
    (side : Side) (slug name : Text)
    → valid_slug slug ≡ true
    → usable side (scoped_tool_name slug name) ≡ true
unfolding usable
usable-scoped_tool_name side slug name h =
    or_right (not (is_allow side)) _ (ap (λ s. s.scoped) (split_entry-scoped_tool_name slug name h))

covers-toggle_on :
    (is_prefix : Bool) (side : Side) (list : List Text) (slug rest slug' name' : Text)
    → valid_slug slug ≡ true
    → any
        (λ e. match_tool_entry e slug' name' is_prefix)
        (filter (usable side) (toggle_entry list (scoped_tool_name slug rest) true))
      ≡ (any (λ e. match_tool_entry e slug' name' is_prefix) (filter (usable side) list)
          || (slug == slug' && (if is_prefix then starts_with name' rest else rest == name')))
covers-toggle_on is_prefix side list slug rest slug' name' h =
    any-filter _ (usable side) (toggle_entry list (scoped_tool_name slug rest) true)
    ∙ any-toggle_on _ list (scoped_tool_name slug rest)
    ∙ ap₂ ◌||◌ (sym (any-filter _ (usable side) list)) (
        rw (
          usable-scoped_tool_name side slug rest h,
          match_tool_entry-scoped_tool_name slug rest slug' name' is_prefix h,
        ))

or_swap : (a b c : Bool) → ((a || c) || b) ≡ ((a || b) || c)
or_swap true b c = refl
or_swap false true true = refl
or_swap false true false = refl
or_swap false false true = refl
or_swap false false false = refl

abbrev pub tick_tool : FilterForm → Text → FilterForm
tick_tool f entry = record f { tools = toggle_entry f.tools entry true }

abbrev pub tick_prefix : FilterForm → Text → FilterForm
tick_prefix f entry = record f { prefixes = toggle_entry f.prefixes entry true }

listed-tick_tool :
    (f : FilterForm) (side : Side) (slug name slug' name' : Text)
    → valid_slug slug ≡ true
    → listed (tick_tool f (scoped_tool_name slug name)) side slug' name'
      ≡ (listed f side slug' name' || (slug == slug' && name == name'))
unfolding listed
listed-tick_tool f side slug name slug' name' h =
    ap (λ b. b || any (λ e. match_tool_entry e slug' name' true) (filter (usable side) f.prefixes))
      (covers-toggle_on false side f.tools slug name slug' name' h)
    ∙ or_swap (any (λ e. match_tool_entry e slug' name' false) (filter (usable side) f.tools))
        (any (λ e. match_tool_entry e slug' name' true) (filter (usable side) f.prefixes))
        (slug == slug' && name == name')

or_assoc_left : (a b c : Bool) → (a || (b || c)) ≡ ((a || b) || c)
or_assoc_left true b c = refl
or_assoc_left false b c = refl

and_true : (b : Bool) → (b && true) ≡ b
and_true true = refl
and_true false = refl

listed-tick_prefix :
    (f : FilterForm) (side : Side) (slug slug' name' : Text)
    → valid_slug slug ≡ true
    → listed (tick_prefix f (scoped_tool_name slug [])) side slug' name'
      ≡ (listed f side slug' name' || slug == slug')
unfolding listed
listed-tick_prefix f side slug slug' name' h =
    ap (λ b. any (λ e. match_tool_entry e slug' name' false) (filter (usable side) f.tools) || b)
      (covers-toggle_on true side f.prefixes slug [] slug' name' h
        ∙ ap
            (λ b.
              any (λ e. match_tool_entry e slug' name' true) (filter (usable side) f.prefixes) || b)
            (and_true (slug == slug')))
    ∙ or_assoc_left (any (λ e. match_tool_entry e slug' name' false) (filter (usable side) f.tools))
        (any (λ e. match_tool_entry e slug' name' true) (filter (usable side) f.prefixes))
        (slug == slug')

-- The verdict of a filter on a tool, given what more it lists.
abbrev pub with_more : FilterMode → Bool → Bool → Bool
with_more unset before more = before
with_more (rule allow) before more = before || more
with_more (rule deny) before more = before && not more

permits_more :
    (mode : FilterMode) (f g : FilterForm) (slug name : Text) (more : Bool)
    → ((side : Side) → listed g side slug name ≡ (listed f side slug name || more))
    → permits_under mode g slug name ≡ with_more mode (permits_under mode f slug name) more
unfolding permits_under
permits_more unset f g slug name more h = refl
permits_more (rule allow) f g slug name more h = h allow
permits_more (rule deny) f g slug name more h =
    ap not (h deny) ∙ not_or (listed f deny slug name) more
  where
    not_or : (a b : Bool) → not (a || b) ≡ (not a && not b)
    not_or true b = refl
    not_or false b = refl

-- Adding the entry of one tool of a valid slug changes the verdict of the filter on that tool
-- alone: under allow it now passes, under deny it is now stopped, with no mode nothing changes,
-- and every other tool is judged as before.
pub filter_permits-tick_tool :
    (f : FilterForm) (slug name slug' name' : Text)
    → valid_slug slug ≡ true
    → filter_permits (tick_tool f (scoped_tool_name slug name)) slug' name'
      ≡ with_more f.mode (filter_permits f slug' name') (slug == slug' && name == name')
unfolding filter_permits
filter_permits-tick_tool f slug name slug' name' h =
    permits_more f.mode f (tick_tool f (scoped_tool_name slug name)) slug' name' _
      (λ side. listed-tick_tool f side slug name slug' name' h)

prefix_is_scoped :
    (slug : Text) → valid_slug slug ≡ true → whole_member_prefix slug ≡ scoped_tool_name slug []
unfolding whole_member_prefix scoped_tool_name
prefix_is_scoped [] h = absurd (slug-ne-nil h refl)
prefix_is_scoped (c ∷ slug) h = refl

-- Adding the prefix of a whole member changes the verdict of the filter on every tool of that
-- member, and on no other's: under allow they pass, under deny they are stopped.
pub filter_permits-tick_member :
    (f : FilterForm) (slug slug' name' : Text)
    → valid_slug slug ≡ true
    → filter_permits (tick_prefix f (whole_member_prefix slug)) slug' name'
      ≡ with_more f.mode (filter_permits f slug' name') (slug == slug')
unfolding filter_permits
filter_permits-tick_member f slug slug' name' h =
    ap (λ p. permits_under f.mode (tick_prefix f p) slug' name') (prefix_is_scoped slug h)
    ∙ permits_more f.mode f (tick_prefix f (scoped_tool_name slug [])) slug' name' (slug == slug')
        (λ side. listed-tick_prefix f side slug slug' name' h)
