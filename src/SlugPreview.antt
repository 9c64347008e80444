-- ===== src/SlugPreview.antt =====
-- The preview of an upstream's slug (web/src/lib/slug.ts).
pub mod Flat
pub mod Valid
mod Tests
use porymcp.Base.{
  ℕ, zero, suc, ◌+◌, ◌-◌, ◌*◌, ◌/◌, ◌%◌, ◌≤◌, ◌<◌, String, ◌≡◌, refl, sym, ap, ap₂, subst, ◌∙◌, ◌≢◌,
  ◌↔◌, ◌⊎◌, inl, inr, Bool, true, false, false≢true, true≢false, not, ◌&&◌, ◌||◌, Option, none,
  some, List, [], ◌∷◌, ◌++◌, map, append-nil, append_assoc, arith, ltb, leb, eqb, if◌then◌else◌,
  eqb_iff, eqb_refl, Bool-cases, Option-cases, Bool-eq, and_parts, or_cases, or_right, not-true,
  or_false, some_inj, not-false, length, take, drop, any, all, filter, find, is_empty, All, or_else,
  length-append, take-append_length, drop-append_length, any-append, any-filter, any_ext,
  All-weaken, All-append, All-middle, All-both, Exists, any_iff, all_iff, is_found, find-any, Text,
  text, ◌==◌, starts_with, join, truthy, or_text, eq_sound, eq_refl, eq_complete, eq_iff,
  starts_with-append, starts_with_rest, trim_end, trim_start, trim, includes, Distinct, SubsetOf,
  SameSet, includes-append, any_of_includes, all_of_includes, all_intro, any_witness, any-SameSet,
  without, includes-without, Distinct-without, length-without, length-SubsetOf, SameSet-of_length,
  digits_onto, decimal,
}
use porymcp.ToolEntry.Slug.{is_edge, is_sep}
use porymcp.ToolFilter.{lower}

-- `.replace(/İ/g, 'i')`
unfoldable pub plain_i : Text → Text
plain_i s = map (λ u. if eqb u 0x130 then b'i' else u) s

-- `.replace(/[^a-z0-9]+/g, by)`; `run` says that the unit before is in a run that was replaced.
unfoldable pub collapse : ℕ → Bool → Text → Text
collapse by run [] = []
collapse by run (c ∷ s) =
    let kept = c ∷ collapse by false s in
    let rest = collapse by true s in if is_edge c then kept else if run then rest else by ∷ rest

abbrev pub is_under : ℕ → Bool
is_under c = eqb c b'_'

-- `.replace(/^_+/, '')`
unfoldable pub drop_start : Text → Text
drop_start [] = []
drop_start (c ∷ s) = let rest = drop_start s in if is_under c then rest else c ∷ s

-- `.replace(/[...]+$/, '')`
unfoldable pub drop_end : (ℕ → Bool) → Text → Text
drop_end p [] = []
drop_end p (c ∷ s) = let rest = drop_end p s in if is_empty rest && p c then [] else c ∷ rest

abbrev pub max_slug_length : ℕ
max_slug_length = 40

unfoldable pub cut_slug : Text → Text
unfolding drop_end
cut_slug s = if ltb max_slug_length (length s) then drop_end is_sep (take max_slug_length s) else s

unfoldable pub derive_slug : Text → Text
unfolding plain_i collapse drop_start drop_end cut_slug
derive_slug name =
    cut_slug (drop_end is_under (drop_start (collapse b'_' false (lower (trim (plain_i name))))))
