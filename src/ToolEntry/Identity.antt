-- ===== src/ToolEntry/Identity.antt =====
-- The identity that a group endpoint gives a tool, and the entry that names it.
use porymcp.Base.{
  ℕ, zero, suc, ◌≡◌, ap, subst, ◌∙◌, ◌≢◌, ◌↔◌, Bool, true, false, ◌&&◌, [], ◌∷◌, ◌++◌, arith,
  if◌then◌else◌, and_parts, Text, ◌==◌, starts_with, eq_sound, eq_complete,
}
use porymcp.ToolEntry.Slug.{valid_slug, slug_pattern, slug_rest, slug_sep_run}
use porymcp.ToolEntry.{split_entry, scoped_tool_name, match_tool_entry, match_split}
use porymcp.ToolEntry.Separator.{
  NoEarlier, scoped_split, split_entry-join, index_of_cons_none, index_of_pair,
}

rest-NoEarlier :
    (n c : ℕ) (s : Text)
    → slug_rest n (c ∷ s) ≡ true
    → slug_sep_run (c ∷ s) ≡ false
    → NoEarlier (c ∷ s)
unfolding slug_rest slug_sep_run
rest-NoEarlier n c [] h k = index_of_pair c b'_' (ground arith)
rest-NoEarlier zero c (d ∷ s) h k = ground arith
rest-NoEarlier (suc n) c (d ∷ s) h k =
    index_of_cons_none c d (s ++ b'_' ∷ []) (ground arith)
      (rest-NoEarlier n d s (ground arith) (ground arith))

nil_is_no_slug : valid_slug [] ≡ true → ⊥
unfolding valid_slug slug_pattern
nil_is_no_slug h = ground arith

pub slug-ne-nil : {slug : Text} → valid_slug slug ≡ true → slug ≢ []
slug-ne-nil h e = nil_is_no_slug (subst (λ s. valid_slug s ≡ true) e h)

slug_parts :
    (slug : Text)
    → valid_slug slug ≡ true
    → (slug_pattern slug ≡ true) × (slug_sep_run slug ≡ false)
unfolding valid_slug
slug_parts slug h = ground arith

pattern-NoEarlier :
    (slug : Text) → slug_pattern slug ≡ true → slug_sep_run slug ≡ false → NoEarlier slug
unfolding slug_pattern slug_sep_run
pattern-NoEarlier [] h k = ground arith
pattern-NoEarlier (c ∷ []) h k = index_of_pair c b'_' (ground arith)
pattern-NoEarlier (c ∷ d ∷ s) h k =
    index_of_cons_none c d (s ++ b'_' ∷ []) (ground arith)
      (rest-NoEarlier 38 d s (ground arith) (ground arith))

-- A slug holds no separator and does not end in half of one.
pub slug-NoEarlier : (slug : Text) → valid_slug slug ≡ true → NoEarlier slug
slug-NoEarlier slug h = let (p, q) = slug_parts slug h in pattern-NoEarlier slug p q

-- A tool's identity splits back into the upstream's slug and the tool's own name, whatever the
-- name is.
pub split_entry-scoped_tool_name :
    (slug name : Text)
    → valid_slug slug ≡ true
    → split_entry (scoped_tool_name slug name) ≡ scoped_split slug name
unfolding scoped_tool_name
split_entry-scoped_tool_name [] name h = absurd (nil_is_no_slug h)
split_entry-scoped_tool_name (c ∷ slug) name h =
    split_entry-join c slug name (slug-NoEarlier (c ∷ slug) h)

match_scoped_split :
    (slug rest slug' name : Text) (is_prefix : Bool)
    → match_split (scoped_split slug rest) slug' name is_prefix
      ≡ (slug == slug' && (if is_prefix then starts_with name rest else rest == name))
match_scoped_split slug rest slug' name is_prefix = ground arith

-- An entry in the form slug, separator, rest reaches the tools of that slug alone: those of the
-- name `rest`, or as a prefix those whose name starts with it.
pub match_tool_entry-scoped_tool_name :
    (slug rest slug' name : Text) (is_prefix : Bool)
    → valid_slug slug ≡ true
    → match_tool_entry (scoped_tool_name slug rest) slug' name is_prefix
      ≡ (slug == slug' && (if is_prefix then starts_with name rest else rest == name))
unfolding match_tool_entry scoped_tool_name
match_tool_entry-scoped_tool_name [] rest slug' name is_prefix h = absurd (nil_is_no_slug h)
match_tool_entry-scoped_tool_name (c ∷ slug) rest slug' name is_prefix h =
    ap (λ s. match_split s slug' name is_prefix)
      (split_entry-join c slug rest (slug-NoEarlier (c ∷ slug) h))
    ∙ match_scoped_split (c ∷ slug) rest slug' name is_prefix

-- So the entry that a tick writes names one tool: it matches exactly the tool that it was made of.
pub match_tool_entry-own_iff :
    (slug name slug' name' : Text)
    → valid_slug slug ≡ true
    → (match_tool_entry (scoped_tool_name slug name) slug' name' false ≡ true)
      ↔ ((slug ≡ slug') × (name ≡ name'))
match_tool_entry-own_iff slug name slug' name' h =
    rw (match_tool_entry-scoped_tool_name slug name slug' name' false h) (
      (λ k. let (p, q) = and_parts _ _ k in (eq_sound slug slug' p, eq_sound name name' q)),
      (λ k. rw (eq_complete slug slug' k.0, eq_complete name name' k.1)),
    )
