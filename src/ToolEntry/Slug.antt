-- ===== src/ToolEntry/Slug.antt =====
-- The slug patterns of web/src/lib/tool-entry.ts.
use porymcp.Base.{
  ℕ, zero, suc, Bool, false, not, ◌&&◌, ◌||◌, Option, none, some, [], ◌∷◌, Text, is_empty, leb, eqb,
  if◌then◌else◌,
}

-- [a-z0-9] and [a-z0-9_-]
abbrev pub is_edge : ℕ → Bool
is_edge c = (leb b'a' c && leb c b'z') || (leb b'0' c && leb c b'9')

abbrev pub is_sep : ℕ → Bool
is_sep c = eqb c b'_' || eqb c b'-'

abbrev pub is_inner : ℕ → Bool
is_inner c = is_edge c || is_sep c

-- [a-z0-9_-]{0,n}[a-z0-9]$
unfoldable pub slug_rest : ℕ → Text → Bool
slug_rest n [] = false
slug_rest n (c ∷ []) = is_edge c
slug_rest zero (c ∷ d ∷ s) = false
slug_rest (suc n) (c ∷ d ∷ s) = is_inner c && slug_rest n (d ∷ s)

-- SLUG_PATTERN
unfoldable pub slug_pattern : Text → Bool
unfolding slug_rest
slug_pattern [] = false
slug_pattern (c ∷ s) = is_edge c && (is_empty s || slug_rest 38 s)

-- SLUG_SEP_RUN
unfoldable pub slug_sep_run : Text → Bool
slug_sep_run [] = false
slug_sep_run (c ∷ []) = false
slug_sep_run (c ∷ d ∷ s) = (is_sep c && is_sep d) || slug_sep_run (d ∷ s)

is_hex : ℕ → Bool
is_hex c = (leb b'0' c && leb c b'9') || (leb b'a' c && leb c b'f')

-- [0-9a-f]{n}, and what follows it.
unfoldable pub hex_run : ℕ → Text → Option Text
unfolding is_hex
hex_run zero s = some s
hex_run (suc n) [] = none
hex_run (suc n) (c ∷ s) = let rest = hex_run n s in if is_hex c then rest else none

unfoldable pub after_dash : Text → Option Text
after_dash [] = none
after_dash (c ∷ s) = if eqb c b'-' then some s else none

infixl 5 ◌>>=◌
abbrev pub ◌>>=◌ : Option Text → (Text → Option Text) → Option Text
none >>= k = none
some a >>= k = k a

abbrev pub is_done : Option Text → Bool
is_done none = false
is_done (some s) = is_empty s

-- UUID_LIKE
unfoldable pub uuid_like : Text → Bool
unfolding hex_run after_dash
uuid_like s = is_done (
    hex_run 8 s
    >>= after_dash
    >>= hex_run 4
    >>= after_dash
    >>= hex_run 4
    >>= after_dash
    >>= hex_run 4
    >>= after_dash
    >>= hex_run 12)

unfoldable pub valid_slug : Text → Bool
valid_slug s = slug_pattern s && not (slug_sep_run s) && not (uuid_like s)
