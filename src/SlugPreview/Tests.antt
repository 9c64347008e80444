-- ===== src/SlugPreview/Tests.antt =====
-- Runs of the slug's preview, and its theorem at a concrete name.
use porymcp.Base.{◌≤◌, ◌≡◌, refl, ◌⊎◌, true, [], ◌∷◌, length, text, trim}
use porymcp.ToolEntry.Slug.{valid_slug}
use porymcp.ToolFilter.{lower}
use porymcp.SlugPreview.{derive_slug, max_slug_length}
use porymcp.SlugPreview.Valid.{derive_slug-valid_slug}

derived :
    (derive_slug (text " GitHub (work) ") ≡ text "github_work")
    × (derive_slug (text "--") ≡ [])
    × (derive_slug (0x130 ∷ text "zmir") ≡ text "izmir")
unfolding derive_slug text trim lower
derived = (refl, refl, refl)

derive_slug-valid_slug_example :
    ((derive_slug (text "GitHub") ≡ []) ⊎ (valid_slug (derive_slug (text "GitHub")) ≡ true))
    × (length (derive_slug (text "GitHub")) ≤ max_slug_length)
derive_slug-valid_slug_example = derive_slug-valid_slug (text "GitHub")
