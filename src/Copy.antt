-- ===== src/Copy.antt =====
-- The words that the tables share (web/src/lib/plural.ts, web/src/lib/placeholder.ts).
use porymcp.Base.{ℕ, [], ◌∷◌, ◌++◌, eqb, if◌then◌else◌, Text, text, decimal}

unfoldable pub plural : ℕ → Text → Text
plural n noun = decimal n ++ (text " " ++ (noun ++ (if eqb n 1 then [] else text "s")))

-- A no-break space.
abbrev pub loading_text : Text
loading_text = 0xa0 ∷ []

abbrev pub absent : Text
absent = text "None"
