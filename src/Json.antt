-- ===== src/Json.antt =====
-- The language's JSON values and `JSON.stringify`, as far as the dashboard uses them
-- (web/src/lib/tool-entry.ts, web/src/lib/tool-filter.ts).
use porymcp.Base.{
  ℕ, ◌+◌, ◌-◌, ◌/◌, ◌%◌, Bool, true, false, ◌&&◌, ◌||◌, List, [], ◌∷◌, ◌++◌, Text, text, leb, ltb,
  eqb, if◌then◌else◌,
}

-- A value of unknown shape. A number carries the text that `JSON.stringify` prints for it: the
-- program does nothing else with one. An object is the list of its entries, in the order of
-- `Object.entries`.
mutual
  pub data Json : Type 0 where
    null : Json
    bool : Bool → Json
    num : Text → Json
    str : Text → Json
    arr : Items → Json
    obj : Members → Json

  pub data Items : Type 0 where
    nil : Items
    cons : Json → Items → Items

  pub data Members : Type 0 where
    end : Members
    member : Text → Json → Members → Members

abbrev pub is_high : ℕ → Bool
is_high u = leb 0xd800 u && leb u 0xdbff

abbrev pub is_low : ℕ → Bool
is_low u = leb 0xdc00 u && leb u 0xdfff

low_first : Text → Bool
low_first [] = false
low_first (u ∷ t) = is_low u

hex_digit : ℕ → ℕ
hex_digit d = if ltb d 10 then b'0' + d else b'a' + (d - 10)

-- A backslash, u, and four hexadecimal digits.
unicode_escape : ℕ → Text
unfolding hex_digit
unicode_escape u =
    0x5c
    ∷ b'u'
    ∷ hex_digit (u / 4096 % 16)
    ∷ hex_digit (u / 256 % 16)
    ∷ hex_digit (u / 16 % 16)
    ∷ hex_digit (u % 16)
    ∷ []

quote_unit : ℕ → Text
unfolding unicode_escape
quote_unit u =
    if eqb u 0x22
    then 0x5c ∷ 0x22 ∷ []
    else if eqb u 0x5c
    then 0x5c ∷ 0x5c ∷ []
    else if eqb u 8
    then 0x5c ∷ b'b' ∷ []
    else if eqb u 9
    then 0x5c ∷ b't' ∷ []
    else if eqb u 10
    then 0x5c ∷ b'n' ∷ []
    else if eqb u 12
    then 0x5c ∷ b'f' ∷ []
    else if eqb u 13
    then 0x5c ∷ b'r' ∷ []
    else if ltb u 0x20
    then unicode_escape u
    else u ∷ []

-- A surrogate pair stays, and a lone surrogate is escaped. `paired` says that the unit ends a pair.
quote_units : Bool → Text → Text
unfolding quote_unit low_first unicode_escape
quote_units paired [] = []
quote_units paired (u ∷ t) =
    let opens = is_high u && low_first t in
    let shown =
      if paired || opens
      then u ∷ []
      else if is_high u || is_low u
      then unicode_escape u
      else quote_unit u in
    shown ++ quote_units opens t

-- `JSON.stringify` of a string.
unfoldable pub quote : Text → Text
unfolding quote_units
quote s = 0x22 ∷ quote_units false s ++ 0x22 ∷ []

unfoldable mutual
  unfolding quote

  -- `JSON.stringify` of a parsed value.
  pub stringify : Json → Text
  stringify null = text "null"
  stringify (bool true) = text "true"
  stringify (bool false) = text "false"
  stringify (num shown) = shown
  stringify (str s) = quote s
  stringify (arr xs) = b'[' ∷ stringify_items xs
  stringify (obj ms) = b'{' ∷ stringify_members ms

  pub stringify_items : Items → Text
  stringify_items nil = b']' ∷ []
  stringify_items (cons x nil) = stringify x ++ b']' ∷ []
  stringify_items (cons x (cons y ys)) = stringify x ++ (b',' ∷ stringify_items (cons y ys))

  pub stringify_members : Members → Text
  stringify_members end = b'}' ∷ []
  stringify_members (member k v end) = quote k ++ (b':' ∷ stringify v) ++ b'}' ∷ []
  stringify_members (member k v (member j w ms)) =
      quote k ++ ((b':' ∷ stringify v) ++ (b',' ∷ stringify_members (member j w ms)))

-- The strings of an array, and such an array.
abbrev pub strings : List Text → Items
strings [] = nil
strings (x ∷ xs) = cons (str x) (strings xs)
