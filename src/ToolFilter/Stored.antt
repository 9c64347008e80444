-- ===== src/ToolFilter/Stored.antt =====
-- What a filter that was read is like (parseToolFilter of web/src/lib/tool-filter.ts).
use porymcp.Base.{
  ◌+◌, ◌<◌, ◌≡◌, refl, sym, ap, subst, ◌∙◌, ◌≢◌, ◌↔◌, inl, inr, true, Option, none, some, List, [],
  ◌∷◌, arith, Bool-cases, and_parts, some_inj, length, all, or_else, Text, Distinct,
  all_of_includes, all_intro,
}
use porymcp.Json.{Json, Items, Members}
use porymcp.Json.Json.{null, bool, num, str, arr, obj}
use porymcp.Json.Items.{nil, cons}
use porymcp.ToolEntry.{FilterMode, unset, rule, allow, deny, FilterForm, clean_entry}
use porymcp.ToolFilter.{
  Distinct-unique, includes-unique, unique, ParsedFilter, filtered, unreadable, no_members,
  fold_members, read_mode, read_entries, read_list, form_of, read_folded, read_members,
  parse_tool_filter, ◌>>=◌, distinct_entries, prepend,
}
use porymcp.ToolFilter.Defs.{filter_value}
use porymcp.ToolFilter.RoundTrip.{AllClean, IsStored, parse_tool_filter-filter_value}

>>=-eq-some :
    {A B : Type 0} (m : Option A) (k : A → Option B) {b : B}
    → (m >>= k) ≡ some b
    → (a : A) × (m ≡ some a) × (k a ≡ some b)
>>=-eq-some none k h = cc
>>=-eq-some (some a) k h = (a, refl, h)

read_entries-AllClean : (xs : Items) (es : List Text) → read_entries xs ≡ some es → AllClean es
unfolding read_entries
read_entries-AllClean nil es h = let e : [] ≡ es = cc in subst AllClean e tt
read_entries-AllClean (cons (str x) xs) es h = elim (Bool-cases (clean_entry x)) [
  | inr dirty ↦ absurd (none≢some (rw dirty at h))
  | inl clean ↦
      let (rest, found, whole) = prepended x (read_entries xs) es (rw clean at h) in
      subst AllClean whole (clean, read_entries-AllClean xs rest found)
]
  where
    none≢some : {x : List Text} → none ≡ some x → ⊥
    none≢some e = cc

    prepended :
        (x : Text) (o : Option (List Text)) (es : List Text)
        → prepend x o ≡ some es
        → (rest : List Text) × (o ≡ some rest) × (x ∷ rest ≡ es)
    prepended x none es e = absurd (none≢some e)
    prepended x (some rest) es e = (rest, refl, some_inj e)
read_entries-AllClean (cons null xs) es h = cc
read_entries-AllClean (cons (bool b) xs) es h = cc
read_entries-AllClean (cons (num n) xs) es h = cc
read_entries-AllClean (cons (arr ys) xs) es h = cc
read_entries-AllClean (cons (obj ms) xs) es h = cc

AllClean-iff : (es : List Text) → (all clean_entry es ≡ true) ↔ AllClean es
AllClean-iff [] = (λ _. tt, λ _. refl)
AllClean-iff (e ∷ es) =
    let iff = AllClean-iff es in
    (λ h. let (p, q) = and_parts _ _ h in (p, iff.0 q), λ k. rw (k.0) (iff.1 k.1))

AllClean-unique : (es : List Text) → AllClean es → AllClean (unique es)
AllClean-unique es h = (AllClean-iff (unique es)).0 (
    all_intro clean_entry (unique es) λ e m.
      all_of_includes clean_entry es e ((AllClean-iff es).1 h) (sym (includes-unique es e) ∙ m))

read_array :
    (o : Option (List Text)) (es : List Text)
    → distinct_entries o ≡ some es
    → ((l : List Text) → o ≡ some l → AllClean l)
    → Distinct es × AllClean es
read_array none es h k = cc
read_array (some l) es h k =
    let same : unique l ≡ es = some_inj h in
    subst (λ x. Distinct x × AllClean x) same (Distinct-unique l, AllClean-unique l (k l refl))

empty_list : (es : List Text) → some [] ≡ some es → Distinct es × AllClean es
empty_list es h =
    let same : [] ≡ es = some_inj h in subst (λ x. Distinct x × AllClean x) same (tt, tt)

read_list-IsStored :
    (o : Option Json) (es : List Text) → read_list o ≡ some es → Distinct es × AllClean es
unfolding read_list
read_list-IsStored none es h = empty_list es h
read_list-IsStored (some null) es h = empty_list es h
read_list-IsStored (some (arr xs)) es h =
    read_array (read_entries xs) es h (read_entries-AllClean xs)
read_list-IsStored (some (bool b)) es h = cc
read_list-IsStored (some (num n)) es h = cc
read_list-IsStored (some (str s)) es h = cc
read_list-IsStored (some (obj ms)) es h = cc

abbrev form : FilterMode → List Text → List Text → FilterForm
form mode tools prefixes = record { mode = mode; tools = tools; prefixes = prefixes }

form_of-IsStored :
    (mode : FilterMode) (tools prefixes : List Text) (f : FilterForm)
    → form_of mode tools prefixes ≡ some (filtered f)
    → Distinct tools × AllClean tools
    → Distinct prefixes × AllClean prefixes
    → IsStored f
form_of-IsStored mode tools prefixes f h t p =
    let (same, some_mode, full) = formed mode tools prefixes f h in
    subst IsStored same (record {
      some_mode = some_mode;
      distinct_tools = t.0;
      distinct_prefixes = p.0;
      clean_tools = t.1;
      clean_prefixes = p.1;
      some_entry = full;
    })
  where
    formed :
        (mode : FilterMode) (tools prefixes : List Text) (f : FilterForm)
        → form_of mode tools prefixes ≡ some (filtered f)
        → (form mode tools prefixes ≡ f)
          × (mode ≢ unset)
          × (mode ≡ rule allow → 0 < length tools + length prefixes)
    formed unset tools prefixes f h = ground arith
    formed (rule allow) tools prefixes f h = (ground arith, (λ e. cc), λ _. ground arith)
    formed (rule deny) tools prefixes f h = (ground arith, (λ e. cc), λ e. cc)

read_members-IsStored :
    (ms : Members) (f : FilterForm) → read_members ms ≡ some (filtered f) → IsStored f
unfolding read_members read_folded
read_members-IsStored ms f h =
    let (folded, _, read) = >>=-eq-some (fold_members ms no_members) read_folded h in
    let (mode, _, rest) = >>=-eq-some (read_mode folded.mode) _ read in
    let (tools, t, last) = >>=-eq-some (read_list folded.tools) _ rest in
    let (prefixes, p, formed) = >>=-eq-some (read_list folded.prefixes) _ last in
    form_of-IsStored mode tools prefixes f formed (read_list-IsStored _ tools t)
      (read_list-IsStored _ prefixes p)

or_else_unreadable :
    (o : Option ParsedFilter) (t : Text) (f : FilterForm)
    → or_else o (unreadable t) ≡ filtered f
    → o ≡ some (filtered f)
or_else_unreadable none t f h = cc
or_else_unreadable (some p) t f h = ap some h

-- Whatever the server sends, a filter that parse_tool_filter accepts has a mode, lists of clean
-- entries without repetition, and at least one entry under allow.
pub parse_tool_filter-IsStored :
    (raw : Option Json) (f : FilterForm) → parse_tool_filter raw ≡ filtered f → IsStored f
unfolding parse_tool_filter
parse_tool_filter-IsStored none f h = cc
parse_tool_filter-IsStored (some null) f h = cc
parse_tool_filter-IsStored (some (obj ms)) f h =
    read_members-IsStored ms f (or_else_unreadable (read_members ms) _ f h)
parse_tool_filter-IsStored (some (bool b)) f h = cc
parse_tool_filter-IsStored (some (num n)) f h = cc
parse_tool_filter-IsStored (some (str s)) f h = cc
parse_tool_filter-IsStored (some (arr xs)) f h = cc

-- So a filter that was read and is sent back unchanged is read again as it was.
pub parse_tool_filter-again :
    (raw : Option Json) (f : FilterForm)
    → parse_tool_filter raw ≡ filtered f
    → parse_tool_filter (some (filter_value f)) ≡ filtered f
parse_tool_filter-again raw f h =
    parse_tool_filter-filter_value f (parse_tool_filter-IsStored raw f h)
