-- ===== src/LogsView/Query.antt =====
-- The Logs page's query and a page's path (logQuery, facetQuery and pagePath of
-- web/src/lib/logs-view.ts).
use porymcp.Base.{
  ℕ, ◌≡◌, refl, sym, ap, ◌∙◌, inl, inr, Bool, true, false, none, some, List, [], ◌∷◌, ◌++◌,
  append_assoc, if◌then◌else◌, Bool-cases, or_false, some_inj, any, or_else, is_found, Text, text,
  ◌==◌, includes, decimal,
}
use porymcp.LogsView.{
  LogFilters, Dates, SearchParams, Param, param, set_param, without_key, set_if, set_tool,
  log_params, log_window, sends_none, log_query, facet_query, page_path, page_size, cursor_param,
}

abbrev pub has_key : List Param → Text → Bool
has_key ps key = any (λ p. p.key == key) ps

-- A parameter of a new key goes to the end.
set_param_new :
    (ps : List Param) (key value : Text)
    → has_key ps key ≡ false
    → set_param ps key value ≡ ps ++ param key value ∷ []
unfolding set_param
set_param_new [] key value h = refl
set_param_new (p ∷ ps) key value h =
    let (here, later) = or_false (p.key == key) (has_key ps key) h in
    rw here (ap (λ l. p ∷ l) (set_param_new ps key value later))

without_key-has_key :
    (ps : List Param) (key j : Text) → has_key ps j ≡ false → has_key (without_key key ps) j ≡ false
without_key-has_key [] key j h = refl
without_key-has_key (p ∷ ps) key j h =
    let (here, later) = or_false (p.key == j) (has_key ps j) h in
    elim (Bool-cases (p.key == key)) [
      | inl gone ↦ rw gone (without_key-has_key ps key j later)
      | inr kept ↦ rw (kept, here) (without_key-has_key ps key j later)
    ]

-- Setting one key brings in no other.
set_param-has_key :
    (ps : List Param) (key value j : Text)
    → (key == j) ≡ false
    → has_key ps j ≡ false
    → has_key (set_param ps key value) j ≡ false
unfolding set_param
set_param-has_key [] key value j d h = rw d refl
set_param-has_key (p ∷ ps) key value j d h =
    let (here, later) = or_false (p.key == j) (has_key ps j) h in
    elim (Bool-cases (p.key == key)) [
      | inl same ↦ rw (same, d) (without_key-has_key ps key j later)
      | inr other ↦ rw (other, here) (set_param-has_key ps key value j d later)
    ]

set_if-has_key :
    (key value : Text) (ps : List Param) (j : Text)
    → (key == j) ≡ false
    → has_key ps j ≡ false
    → has_key (set_if key value ps) j ≡ false
set_if-has_key key [] ps j n h = h
set_if-has_key key (c ∷ v) ps j n h = set_param-has_key ps key (c ∷ v) j n h

abbrev log_keys : List Text
log_keys =
    text "virtual_key_id"
    ∷ text "method"
    ∷ text "has_tool"
    ∷ text "tool"
    ∷ text "status"
    ∷ text "since"
    ∷ text "until"
    ∷ []

set_tool-has_key :
    (f : LogFilters) (ps : List Param) (j : Text)
    → (text "has_tool" == j) ≡ false
    → (text "tool" == j) ≡ false
    → has_key ps j ≡ false
    → has_key (set_tool f ps) j ≡ false
set_tool-has_key f ps j a b h = elim (Bool-cases f.no_tool) [
  | inl off ↦ rw off (set_param-has_key ps (text "has_tool") (text "false") j a h)
  | inr on ↦ rw on (set_if-has_key (text "tool") f.tool ps j b h)
]

-- A query has the filters' own keys only.
log_params-has_key :
    (d : Dates) (f : LogFilters) (anchor : ℕ) (j : Text)
    → includes log_keys j ≡ false
    → has_key (log_params d f anchor) j ≡ false
unfolding log_params
log_params-has_key d f anchor j h =
    let (key, h1) = or_false (text "virtual_key_id" == j) _ h in
    let (method, h2) = or_false (text "method" == j) _ h1 in
    let (has_tool, h3) = or_false (text "has_tool" == j) _ h2 in
    let (tool, h4) = or_false (text "tool" == j) _ h3 in
    let (status, h5) = or_false (text "status" == j) _ h4 in
    let (since, h6) = or_false (text "since" == j) _ h5 in
    let (until, _) = or_false (text "until" == j) _ h6 in
    set_if-has_key (text "until") (or_else (log_window d f anchor).until []) _ j until (
      set_if-has_key (text "since") (or_else (log_window d f anchor).since []) _ j since (
        set_if-has_key (text "status") f.status _ j status (
          set_tool-has_key f _ j has_tool tool (
            set_if-has_key (text "method") f.method _ j method
              (set_if-has_key (text "virtual_key_id") f.virtual_key_id [] j key refl)))))

apart_keys :
    (includes log_keys (text "limit") ≡ false)
    × (includes log_keys (text "cursor") ≡ false)
    × ((text "limit" == text "cursor") ≡ false)
unfolding text
apart_keys = (refl, refl, refl)

-- The parameters that a page adds.
abbrev pub page_params : Text → List Param
page_params [] = param (text "limit") (decimal page_size) ∷ []
page_params (c ∷ cursor) =
    param (text "limit") (decimal page_size) ∷ param (text "cursor") (c ∷ cursor) ∷ []

with_page :
    (ps : List Param) (cursor : Text)
    → has_key ps (text "limit") ≡ false
    → has_key ps (text "cursor") ≡ false
    → cursor_param cursor (set_param ps (text "limit") (decimal page_size))
      ≡ ps ++ page_params cursor
with_page ps [] l k = set_param_new ps (text "limit") (decimal page_size) l
with_page ps (c ∷ cursor) l k =
    set_param_new (set_param ps (text "limit") (decimal page_size)) (text "cursor") (c ∷ cursor)
      (set_param-has_key ps (text "limit") (decimal page_size) (text "cursor") apart_keys.2 k)
    ∙ ap (λ l. l ++ param (text "cursor") (c ∷ cursor) ∷ [])
        (set_param_new ps (text "limit") (decimal page_size) l)
    ∙ append_assoc ps (param (text "limit") (decimal page_size) ∷ [])
        (param (text "cursor") (c ∷ cursor) ∷ [])

if_some : (b : Bool) {q r : Text} → (if b then none else some q) ≡ some r → q ≡ r
if_some true h = cc
if_some false h = some_inj h

either :
    (b : Bool) (q r : Text)
    → is_found (if b then none else some q) ≡ is_found (if b then none else some r)
either true q r = refl
either false q r = refl

module _ (d : Dates) (browser : SearchParams) where
  -- Where the filters have a query, a page asks for the filters' parameters as they are, then the
  -- page's size and its cursor, whatever text a filter holds.
  pub log_query-page_path :
      (f : LogFilters) (anchor : ℕ) (path query cursor : Text)
      → log_query d browser f anchor ≡ some query
      → page_path browser path query cursor
        ≡ path ++ (b'?' ∷ browser.print (log_params d f anchor ++ page_params cursor))
  unfolding log_query page_path
  log_query-page_path f anchor path query cursor h =
      ap
        (λ ps.
          path
          ++ (b'?'
              ∷ browser.print
                  (cursor_param cursor (set_param ps (text "limit") (decimal page_size)))))
        (ap browser.parse (sym (if_some _ h)) ∙ browser.parse_print (log_params d f anchor))
      ∙ ap (λ ps. path ++ (b'?' ∷ browser.print ps))
          (with_page (log_params d f anchor) cursor
            (log_params-has_key d f anchor (text "limit") apart_keys.0)
            (log_params-has_key d f anchor (text "cursor") apart_keys.1))

  -- A pick of a method or a tool leaves the facet query as it is; and there is one exactly where
  -- there is a query for the rows.
  pub facet_query_lem :
      (f : LogFilters) (anchor : ℕ) (method tool : Text) (no_tool : Bool)
      → (facet_query d browser (record f { method = method; tool = tool; no_tool = no_tool }) anchor
          ≡ facet_query d browser f anchor)
        × (is_found (facet_query d browser f anchor) ≡ is_found (log_query d browser f anchor))
  unfolding facet_query log_query sends_none
  facet_query_lem f anchor method tool no_tool = (refl, either (sends_none d f) _ _)
