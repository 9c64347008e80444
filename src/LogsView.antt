-- ===== src/LogsView.antt =====
-- The Logs page's filters, their query and the page's path (web/src/lib/logs-view.ts).
pub mod Options
pub mod Choice
pub mod Query
pub mod Window
mod Tests
use porymcp.Base.{
  ℕ, zero, suc, ◌+◌, ◌-◌, ◌*◌, ◌/◌, ◌%◌, ◌≤◌, ◌<◌, String, ◌≡◌, refl, sym, ap, ap₂, subst, ◌∙◌, ◌≢◌,
  ◌↔◌, ◌⊎◌, inl, inr, Bool, true, false, false≢true, true≢false, not, ◌&&◌, ◌||◌, Option, none,
  some, List, [], ◌∷◌, ◌++◌, map, append-nil, append_assoc, arith, ltb, leb, eqb, if◌then◌else◌,
  eqb_iff, eqb_refl, Bool-cases, Option-cases, Bool-eq, and_parts, or_cases, or_right, not-true,
  or_false, some_inj, not-false, length, take, drop, any, all, filter, find, is_empty, All, or_else,
  length-append, take-append_length, drop-append_length, any-append, any-filter, any_ext,
  All-weaken, All-append, All-middle, All-both, Exists, any_iff, all_iff, is_found, find-any, Text,
  text, ◌==◌, starts_with, join, truthy, or_text, eq_sound, eq_refl, eq_complete, eq_iff,
  starts_with-append, starts_with_rest, trim_end, trim_start, trim, includes, Distinct, SubsetOf,
  SameSet, includes-append, any_of_includes, all_of_includes, all_intro, any_witness, any-SameSet,
  without, includes-without, Distinct-without, length-without, length-SubsetOf, SameSet-of_length,
  digits_onto, decimal,
}
use porymcp.Copy.{plural}
use porymcp.CursorPages.{PageEnd, more, last, refused}

abbrev pub page_size : ℕ
page_size = 50

pub data Period : Type 0 where
  day week month custom : Period

-- PERIODS: the hours of a period, and its label.
abbrev pub preset_hours : Period → ℕ
preset_hours day = 24
preset_hours week = 168
preset_hours month = 720
preset_hours custom = 0

abbrev pub period_label : Period → Text
period_label day = text "Last 24 hours"
period_label week = text "Last 7 days"
period_label month = text "Last 30 days"
period_label custom = text "Custom"

abbrev pub is_custom : Period → Bool
is_custom custom = true
is_custom _ = false

pub record LogFilters : Type 0 where
  pub virtual_key_id : Text
  pub method : Text
  pub tool : Text
  pub no_tool : Bool
  pub status : Text
  pub period : Period
  pub since : Text
  pub until : Text
  pub since_bad : Bool
  pub until_bad : Bool

abbrev pub default_filters : LogFilters
default_filters = record {
  virtual_key_id = [];
  method = [];
  tool = [];
  no_tool = false;
  status = [];
  period = week;
  since = [];
  until = [];
  since_bad = false;
  until_bad = false;
}

-- The browser's clock and time zone. An instant is the milliseconds since 1970. `local` is what a
-- Date makes of a text without an offset, and `parse_iso` what it makes of one with it.
pub record Dates : Type 0 where
  pub local : Text → Option ℕ
  pub parse_iso : Text → ℕ
  pub iso : ℕ → Text
  pub end_of_minute : ℕ → ℕ
  pub local_text : ℕ → Text

pub record Param : Type 0 where
  pub key : Text
  pub value : Text

abbrev pub param : Text → Text → Param
param key value = record { key = key; value = value }

-- `q.set(key, value)`: the first value of the key is replaced and its others go; a new key goes
-- to the end.
abbrev pub without_key : Text → List Param → List Param
without_key key ps = filter (λ p. not (p.key == key)) ps

unfoldable pub set_param : List Param → Text → Text → List Param
set_param [] key value = param key value ∷ []
set_param (p ∷ ps) key value =
    let rest = set_param ps key value in
    if p.key == key then param key value ∷ without_key key ps else p ∷ rest

-- The browser's URLSearchParams: reading what it printed gives the parameters back.
pub record SearchParams : Type 0 where
  pub print : List Param → Text
  pub parse : Text → List Param
  pub parse_print : (ps : List Param) → parse (print ps) ≡ ps

abbrev is_shape_digit : ℕ → Bool
is_shape_digit c = leb b'0' c && leb c b'9'

-- A text of the given shape: a 0 stands for a digit, and anything else for itself.
shaped_rest : Text → Text → Option Text
shaped_rest [] s = some s
shaped_rest (k ∷ shape) [] = none
shaped_rest (k ∷ shape) (c ∷ s) =
    let rest = shaped_rest shape s in
    if eqb k b'0' then if is_shape_digit c then rest else none else if eqb k c then rest else none

abbrev fraction_fits : Text → Bool
fraction_fits [] = true
fraction_fits (c ∷ s) = eqb c b'.' && not (is_empty s) && all is_shape_digit s

abbrev after_seconds : Option Text → Bool
after_seconds none = false
after_seconds (some s) = fraction_fits s

abbrev after_minutes : Option Text → Option Text → Bool
after_minutes none seconds = false
after_minutes (some []) seconds = true
after_minutes (some (c ∷ s)) seconds = after_seconds seconds

-- LOCAL_INPUT
unfoldable pub local_input : Text → Bool
unfolding shaped_rest
local_input v =
    after_minutes (shaped_rest (text "0000-00-00T00:00") v)
      (shaped_rest (text "0000-00-00T00:00:00") v)

abbrev pub since_missing : Text
since_missing = text "Enter a start time."

abbrev pub input_incomplete : Text
input_incomplete = text "Enter a full date and time."

abbrev pub until_before_since : Text
until_before_since = text "Until is earlier than Since."

abbrev pub hour_ms : ℕ
hour_ms = 3600000

pub record Bounds : Type 0 where
  pub since : Option Text
  pub until : Option Text

abbrev option_map : {A B : Type 0} → (A → B) → Option A → Option B
option_map f none = none
option_map f (some a) = some (f a)

-- `.replace(/\.999Z$/, '.999999999Z')`
unfoldable pub to_nanoseconds : Text → Text
to_nanoseconds [] = []
to_nanoseconds (c ∷ s) =
    let rest = to_nanoseconds s in if (c ∷ s) == text ".999Z" then text ".999999999Z" else c ∷ rest

-- `if (v) q.set(key, v)`
abbrev pub set_if : Text → Text → List Param → List Param
set_if key [] ps = ps
set_if key (c ∷ v) ps = set_param ps key (c ∷ v)

abbrev pub set_tool : LogFilters → List Param → List Param
set_tool f ps =
    if f.no_tool
    then set_param ps (text "has_tool") (text "false")
    else set_if (text "tool") f.tool ps

module _ (d : Dates) where
  unfoldable pub parse_local : Text → Option ℕ
  parse_local v = if not (local_input v) then none else d.local v

  unfoldable pub from_local_input : Text → Option Text
  unfolding parse_local
  from_local_input v = option_map d.iso (parse_local v)

  unfoldable pub until_from_local_input : Text → Option Text
  unfolding parse_local
  until_from_local_input v =
      option_map (λ t. to_nanoseconds (d.iso (d.end_of_minute t))) (parse_local v)

  abbrev preset_start : LogFilters → ℕ → ℕ
  preset_start f anchor = anchor - preset_hours f.period * hour_ms

  unfoldable pub log_window : LogFilters → ℕ → Bounds
  unfolding from_local_input until_from_local_input
  log_window f anchor =
      if is_custom f.period
      then record { since = from_local_input f.since; until = until_from_local_input f.until }
      else record { since = some (d.iso (preset_start f anchor)); until = none }

  unfoldable pub custom_prefill : LogFilters → ℕ → Text
  custom_prefill f anchor =
      if is_custom f.period then f.since else d.local_text (preset_start f anchor)

  abbrev earlier : Option Text → Option Text → Bool
  earlier (some since) (some until) =
      truthy since && truthy until && ltb (d.parse_iso until) (d.parse_iso since)
  earlier _ _ = false

  unfoldable pub since_problem : LogFilters → Option Text
  unfolding from_local_input
  since_problem f =
      if f.since_bad
      then some input_incomplete
      else if is_empty (or_else (from_local_input f.since) [])
      then some since_missing
      else none

  unfoldable pub until_problem : LogFilters → Option Text
  unfolding from_local_input until_from_local_input
  until_problem f =
      if f.until_bad
      then some input_incomplete
      else if earlier (from_local_input f.since) (until_from_local_input f.until)
      then some until_before_since
      else none

  unfoldable pub custom_problems : LogFilters → Bounds
  unfolding since_problem until_problem
  custom_problems f =
      if not (is_custom f.period)
      then record { since = none; until = none }
      else record { since = since_problem f; until = until_problem f }

  -- The parameters of `logQuery`, where it has any.
  unfoldable pub log_params : LogFilters → ℕ → List Param
  unfolding set_param log_window
  log_params f anchor =
      let window = log_window f anchor in
      set_if (text "until") (or_else window.until []) (
        set_if (text "since") (or_else window.since []) (
          set_if (text "status") f.status (
            set_tool f (
              set_if (text "method") f.method
                (set_if (text "virtual_key_id") f.virtual_key_id [])))))

  unfoldable pub sends_none : LogFilters → Bool
  unfolding custom_problems
  sends_none f = is_custom f.period && (is_found (custom_problems f).since || f.until_bad)

  module _ (browser : SearchParams) where
    unfoldable pub log_query : LogFilters → ℕ → Option Text
    unfolding sends_none log_params
    log_query f anchor = if sends_none f then none else some (browser.print (log_params f anchor))

    unfoldable pub facet_query : LogFilters → ℕ → Option Text
    unfolding log_query
    facet_query f anchor = log_query (record f { method = []; tool = []; no_tool = false }) anchor

abbrev pub cursor_param : Text → List Param → List Param
cursor_param [] ps = ps
cursor_param (c ∷ cursor) ps = set_param ps (text "cursor") (c ∷ cursor)

-- What follows the path and its question mark on a page's request.
module _ (browser : SearchParams) where
  unfoldable pub page_path : Text → Text → Text → Text
  unfolding set_param
  page_path path query cursor =
      path
      ++ (b'?'
          ∷ browser.print (
              cursor_param cursor
                (set_param (browser.parse query) (text "limit") (decimal page_size))))

pub data Noun : Type 0 where
  call change : Noun

abbrev noun_text : Noun → Text
noun_text call = text "call"
noun_text change = text "change"

-- `null` is no end to speak of.
unfoldable pub count_line : ℕ → Noun → Option PageEnd → Text
count_line n noun none = []
count_line n noun (some more) = plural n (noun_text noun) ++ text " shown."
count_line n noun (some refused) = plural n (noun_text noun) ++ text " shown."
count_line n call (some last) =
    plural n (text "call") ++ text " shown. No older calls in this period."
count_line n change (some last) = plural n (text "change") ++ text " shown. No older changes."

pub record UpstreamName : Type 0 where
  pub id : Text
  pub name : Text
  pub slug : Text

pub data UpstreamCell : Type 0 where
  no_upstream loading : UpstreamCell
  named : Text → Text → UpstreamCell
  bare_id : Text → UpstreamCell

abbrev cell_of : Text → Option UpstreamName → UpstreamCell
cell_of id none = bare_id id
cell_of id (some n) = named n.name n.slug

abbrev cell_among : Text → Option (List UpstreamName) → UpstreamCell
cell_among id none = loading
cell_among id (some names) = cell_of id (find (λ n. n.id == id) names)

unfoldable pub upstream_cell : Option Text → Option (List UpstreamName) → Bool → UpstreamCell
upstream_cell id names failed =
    if is_empty (or_else id [])
    then no_upstream
    else if failed
    then bare_id (or_else id [])
    else cell_among (or_else id []) names
