-- ===== src/UpstreamTest.antt =====
-- The second line of an upstream's Status cell (web/src/lib/upstream-test.ts).
--
-- Date.parse is the browser's, a parameter. Milliseconds since a test are a whole number from
-- 1970 on, and a test that lies ahead of the browser's clock counts as none.

pub mod Ladder
mod Tests
use porymcp.Base.{
  ℕ, zero, suc, ◌+◌, ◌-◌, ◌*◌, ◌/◌, ◌%◌, ◌≤◌, ◌<◌, String, ◌≡◌, refl, sym, ap, ap₂, subst, ◌∙◌, ◌≢◌,
  ◌↔◌, ◌⊎◌, inl, inr, Bool, true, false, false≢true, true≢false, not, ◌&&◌, ◌||◌, Option, none,
  some, List, [], ◌∷◌, ◌++◌, map, append-nil, append_assoc, arith, ltb, leb, eqb, if◌then◌else◌,
  eqb_iff, eqb_refl, Bool-cases, Option-cases, Bool-eq, and_parts, or_cases, or_right, not-true,
  or_false, some_inj, not-false, length, take, drop, any, all, filter, find, is_empty, All, or_else,
  length-append, take-append_length, drop-append_length, any-append, any-filter, any_ext,
  All-weaken, All-append, All-middle, All-insert, All-both, Exists, any_iff, all_iff, is_found,
  find-any, Text, text, ◌==◌, starts_with, join, truthy, or_text, eq_sound, eq_refl, eq_complete,
  eq_iff, starts_with-append, starts_with_rest, trim_end, trim_start, trim, includes, Distinct,
  SubsetOf, SameSet, includes-append, any_of_includes, all_of_includes, all_intro, any_witness,
  any-SameSet, without, includes-without, Distinct-without, length-without, length-SubsetOf,
  SameSet-of_length, digits_onto, decimal,
}

pub data TestTone : Type 0 where
  never passed failed : TestTone

pub record TestState : Type 0 where
  pub tone : TestTone
  pub word : Text
  pub ago : Option Text
  pub at : Option Text

-- The units in milliseconds.
abbrev pub second : ℕ
second = 1000

abbrev pub minute : ℕ
minute = 60 * second

abbrev pub hour : ℕ
hour = 60 * minute

abbrev pub day : ℕ
day = 24 * hour

abbrev pub month : ℕ
month = 30 * day

abbrev pub year : ℕ
year = 365 * day

-- Math.round of a quotient: halves go up.
unfoldable pub rounded : ℕ → ℕ → ℕ
rounded ms unit = (2 * ms + unit) / (2 * unit)

pub data TimeUnit : Type 0 where
  minutes hours days months years : TimeUnit

abbrev pub length_of : TimeUnit → ℕ
length_of minutes = minute
length_of hours = hour
length_of days = day
length_of months = month
length_of years = year

abbrev letters : TimeUnit → Text
letters minutes = text "m"
letters hours = text "h"
letters days = text "d"
letters months = text "mo"
letters years = text "y"

-- What the label says: now, or a count of a unit.
pub data Ago : Type 0 where
  just_now : Ago
  ago_of : ℕ → TimeUnit → Ago

unfoldable pub rung : ℕ → Ago
unfolding rounded
rung ms =
    if ltb ms (45 * second)
    then just_now
    else if ltb ms (90 * second)
    then ago_of 1 minutes
    else if ltb (rounded ms minute) 60
    then ago_of (rounded ms minute) minutes
    else if ltb (rounded ms hour) 24
    then ago_of (rounded ms hour) hours
    else if ltb (rounded ms day) 30
    then ago_of (rounded ms day) days
    else if ltb (rounded ms month) 12
    then ago_of (rounded ms month) months
    else ago_of (rounded ms year) years

unfoldable pub ago_text : Ago → Text
ago_text just_now = text "just now"
ago_text (ago_of n unit) = decimal n ++ letters unit ++ text " ago"

abbrev pub never_tested : TestState
never_tested = record { tone = never; word = text "Not tested"; ago = none; at = none }

abbrev tone_of : Bool → TestTone
tone_of ok = if ok then passed else failed

abbrev word_of : Bool → Text
word_of ok = if ok then text "Passed" else text "Failed"

abbrev pub since_at : ℕ → Option ℕ → Option Text
unfolding rung ago_text
since_at now_ms none = none
since_at now_ms (some at) = some (ago_text (rung (now_ms - at)))

-- `parse` gives the instant of a timestamp, or nothing where Date.parse gives NaN.
module _ (parse : Text → Option ℕ) where
  -- `at` is read after the guards of `testState`.
  abbrev pub relative_time : Text → ℕ → Option Text
  relative_time iso now_ms = since_at now_ms (parse iso)

  abbrev tested : Text → Option Text → Option Bool → TestState
  tested at none ok = never_tested
  tested at (some ago) none = never_tested
  tested at (some ago) (some ok) = record {
    tone = tone_of ok;
    word = word_of ok;
    ago = some ago;
    at = some at;
  }

  unfoldable pub test_state : Option Text → Option Bool → ℕ → TestState
  test_state last_test_at last_test_ok now_ms =
      let at = or_else last_test_at [] in
      if is_empty at then never_tested else tested at (relative_time at now_ms) last_test_ok
