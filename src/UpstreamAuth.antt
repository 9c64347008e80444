-- ===== src/UpstreamAuth.antt =====
-- The Auth cell of an upstream's row (web/src/lib/upstream-auth.ts).
pub mod Badge
mod Tests
use porymcp.Base.{
  ℕ, zero, suc, ◌+◌, ◌-◌, ◌*◌, ◌/◌, ◌%◌, ◌≤◌, ◌<◌, String, ◌≡◌, refl, sym, ap, ap₂, subst, ◌∙◌, ◌≢◌,
  ◌↔◌, ◌⊎◌, inl, inr, Bool, true, false, false≢true, true≢false, not, ◌&&◌, ◌||◌, Option, none,
  some, List, [], ◌∷◌, ◌++◌, map, append-nil, append_assoc, arith, ltb, leb, eqb, if◌then◌else◌,
  eqb_iff, eqb_refl, Bool-cases, Option-cases, Bool-eq, and_parts, or_cases, or_right, not-true,
  or_false, some_inj, not-false, length, take, drop, any, all, filter, find, is_empty, All, or_else,
  length-append, take-append_length, drop-append_length, any-append, any-filter, any_ext,
  All-weaken, All-append, All-middle, All-both, Exists, any_iff, all_iff, is_found, find-any, Text,
  text, ◌==◌, starts_with, join, truthy, or_text, eq_sound, eq_refl, eq_complete, eq_iff,
  starts_with-append, starts_with_rest, trim_end, trim_start, trim, includes, Distinct, SubsetOf,
  SameSet, includes-append, any_of_includes, all_of_includes, all_intro, any_witness, any-SameSet,
  without, includes-without, Distinct-without, length-without, length-SubsetOf, SameSet-of_length,
  digits_onto, decimal,
}
use porymcp.Api.{UpstreamOAuth}

pub data AuthTone : Type 0 where
  ok none_needed broken held idle : AuthTone

pub record AuthState : Type 0 where
  pub tone : AuthTone
  pub label : Text
  pub expires_at : Option Text

-- The fields of an upstream that the cell reads.
pub record AuthFields : Type 0 where
  pub auth_type : Option Text
  pub auth_status : Text
  pub oauth : Option UpstreamOAuth

unfoldable pub is_oauth : AuthFields → Bool
is_oauth u = or_else u.auth_type [] == text "oauth"

abbrev pub with_tone : AuthTone → Text → AuthState
with_tone tone label = record { tone = tone; label = label; expires_at = none }

abbrev pub expiry_text : Option UpstreamOAuth → Text
expiry_text none = []
expiry_text (some o) = or_else o.expires_at []

abbrev pub refreshes : Option UpstreamOAuth → Bool
refreshes none = false
refreshes (some o) = o.has_refresh_token

-- A credential that is fine, with the end of an oauth token set that cannot be renewed.
abbrev pub fine_state : Bool → Option UpstreamOAuth → AuthState
fine_state signs_in o =
    if signs_in && not (refreshes o) && truthy (expiry_text o)
    then record { tone = ok; label = text "set until"; expires_at = some (expiry_text o) }
    else with_tone ok []

unfoldable pub auth_state : AuthFields → AuthState
unfolding is_oauth
auth_state u =
    if u.auth_status == text "undecryptable"
    then with_tone broken (text "Unreadable")
    else if u.auth_status == text "unreadable"
    then (if is_oauth u
        then with_tone idle (text "Not connected")
        else with_tone broken (text "Incomplete"))
    else if u.auth_status == text "expired"
    then with_tone held (text "Expired")
    else if u.auth_status == text "none"
    then with_tone none_needed []
    else fine_state (is_oauth u) u.oauth

pub data BadgeColour : Type 0 where
  pink amber : BadgeColour

abbrev pub tone_badge : AuthTone → Option BadgeColour
tone_badge broken = some pink
tone_badge held = some amber
tone_badge idle = some amber
tone_badge _ = none

unfoldable pub auth_badge : AuthState → Option BadgeColour
auth_badge a = tone_badge a.tone

unfoldable pub connect_label : Option UpstreamOAuth → Text
connect_label o = if truthy (expiry_text o) then text "Reconnect" else text "Connect"

unfoldable pub oauth_connected : AuthFields → Bool
unfolding is_oauth
oauth_connected u = is_oauth u && truthy (expiry_text u.oauth)
