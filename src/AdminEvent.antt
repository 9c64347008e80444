-- ===== src/AdminEvent.antt =====
-- The rows of the Admin events table (web/src/lib/admin-event.ts).
--
-- The details of an event are a JSON object, as the one function that goes through them reads
-- them. A table of labels is read at the names it lists, not at those that every object inherits.
pub mod Details
mod Tests
use porymcp.Base.{
  ℕ, zero, suc, ◌+◌, ◌-◌, ◌*◌, ◌/◌, ◌%◌, ◌≤◌, ◌<◌, String, ◌≡◌, refl, sym, ap, ap₂, subst, ◌∙◌, ◌≢◌,
  ◌↔◌, ◌⊎◌, inl, inr, Bool, true, false, false≢true, true≢false, not, ◌&&◌, ◌||◌, Option, none,
  some, List, [], ◌∷◌, ◌++◌, map, append-nil, append_assoc, arith, ltb, leb, eqb, if◌then◌else◌,
  eqb_iff, eqb_refl, Bool-cases, Option-cases, Bool-eq, and_parts, or_cases, or_right, not-true,
  or_false, some_inj, not-false, length, take, drop, any, all, filter, find, is_empty, All, or_else,
  length-append, take-append_length, drop-append_length, any-append, any-filter, any_ext,
  All-weaken, All-append, All-middle, All-insert, All-both, Exists, any_iff, all_iff, is_found,
  find-any, Text, text, ◌==◌, starts_with, join, truthy, or_text, eq_sound, eq_refl, eq_complete,
  eq_iff, starts_with-append, starts_with_rest, trim_end, trim_start, trim, includes, Distinct,
  SubsetOf, SameSet, includes-append, any_of_includes, all_of_includes, all_intro, any_witness,
  any-SameSet, without, includes-without, Distinct-without, length-without, length-SubsetOf,
  SameSet-of_length, digits_onto, decimal,
}
use porymcp.Json.{Json, Items, Members}
use porymcp.Json.Json.{null, bool, num, str, arr, obj}
use porymcp.Json.Items.{nil, cons}
use porymcp.Json.Members.{end, member}
use porymcp.VirtualKeyForm.{ends_with}
use porymcp.UpstreamForm.{Label, label_of, labelled}

pub record AdminEvent : Type 0 where
  pub id : Text
  pub timestamp : Text
  pub actor : Text
  pub action : Text
  pub resource_type : Text
  pub resource_id : Text
  pub resource_name : Text
  pub details : Members
  pub request_id : Text
  pub remote_addr : Text

abbrev pub verbs : List Label
verbs =
    labelled "upstream.create" "Added upstream"
    ∷ labelled "upstream.update" "Changed upstream"
    ∷ labelled "upstream.delete" "Deleted upstream"
    ∷ labelled "group.create" "Created group"
    ∷ labelled "group.update" "Changed group"
    ∷ labelled "group.delete" "Deleted group"
    ∷ labelled "virtual_key.create" "Created virtual key"
    ∷ labelled "virtual_key.update" "Changed virtual key"
    ∷ labelled "virtual_key.rotate" "Rotated virtual key"
    ∷ labelled "virtual_key.revoke" "Revoked virtual key"
    ∷ labelled "virtual_key.delete" "Deleted virtual key"
    ∷ labelled "upstream.oauth_connect" "Connected upstream"
    ∷ labelled "upstream.oauth_refresh" "Refreshed the token for upstream"
    ∷ labelled "upstream.oauth_revoke" "Disconnected upstream"
    ∷ []

abbrev pub field_labels : List Label
field_labels =
    labelled "auth_type" "auth type"
    ∷ labelled "upstream_ids" "upstreams"
    ∷ labelled "tool_filter" "tool filter"
    ∷ labelled "rate_limit" "rate limit"
    ∷ labelled "expires_at" "expiry"
    ∷ labelled "tool_allowlist" "allowlist"
    ∷ labelled "tool_denylist" "denylist"
    ∷ labelled "http_methods" "allowed methods"
    ∷ labelled "test_path" "test path"
    ∷ labelled "target_type" "target"
    ∷ labelled "target_id" "target"
    ∷ []

abbrev pub known_keys : List Text
known_keys =
    text "fields"
    ∷ text "cleared"
    ∷ text "slug"
    ∷ text "kind"
    ∷ text "auth_type"
    ∷ text "auth_changed"
    ∷ text "upstream_count"
    ∷ text "tool_filter_set"
    ∷ text "target_type"
    ∷ text "target_id"
    ∷ text "key_prefix"
    ∷ text "client"
    ∷ text "refresh_token"
    ∷ text "issuer"
    ∷ text "vendor_revocation"
    ∷ []

abbrev pub label : Text → Text
label name = label_of field_labels name

abbrev pub from_text : AdminEvent → Text
from_text e = or_text e.remote_addr e.actor

unfoldable pub event_sentence : AdminEvent → Text
event_sentence e = label_of verbs e.action ++ text " " ++ or_text e.resource_name e.resource_id

-- `d.key`, and `Object.keys(d)`
unfoldable pub entry : Members → Text → Option Json
entry end key = none
entry (member k v ms) key = let rest = entry ms key in if k == key then some v else rest

unfoldable pub keys : Members → List Text
keys end = []
keys (member k v ms) = k ∷ keys ms

-- The strings of an array, without its other items.
unfoldable pub item_strings : Items → List Text
item_strings nil = []
item_strings (cons (str s) xs) = s ∷ item_strings xs
item_strings (cons _ xs) = item_strings xs

abbrev pub strings : Option Json → List Text
unfolding item_strings
strings (some (arr xs)) = item_strings xs
strings _ = []

-- A string, where the value is one that is not empty.
abbrev pub named : Option Json → Text
named (some (str s)) = s
named _ = []

abbrev pub counted : Option Json → Option Text
counted (some (num shown)) = some shown
counted _ = none

abbrev pub is_flag : Bool → Option Json → Bool
is_flag true (some (bool b)) = b
is_flag false (some (bool b)) = not b
is_flag _ _ = false

abbrev pub said_if : Bool → Text → List Text
said_if b said = if b then said ∷ [] else []

abbrev pub named_part : Text → Text → List Text
named_part before s = said_if (truthy s) (before ++ s)

abbrev count_suffix : Option Text → Text → Text
count_suffix none shown = shown
count_suffix (some n) shown = text "upstreams (" ++ n ++ text ")"

-- How a changed field reads, beside the auth type and the count of the event.
unfoldable pub field_text : Text → Option Text → Text → Text
field_text auth_type count f =
    if f == text "upstream_ids"
    then count_suffix count (label f)
    else if f == text "auth_type" && truthy auth_type
    then text "auth type " ++ auth_type
    else label f

unfoldable pub add_labels : List Text → Text → Option Text → List Text → List Text
unfolding field_text
add_labels labels auth_type count [] = labels
add_labels labels auth_type count (f ∷ fs) =
    let shown = field_text auth_type count f in
    add_labels (if includes labels shown then labels else labels ++ shown ∷ []) auth_type count fs

abbrev members_part : Option Text → List Text
members_part none = []
members_part (some n) = (n ++ text " upstream" ++ (if n == text "1" then [] else text "s")) ∷ []

-- The parts of the cell, by what the entries that the dashboard knows hold.
unfoldable pub known_parts : Bool → (Text → Option Json) → List Text
unfolding add_labels
known_parts create at =
    add_labels [] (named (at (text "auth_type"))) (counted (at (text "upstream_count")))
      (strings (at (text "fields")))
    ++ map (λ c. label c ++ text " cleared") (strings (at (text "cleared")))
    ++ named_part (text "slug ") (named (at (text "slug")))
    ++ (if create then named_part (text "kind ") (named (at (text "kind"))) else [])
    ++ (if create then named_part (text "auth type ") (named (at (text "auth_type"))) else [])
    ++ said_if (is_flag true (at (text "auth_changed")))
        (if create then text "credential set" else text "credential")
    ++ (if create then members_part (counted (at (text "upstream_count"))) else [])
    ++ said_if (is_flag true (at (text "tool_filter_set"))) (text "tool filter set")
    ++ named_part (text "target ") (named (at (text "target_type")))
    ++ named_part (text "key prefix ") (named (at (text "key_prefix")))
    ++ named_part (text "client ") (named (at (text "client")))
    ++ said_if (is_flag false (at (text "refresh_token"))) (text "no refresh token")
    ++ named_part (text "issuer ") (named (at (text "issuer")))
    ++ said_if (named (at (text "vendor_revocation")) == text "failed")
        (text "vendor revocation failed")
    ++ said_if (named (at (text "vendor_revocation")) == text "not_offered")
        (text "vendor revocation not offered")

abbrev pub unknown_keys : Members → List Text
unfolding keys
unknown_keys d = filter (λ k. not (includes known_keys k)) (keys d)

abbrev pub changed_parts : Bool → Members → List Text
unfolding entry known_parts
changed_parts create d = known_parts create (entry d) ++ unknown_keys d

unfoldable pub changed_text : AdminEvent → Text
unfolding ends_with
changed_text e = join (text ", ") (changed_parts (ends_with e.action (text ".create")) e.details)
