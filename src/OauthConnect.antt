-- ===== src/OauthConnect.antt =====
-- Connecting and disconnecting an oauth upstream (web/src/lib/oauth-connect.ts); the sentence of a
-- failed connect is in Api/Errors.antt.
--
-- The session storage and JSON.parse are the browser's.

pub mod Choices
mod Tests
use porymcp.Base.{
  ℕ, zero, suc, ◌+◌, ◌-◌, ◌*◌, ◌/◌, ◌%◌, ◌≤◌, ◌<◌, String, ◌≡◌, refl, sym, ap, ap₂, subst, ◌∙◌, ◌≢◌,
  ◌↔◌, ◌⊎◌, inl, inr, Bool, true, false, false≢true, true≢false, not, ◌&&◌, ◌||◌, Option, none,
  some, List, [], ◌∷◌, ◌++◌, map, append-nil, append_assoc, arith, ltb, leb, eqb, if◌then◌else◌,
  eqb_iff, eqb_refl, Bool-cases, Option-cases, Bool-eq, and_parts, or_cases, or_right, not-true,
  or_false, some_inj, not-false, length, take, drop, any, all, filter, find, is_empty, All, or_else,
  length-append, take-append_length, drop-append_length, any-append, any-filter, any_ext,
  All-weaken, All-append, All-middle, All-insert, All-both, Exists, any_iff, all_iff, is_found,
  find-any, Text, text, ◌==◌, starts_with, join, truthy, or_text, eq_sound, eq_refl, eq_complete,
  eq_iff, starts_with-append, starts_with_rest, trim_end, trim_start, trim, includes, Distinct,
  SubsetOf, SameSet, includes-append, any_of_includes, all_of_includes, all_intro, any_witness,
  any-SameSet, without, includes-without, Distinct-without, length-without, length-SubsetOf,
  SameSet-of_length, digits_onto, decimal,
}
use porymcp.Json.{Json, Members, stringify}
use porymcp.Json.Json.{bool, obj}
use porymcp.Json.Members.{end, member}
use porymcp.Api.{Upstream}
use porymcp.UpstreamAuth.{expiry_text}

pub data RevokeKind : Type 0 where
  connected client unreadable : RevokeKind

unfoldable pub revoke_kind : Upstream → Option RevokeKind
revoke_kind u =
    if not (u.auth_type == text "oauth") || not u.auth_configured
    then none
    else if u.auth_status == text "undecryptable"
    then some unreadable
    else if truthy (expiry_text u.oauth)
    then some connected
    else some client

pub record RevokeCopy : Type 0 where
  pub button : Text
  pub caption : Text
  pub title : Text
  pub description : Text → Bool → Text
  pub confirm : Text

abbrev removed_too : Bool → Text
removed_too supplied =
    if supplied then text " The client ID and secret you entered are removed too." else []

abbrev pub revoke_copy : RevokeKind → RevokeCopy
revoke_copy connected = record {
  button = text "Disconnect";
  caption =
      text
        "Asks the vendor to revoke the token, then removes it from PoryMCP. Calls through this upstream fail until it is connected again.";
  title = text "Disconnect this upstream?";
  description = λ name supplied.
      name
      ++ text
          " stops sending a token. PoryMCP asks the vendor to revoke it, then removes it. Calls through this upstream fail until it is connected again."
      ++ removed_too supplied;
  confirm = text "Disconnect";
}
revoke_copy client = record {
  button = text "Remove client ID";
  caption = text "Removes the client ID and secret stored for this upstream.";
  title = text "Remove the stored client ID?";
  description = λ name supplied.
      name
      ++ text " forgets the client ID and secret you entered. Connect then uses the vendor"
      ++ 0x2019 ∷ text "s own registration.";
  confirm = text "Remove";
}
revoke_copy unreadable = record {
  button = text "Remove the stored value";
  caption =
      text
        "Removes the value PoryMCP cannot read under the current key. The vendor is not asked to revoke anything.";
  title = text "Remove the stored value?";
  description = λ name supplied.
      name
      ++ text
          " forgets the stored value, which PoryMCP cannot read under the current key. The vendor is not asked to revoke it, so any token in it stays valid there until it expires. Connect afterwards to sign in again.";
  confirm = text "Remove";
}

abbrev vendor_line : Text → Text
vendor_line said =
    if said == text "revoked"
    then text "Disconnected. The vendor revoked the token."
    else if said == text "failed"
    then text
        "Disconnected. The vendor did not confirm the revocation. Remove PoryMCP's access in the vendor's account settings."
    else if said == text "not_offered"
    then text
        "Disconnected. This vendor offers no way to revoke the token, so it stays valid there until it expires."
    else text "Disconnected."

unfoldable pub revoke_result_line : Text → RevokeKind → Text
revoke_result_line vendor_revocation unreadable =
    text "Removed the stored value. Connect to sign in again."
revoke_result_line vendor_revocation client = text "Removed the stored client ID."
revoke_result_line vendor_revocation connected =
    if vendor_revocation == text "no_token"
    then text "Removed the stored client ID."
    else vendor_line vendor_revocation

-- The tab's session storage, as far as the one key of the choices goes; a storage may refuse a
-- read or a write.
pub record Storage : Type 0 where
  pub stored : Option Text
  pub refuses_read : Bool
  pub refuses_write : Bool

-- A choice of one upstream.
pub record Choice : Type 0 where
  pub id : Text
  pub ticked : Bool

abbrev is_true : Json → Bool
is_true (bool b) = b
is_true _ = false

unfoldable pub read_choices : Members → List Choice
read_choices end = []
read_choices (member id v ms) =
    let rest = read_choices ms in
    if is_true v then record { id = id; ticked = true } ∷ rest else rest

abbrev pub parsed_choices : Option Json → List Choice
unfolding read_choices
parsed_choices (some (obj ms)) = read_choices ms
parsed_choices _ = []

unfoldable pub kept_choices : List Choice → Members
kept_choices [] = end
kept_choices (c ∷ cs) =
    let rest = kept_choices cs in if c.ticked then member c.id (bool true) rest else rest

abbrev pub save_register_choices : Option Storage → List Choice → Option Storage
unfolding kept_choices
save_register_choices none choices = none
save_register_choices (some s) choices =
    if s.refuses_write
    then some s
    else some (record s { stored = some (stringify (obj (kept_choices choices))) })

module _ (parse : Text → Option Json) where
  abbrev raw_choices : Option Text → List Choice
  raw_choices none = []
  raw_choices (some []) = []
  raw_choices (some (c ∷ raw)) = parsed_choices (parse (c ∷ raw))

  abbrev pub load_register_choices : Option Storage → List Choice
  load_register_choices none = []
  load_register_choices (some s) = if s.refuses_read then [] else raw_choices s.stored

-- What `new URL` gives, where it does not throw.
pub record Url : Type 0 where
  pub protocol : Text
  pub host : Text
  pub hostname : Text

abbrev pub is_web : Option Url → Bool
is_web none = false
is_web (some u) = u.protocol == text "https:" || u.protocol == text "http:"

unfoldable pub authorization_url_is_web : (Text → Option Url) → Text → Bool
authorization_url_is_web new_url url = is_web (new_url url)
