-- ===== src/PolicyView.antt =====
-- The Policy dialog's rules and copy (web/src/lib/policy-view.ts).
pub mod Blocks
mod Tests
use porymcp.Base.{
  ℕ, zero, suc, ◌+◌, ◌-◌, ◌*◌, ◌/◌, ◌%◌, ◌≤◌, ◌<◌, String, ◌≡◌, refl, sym, ap, ap₂, subst, ◌∙◌, ◌≢◌,
  ◌↔◌, ◌⊎◌, inl, inr, Bool, true, false, false≢true, true≢false, not, ◌&&◌, ◌||◌, Option, none,
  some, List, [], ◌∷◌, ◌++◌, map, append-nil, append_assoc, arith, ltb, leb, eqb, if◌then◌else◌,
  eqb_iff, eqb_refl, Bool-cases, Option-cases, Bool-eq, and_parts, or_cases, or_right, not-true,
  or_false, some_inj, not-false, length, take, drop, any, all, filter, find, is_empty, All, or_else,
  length-append, take-append_length, drop-append_length, any-append, any-filter, any_ext,
  All-weaken, All-append, All-middle, All-insert, All-both, Exists, any_iff, all_iff, is_found,
  find-any, Text, text, ◌==◌, starts_with, join, truthy, or_text, eq_sound, eq_refl, eq_complete,
  eq_iff, starts_with-append, starts_with_rest, trim_end, trim_start, trim, includes, Distinct,
  SubsetOf, SameSet, includes-append, any_of_includes, all_of_includes, all_intro, any_witness,
  any-SameSet, without, includes-without, Distinct-without, length-without, length-SubsetOf,
  SameSet-of_length, digits_onto, decimal,
}
use porymcp.Json.{Json}
use porymcp.Copy.{plural}
use porymcp.VirtualKeyForm.{methods_unreadable_sentence}
use porymcp.RuleConflicts.Groups.{Tone, zinc, pink}

-- A count of a Record<string, number>, by the name it stands under.
pub record Count : Type 0 where
  pub id : Text
  pub count : ℕ

pub record GroupPolicy : Type 0 where
  pub group_id : Text
  pub group_name : Text
  pub tool_filter : Option Json
  pub malformed : Bool

pub record Egress : Type 0 where
  pub allow_loopback : Bool
  pub deny_private : Bool

pub record Blocked : Type 0 where
  pub since : Text
  pub until : Text
  pub by_rule : List Count
  pub upstream_address_denied : ℕ
  pub upstream_address_denied_by_class : List Count

pub record PolicyView : Type 0 where
  pub virtual_key_id : Text
  pub status : Text
  pub target_type : Text
  pub target_slug : Text
  pub target_kinds : List Text
  pub order : List Text
  pub key_denylist : Option (List Text)
  pub key_allowlist : Option (List Text)
  pub lists_malformed : Bool
  pub group_tool_filter : Option GroupPolicy
  pub http_methods : Option (List Text)
  pub http_methods_malformed : Bool
  pub egress : Egress
  pub blocked : Blocked

pub data PolicyBlock : Type 0 where
  mcp http outbound : PolicyBlock

abbrev pub mcp_rules : List Text
mcp_rules =
    text "key_denylist"
    ∷ text "key_allowlist"
    ∷ text "key_lists_unreadable"
    ∷ text "group_tool_filter"
    ∷ text "group_tool_filter_unreadable"
    ∷ []

abbrev pub http_rules : List Text
http_rules = text "http_methods" ∷ text "http_methods_unreadable" ∷ []

abbrev pub period_text : Text
period_text = text "in the last 7 days"

unfoldable pub blocked_line : ℕ → Text
blocked_line n =
    if eqb n 0
    then text "Blocked no calls " ++ period_text ++ text "."
    else text "Blocked " ++ plural n (text "call") ++ text " " ++ period_text ++ text "."

-- `counts[id] ?? 0`
unfoldable pub count_at : List Count → Text → ℕ
count_at [] id = 0
count_at (c ∷ cs) id = let rest = count_at cs id in if c.id == id then c.count else rest

abbrev pub rule_count : PolicyView → Text → ℕ
rule_count view id = count_at view.blocked.by_rule id

abbrev pub any_count : PolicyView → List Text → Bool
any_count view ids = any (λ id. ltb 0 (rule_count view id)) ids

abbrev block_if : Bool → PolicyBlock → List PolicyBlock
block_if b block = if b then block ∷ [] else []

unfoldable pub visible_blocks : PolicyView → List PolicyBlock
visible_blocks view =
    block_if (includes view.target_kinds (text "mcp") || any_count view mcp_rules) mcp
    ++ block_if (includes view.target_kinds (text "http") || any_count view http_rules) http
    ++ outbound ∷ []

unfoldable pub shown_for_counts_only : PolicyView → PolicyBlock → Bool
shown_for_counts_only view mcp = not (includes view.target_kinds (text "mcp"))
shown_for_counts_only view http = not (includes view.target_kinds (text "http"))
shown_for_counts_only view outbound = false

abbrev pub counts_only_note : Text
counts_only_note = text "This key has no such endpoint now; the counts are from earlier calls."

abbrev pub group_gone_sentence : Text
group_gone_sentence = text "The group this key targets no longer exists, so every call on it fails."

abbrev pub upstream_gone_sentence : Text
upstream_gone_sentence =
    text "The upstream this key targets no longer exists, so every call on it fails."

abbrev sentence_if : Bool → Text → Option Text
sentence_if b sentence = if b then some sentence else none

unfoldable pub target_gone_sentence : PolicyView → Option Text
target_gone_sentence view =
    if view.target_type == text "group"
    then sentence_if (not (is_found view.group_tool_filter)) group_gone_sentence
    else sentence_if (is_empty view.target_slug) upstream_gone_sentence

abbrev no_members_sentence : Option GroupPolicy → Option Text
no_members_sentence none = none
no_members_sentence (some g) = some (
    text "The group "
    ++ g.group_name
    ++ text " has no members, so no call on this key reaches an upstream.")

unfoldable pub empty_group_sentence : PolicyView → Option Text
empty_group_sentence view =
    if not (view.target_type == text "group") || not (is_empty view.target_kinds)
    then none
    else no_members_sentence view.group_tool_filter

pub data KeyLists : Type 0 where
  unreadable lists : KeyLists

abbrev pub key_lists_state : PolicyView → KeyLists
key_lists_state view = if view.lists_malformed then unreadable else lists

abbrev line_if_any : ℕ → Text → Option Text
line_if_any n rest =
    if eqb n 0
    then none
    else some (text "Blocked " ++ plural n (text "call") ++ text " " ++ period_text ++ rest)

unfoldable pub unreadable_line : ℕ → Option Text
unreadable_line n = line_if_any n (text " while the stored value could not be read.")

unfoldable pub earlier_line : ℕ → Option Text
earlier_line n = line_if_any n (text " under the entries stored before.")

pub data KeyList : Type 0 where
  deny allow : KeyList

unfoldable pub list_empty_sentence : KeyList → Text
list_empty_sentence deny = text "No entries. This list blocks nothing."
list_empty_sentence allow = text "No entries. Every tool passes this list."

pub record ToneSentence : Type 0 where
  pub tone : Tone
  pub sentence : Text

abbrev every_method : Option (List Text) → Option ToneSentence
every_method (some []) = some (record { tone = zinc; sentence = text "Every method is allowed." })
every_method _ = none

unfoldable pub methods_sentence : Option (List Text) → Bool → Option ToneSentence
methods_sentence methods malformed =
    if malformed
    then some (record { tone = pink; sentence = methods_unreadable_sentence })
    else every_method methods

abbrev pub always_refused_sentence : Text
always_refused_sentence =
    text "Cloud metadata, link-local, multicast and unspecified addresses are always refused."

pub record EgressSentences : Type 0 where
  pub loopback : Text
  pub private : Text

unfoldable pub egress_sentences : Egress → EgressSentences
egress_sentences egress = record {
  loopback =
      if egress.allow_loopback
      then text "Loopback addresses are allowed by UPSTREAM_ALLOW_LOOPBACK."
      else text "Loopback addresses are refused. Set UPSTREAM_ALLOW_LOOPBACK to allow them.";
  private =
      if egress.deny_private
      then text "Private addresses are refused by UPSTREAM_DENY_PRIVATE."
      else text "Private addresses are allowed. Set UPSTREAM_DENY_PRIVATE to refuse them.";
}

unfoldable pub always_refused_count : PolicyView → ℕ
unfolding count_at
always_refused_count view =
    let c = view.blocked.upstream_address_denied_by_class in
    count_at c (text "metadata")
    + count_at c (text "link-local")
    + count_at c (text "multicast")
    + count_at c (text "unspecified")

unfoldable pub status_line : Text → Option Text
status_line status =
    if status == text "revoked"
    then some
        (text "This key is revoked. Its rules no longer run, and the counts stop at revocation.")
    else if status == text "expired"
    then some (text "This key has expired. Its rules no longer run, and the counts stop at expiry.")
    else none
