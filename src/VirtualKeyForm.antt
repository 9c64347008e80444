-- ===== src/VirtualKeyForm.antt =====
-- The Create and Edit virtual key dialogs' form and the bodies made of it
-- (web/src/lib/virtual-key-form.ts).
pub mod Stale
pub mod Saves
pub mod Untouched
mod Tests
use porymcp.Base.{
  ℕ, zero, suc, ◌+◌, ◌-◌, ◌*◌, ◌/◌, ◌%◌, ◌≤◌, ◌<◌, String, ◌≡◌, refl, sym, ap, ap₂, subst, ◌∙◌, ◌≢◌,
  ◌↔◌, ◌⊎◌, inl, inr, Bool, true, false, false≢true, true≢false, not, ◌&&◌, ◌||◌, Option, none,
  some, List, [], ◌∷◌, ◌++◌, map, append-nil, append_assoc, arith, ltb, leb, eqb, if◌then◌else◌,
  eqb_iff, eqb_refl, Bool-cases, Option-cases, Bool-eq, and_parts, or_cases, or_right, not-true,
  or_false, some_inj, not-false, length, take, drop, any, all, filter, find, is_empty, All, or_else,
  length-append, take-append_length, drop-append_length, any-append, any-filter, any_ext,
  All-weaken, All-append, All-middle, All-both, Exists, any_iff, all_iff, is_found, find-any, Text,
  text, ◌==◌, starts_with, join, truthy, or_text, eq_sound, eq_refl, eq_complete, eq_iff,
  starts_with-append, starts_with_rest, trim_end, trim_start, trim, includes, Distinct, SubsetOf,
  SameSet, includes-append, any_of_includes, all_of_includes, all_intro, any_witness, any-SameSet,
  without, includes-without, Distinct-without, length-without, length-SubsetOf, SameSet-of_length,
  digits_onto, decimal,
}
use porymcp.Json.{Json, Members, strings}
use porymcp.Json.Json.{null, num, str, arr, obj}
use porymcp.Json.Members.{end, member}
use porymcp.ToolEntry.{Side, allow, deny}
use porymcp.ToolFilter.Defs.{list_problem, same_entries}
use porymcp.Api.{VirtualKey, Endpoint}
use porymcp.RuleConflicts.Groups.{Tone, zinc, pink}
use porymcp.GroupForm.{put_if, TableBadge}

abbrev pub lists_unreadable_sentence : Text
lists_unreadable_sentence =
    text "This key's stored tool rules cannot be read, so every call on it is refused."

abbrev pub methods_unreadable_sentence : Text
methods_unreadable_sentence =
    text
      "This key's allowed methods cannot be read, so every request on its /api/ endpoint is refused."

pub data TargetType : Type 0 where
  upstream group : TargetType

pub record KeyForm : Type 0 where
  pub name : Text
  pub target_type : TargetType
  pub target_id : Text
  pub rate_limit : Text
  pub tool_allowlist : List Text
  pub tool_denylist : List Text
  pub lists_replace : Bool
  pub http_methods : List Text
  pub methods_replace : Bool

abbrev pub http_methods : List Text
http_methods =
    text "GET" ∷ text "HEAD" ∷ text "POST" ∷ text "PUT" ∷ text "PATCH" ∷ text "DELETE" ∷ []

-- `s.endsWith(t)`.
unfoldable pub ends_with : Text → Text → Bool
ends_with [] t = is_empty t
ends_with (u ∷ s) t = (u ∷ s) == t || ends_with s t

unfoldable pub mcp_door_shown : VirtualKey → Bool
unfolding ends_with
mcp_door_shown vk =
    if any (λ (e : Endpoint). not (e.kind == text "http")) vk.endpoints
    then true
    else is_empty vk.endpoints && not (ends_with (or_else vk.proxy_url []) (text "/api/"))

abbrev pub blank_virtual_key_form : KeyForm
blank_virtual_key_form = record {
  name = [];
  target_type = upstream;
  target_id = [];
  rate_limit = [];
  tool_allowlist = [];
  tool_denylist = [];
  lists_replace = false;
  http_methods = [];
  methods_replace = false;
}

abbrev pub limit_text : Option ℕ → Text
limit_text none = []
limit_text (some n) = decimal n

unfoldable pub form_from_virtual_key : VirtualKey → KeyForm
form_from_virtual_key vk = record {
  name = vk.name;
  target_type = if vk.target_type == text "group" then group else upstream;
  target_id = vk.target_id;
  rate_limit = limit_text vk.rate_limit;
  tool_allowlist = or_else vk.tool_allowlist [];
  tool_denylist = or_else vk.tool_denylist [];
  lists_replace = false;
  http_methods = or_else vk.http_methods [];
  methods_replace = false;
}

abbrev target_name : TargetType → Text
target_name upstream = text "upstream"
target_name group = text "group"

-- `Number(s)` of the digits that the number field gives.
unfoldable pub number_onto : ℕ → Text → ℕ
number_onto n [] = n
number_onto n (d ∷ s) = number_onto (n * 10 + (d - b'0')) s

unfoldable pub number : Text → ℕ
unfolding number_onto
number s = number_onto 0 s

unfoldable pub virtual_key_create_body : KeyForm → Json
unfolding number
virtual_key_create_body f = obj (
    member (text "name") (str f.name) (
      member (text "target_type") (str (target_name f.target_type)) (
        member (text "target_id") (str f.target_id) (
          put_if (truthy f.rate_limit) (text "rate_limit") (num (decimal (number f.rate_limit))) (
            put_if (not (is_empty f.tool_allowlist)) (text "tool_allowlist")
              (arr (strings f.tool_allowlist))
              (put_if (not (is_empty f.tool_denylist)) (text "tool_denylist")
                (arr (strings f.tool_denylist))
                (put_if (not (is_empty f.http_methods)) (text "http_methods")
                  (arr (strings f.http_methods)) end)))))))

abbrev pub flag : Option Bool → Bool
flag none = false
flag (some b) = b

unfoldable pub methods_sent : VirtualKey → KeyForm → Bool
methods_sent before f =
    if flag before.http_methods_malformed
    then f.methods_replace
    else not (same_entries (some (or_else before.http_methods [])) (some f.http_methods))

pub data ListField : Type 0 where
  tool_allowlist tool_denylist : ListField

abbrev pub stored_list : ListField → VirtualKey → Option (List Text)
stored_list tool_allowlist vk = vk.tool_allowlist
stored_list tool_denylist vk = vk.tool_denylist

abbrev pub form_list : ListField → KeyForm → List Text
form_list tool_allowlist f = f.tool_allowlist
form_list tool_denylist f = f.tool_denylist

abbrev pub push_if : Bool → ListField → List ListField → List ListField
push_if true field fields = field ∷ fields
push_if false field fields = fields

abbrev pub differs : ListField → VirtualKey → KeyForm → Bool
differs field before f = not (same_entries (stored_list field before) (some (form_list field f)))

unfoldable pub lists_sent : VirtualKey → KeyForm → List ListField
lists_sent before f =
    if flag before.lists_malformed
    then if f.lists_replace then tool_allowlist ∷ tool_denylist ∷ [] else []
    else push_if (differs tool_allowlist before f) tool_allowlist
        (push_if (differs tool_denylist before f) tool_denylist [])

abbrev limit_value : Option ℕ → Json
limit_value none = null
limit_value (some n) = num (decimal n)

abbrev pub same_limit : Option ℕ → Option ℕ → Bool
same_limit none none = true
same_limit (some a) (some b) = eqb a b
same_limit _ _ = false

abbrev pub form_limit : Text → Option ℕ
form_limit [] = none
form_limit (d ∷ s) = some (number (d ∷ s))

abbrev field_name : ListField → Text
field_name tool_allowlist = text "tool_allowlist"
field_name tool_denylist = text "tool_denylist"

unfoldable pub put_lists : List ListField → KeyForm → Members → Members
put_lists [] f ms = ms
put_lists (field ∷ fields) f ms =
    member (field_name field) (arr (strings (form_list field f))) (put_lists fields f ms)

unfoldable pub virtual_key_patch_body : VirtualKey → KeyForm → Members
unfolding lists_sent methods_sent put_lists number
virtual_key_patch_body before f =
    let name = trim f.name in
    let limit = form_limit f.rate_limit in
    put_if (not (name == before.name)) (text "name") (str name) (
      put_if (not (same_limit limit before.rate_limit)) (text "rate_limit") (limit_value limit) (
        put_lists (lists_sent before f) f (
          put_if (methods_sent before f) (text "http_methods") (arr (strings f.http_methods)) end)))

abbrev pub same_field : ListField → ListField → Bool
same_field tool_allowlist tool_allowlist = true
same_field tool_denylist tool_denylist = true
same_field _ _ = false

abbrev pub side_of : ListField → Side
side_of tool_allowlist = allow
side_of tool_denylist = deny

abbrev pub sent_lists : Option VirtualKey → KeyForm → List ListField
sent_lists none f = tool_denylist ∷ tool_allowlist ∷ []
sent_lists (some before) f = lists_sent before f

-- One round of `keySaveBlocked`'s loop.
unfoldable pub field_problem : ListField → Option VirtualKey → KeyForm → Bool → Text
field_problem field before f group_target =
    if not (any (same_field field) (sent_lists before f))
    then []
    else list_problem (form_list field f) (side_of field) group_target

unfoldable pub key_save_blocked : Option VirtualKey → KeyForm → Bool → Text
unfolding field_problem
key_save_blocked before f group_target =
    or_text (field_problem tool_denylist before f group_target)
      (field_problem tool_allowlist before f group_target)
