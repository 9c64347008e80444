-- ===== src/UpstreamForm.antt =====
-- The Add and Edit upstream dialogs' form and the bodies made of it (web/src/lib/upstream-form.ts).
pub mod Notes
pub mod Credential
pub mod Carried
pub mod Untouched
pub mod Removal
mod Tests
use porymcp.Base.{
  ℕ, zero, suc, ◌+◌, ◌-◌, ◌*◌, ◌/◌, ◌%◌, ◌≤◌, ◌<◌, String, ◌≡◌, refl, sym, ap, ap₂, subst, ◌∙◌, ◌≢◌,
  ◌↔◌, ◌⊎◌, inl, inr, Bool, true, false, false≢true, true≢false, not, ◌&&◌, ◌||◌, Option, none,
  some, List, [], ◌∷◌, ◌++◌, map, append-nil, append_assoc, arith, ltb, leb, eqb, if◌then◌else◌,
  eqb_iff, eqb_refl, Bool-cases, Option-cases, Bool-eq, and_parts, or_cases, or_right, not-true,
  or_false, some_inj, not-false, length, take, drop, any, all, filter, find, is_empty, All, or_else,
  length-append, take-append_length, drop-append_length, any-append, any-filter, any_ext,
  All-weaken, All-append, All-middle, All-both, Exists, any_iff, all_iff, is_found, find-any, Text,
  text, ◌==◌, starts_with, join, truthy, or_text, eq_sound, eq_refl, eq_complete, eq_iff,
  starts_with-append, starts_with_rest, trim_end, trim_start, trim, includes, Distinct, SubsetOf,
  SameSet, includes-append, any_of_includes, all_of_includes, all_intro, any_witness, any-SameSet,
  without, includes-without, Distinct-without, length-without, length-SubsetOf, SameSet-of_length,
  digits_onto, decimal,
}
use porymcp.Json.{Json, Members}
use porymcp.Json.Json.{str, obj, bool}
use porymcp.Json.Members.{end, member}
use porymcp.Api.{Upstream, AuthHint}
use porymcp.GroupForm.{put_if}

pub record UpstreamForm : Type 0 where
  pub name : Text
  pub slug : Text
  pub description : Text
  pub kind : Text
  pub url : Text
  pub transport : Text
  pub test_path : Text
  pub auth_type : Text
  pub token : Text
  pub header : Text
  pub param : Text
  pub value : Text
  pub client_id : Text
  pub client_secret : Text
  pub register_client : Bool
  pub enabled : Bool
  pub clear_stored : Bool

abbrev pub connection_fields : List Text
connection_fields =
    text "kind"
    ∷ text "url"
    ∷ text "transport"
    ∷ text "test_path"
    ∷ text "auth_type"
    ∷ text "token"
    ∷ text "header"
    ∷ text "param"
    ∷ text "value"
    ∷ []

-- PARAM_PATTERN, held against the whole text.
abbrev param_unit : ℕ → Bool
param_unit c =
    (leb b'A' c && leb c b'Z')
    || (leb b'a' c && leb c b'z')
    || (leb b'0' c && leb c b'9')
    || eqb c b'.'
    || eqb c b'_'
    || eqb c b'~'
    || eqb c b'-'

unfoldable pub param_pattern : Text → Bool
param_pattern s = not (is_empty s) && all param_unit s

abbrev pub default_header : Text
default_header = text "Authorization"

pub record Label : Type 0 where
  pub value : Text
  pub label : Text

abbrev pub labelled : String → String → Label
labelled v l = record { value = text v; label = text l }

-- `LABELS[value] ?? value`
unfoldable pub label_of : List Label → Text → Text
label_of [] value = value
label_of (l ∷ ls) value = let rest = label_of ls value in if l.value == value then l.label else rest

abbrev pub kind_labels : List Label
kind_labels = labelled "mcp" "MCP server" ∷ labelled "http" "HTTP API" ∷ []

unfoldable pub kind_label : Text → Text
kind_label kind = label_of kind_labels kind

abbrev pub auth_type_labels : List Label
auth_type_labels =
    labelled "none" "None"
    ∷ labelled "bearer" "Bearer"
    ∷ labelled "header" "Header"
    ∷ labelled "api_key" "API key"
    ∷ labelled "query" "Query parameter"
    ∷ labelled "custom" "Custom"
    ∷ labelled "oauth" "OAuth"
    ∷ []

abbrev pub transport_labels : List Label
transport_labels = labelled "streamable-http" "Streamable HTTP" ∷ []

unfoldable pub auth_type_label : Text → Text
auth_type_label auth_type = label_of auth_type_labels auth_type

unfoldable pub apply_kind_change : UpstreamForm → Text → UpstreamForm
apply_kind_change f kind =
    if kind == text "http" && f.auth_type == text "oauth"
    then record f {
      kind = kind;
      auth_type = text "none";
      client_id = [];
      client_secret = [];
      register_client = false;
    }
    else record f { kind = kind }

unfoldable pub header_shaped : Text → Bool
header_shaped t = t == text "header" || t == text "api_key" || t == text "custom"

unfoldable pub query_shaped : Text → Bool
query_shaped t = t == text "query"

abbrev pub blank_upstream_form : UpstreamForm
blank_upstream_form = record {
  name = [];
  slug = [];
  description = [];
  kind = text "mcp";
  url = [];
  transport = text "streamable-http";
  test_path = [];
  auth_type = text "none";
  token = [];
  header = default_header;
  param = [];
  value = [];
  client_id = [];
  client_secret = [];
  register_client = false;
  enabled = true;
  clear_stored = false;
}

-- `u.auth_hint?.header` and `u.auth_hint?.param`
abbrev pub hint_header : Option AuthHint → Option Text
hint_header none = none
hint_header (some h) = h.header

abbrev pub hint_param : Option AuthHint → Option Text
hint_param none = none
hint_param (some h) = h.param

unfoldable pub form_from_upstream : Upstream → UpstreamForm
form_from_upstream u = record {
  name = u.name;
  slug = u.slug;
  description = or_else u.description [];
  kind = u.kind;
  url = u.url;
  transport = u.transport;
  test_path = or_else u.test_path [];
  auth_type = u.auth_type;
  token = [];
  header = or_else (hint_header u.auth_hint) [];
  param = or_else (hint_param u.auth_hint) [];
  value = [];
  client_id = [];
  client_secret = [];
  register_client = false;
  enabled = u.enabled;
  clear_stored = false;
}

-- A Record<string, string> in the order of its keys.
pub record Field : Type 0 where
  pub key : Text
  pub value : Text

abbrev pub field : Text → Text → Field
field key value = record { key = key; value = value }

abbrev pub Config : Type 0
Config = List Field

unfoldable pub oauth_fields : UpstreamForm → Config
oauth_fields f =
    if f.auth_type == text "oauth" && truthy (trim f.client_id)
    then field (text "client_id") (trim f.client_id)
      ∷ (if truthy f.client_secret then field (text "client_secret") f.client_secret ∷ [] else [])
    else []

unfoldable pub auth_config_from : UpstreamForm → Config
unfolding header_shaped query_shaped oauth_fields
auth_config_from f =
    (if f.auth_type == text "bearer" && truthy f.token
      then field (text "token") f.token ∷ []
      else [])
    ++ ((if header_shaped f.auth_type && truthy f.value
          then field (text "header") f.header ∷ field (text "value") f.value ∷ []
          else [])
        ++ ((if query_shaped f.auth_type && truthy f.value
              then field (text "param") f.param ∷ field (text "value") f.value ∷ []
              else [])
            ++ oauth_fields f))

unfoldable pub credential_typed : UpstreamForm → Bool
unfolding header_shaped query_shaped
credential_typed f =
    if f.auth_type == text "bearer"
    then truthy (trim f.token)
    else if header_shaped f.auth_type || query_shaped f.auth_type
    then truthy (trim f.value)
    else if f.auth_type == text "oauth"
    then truthy (trim f.client_id)
    else false

abbrev pub client_secret_alone_sentence : Text
client_secret_alone_sentence = text "Enter the client ID that goes with this secret."

unfoldable pub client_secret_alone : UpstreamForm → Bool
client_secret_alone f =
    f.auth_type == text "oauth" && truthy f.client_secret && is_empty (trim f.client_id)

abbrev pub config_members : Config → Members
config_members [] = end
config_members (f ∷ fs) = member f.key (str f.value) (config_members fs)

unfoldable pub upstream_create_body : UpstreamForm → Bool → Json
unfolding auth_config_from
upstream_create_body f slug_touched = obj (
    member (text "name") (str f.name) (
      member (text "slug") (str (if slug_touched then f.slug else [])) (
        member (text "description") (str f.description) (
          member (text "kind") (str f.kind) (
            member (text "url") (str f.url) (
              member (text "transport") (str f.transport) (
                member (text "auth_type") (str f.auth_type) (
                  member (text "auth_config") (obj (config_members (auth_config_from f))) (
                    member (text "enabled") (bool f.enabled) (
                      put_if (f.kind == text "http" && truthy (trim f.test_path)) (text "test_path")
                        (str (trim f.test_path)) end))))))))))

-- `config.key`, and `config.key = value` where the key is there.
unfoldable pub lookup : Text → Config → Option Text
lookup key [] = none
lookup key (f ∷ fs) = let rest = lookup key fs in if f.key == key then some f.value else rest

unfoldable pub assign : Text → Text → Config → Config
assign key value [] = []
assign key value (f ∷ fs) =
    let rest = assign key value fs in if f.key == key then field key value ∷ fs else f ∷ rest

abbrev trimmed_at : Text → Config → Option Text → Option Config
trimmed_at key c none = some c
trimmed_at key c (some name) =
    if is_empty (trim name) then none else some (assign key (trim name) c)

-- The two checks of a name: a blank one ends the body there, without the credential.
unfoldable pub trim_name : Text → Config → Option Config
unfolding lookup assign
trim_name key c = trimmed_at key c (lookup key c)

abbrev then_param : Option Config → Option Config
then_param none = none
then_param (some c) = trim_name (text "param") c

-- The auth_config of a PATCH, if it carries one.
unfoldable pub sent_config : UpstreamForm → Option Config
unfolding credential_typed auth_config_from trim_name
sent_config f =
    if credential_typed f then then_param (trim_name (text "header") (auth_config_from f)) else none

unfoldable pub auth_type_sent : Upstream → UpstreamForm → Bool
auth_type_sent before f =
    not (f.auth_type == before.auth_type) || (f.auth_type == text "none" && f.clear_stored)

abbrev config_member : Option Config → Members
config_member none = end
config_member (some c) = member (text "auth_config") (obj (config_members c)) end

abbrev pub same_flag : Bool → Bool → Bool
same_flag true b = b
same_flag false b = not b

unfoldable pub upstream_patch_body : Upstream → UpstreamForm → Members
unfolding sent_config auth_type_sent
upstream_patch_body before f =
    put_if (not (trim f.name == before.name)) (text "name") (str (trim f.name)) (
      put_if (not (f.description == or_else before.description [])) (text "description")
        (str f.description)
        (put_if (not (trim f.url == before.url)) (text "url") (str (trim f.url)) (
          put_if (not (f.transport == before.transport)) (text "transport") (str f.transport) (
            put_if
              (before.kind == text "http" && not (trim f.test_path == or_else before.test_path []))
              (text "test_path") (str (trim f.test_path))
              (put_if (auth_type_sent before f) (text "auth_type") (str f.auth_type) (
                put_if (not (same_flag f.enabled before.enabled)) (text "enabled") (bool f.enabled)
                  (config_member (sent_config f))))))))

unfoldable pub credential_required : Upstream → UpstreamForm → Bool
unfolding header_shaped query_shaped form_from_upstream
credential_required before f =
    if f.auth_type == text "oauth"
    then false
    else if not (f.auth_type == before.auth_type)
    then not (f.auth_type == text "none")
    else if header_shaped f.auth_type
    then not (trim f.header == (form_from_upstream before).header)
    else if query_shaped f.auth_type
    then not (trim f.param == (form_from_upstream before).param)
    else false

-- `before !== undefined && credentialRequired(before, f)`
abbrev pub required_over : Option Upstream → UpstreamForm → Bool
required_over none f = false
required_over (some before) f = credential_required before f

unfoldable pub header_required : Option Upstream → UpstreamForm → Bool
unfolding header_shaped credential_typed
header_required before f =
    if not (header_shaped f.auth_type) then false else credential_typed f || required_over before f

unfoldable pub param_required : Option Upstream → UpstreamForm → Bool
unfolding query_shaped credential_typed
param_required before f =
    if not (query_shaped f.auth_type) then false else credential_typed f || required_over before f

unfoldable pub transport_unsupported : Text → Bool
transport_unsupported transport = not (transport == text "streamable-http" || is_empty transport)
