-- ===== src/Api.antt =====
-- The shapes that the management API answers with, and failed requests (web/src/lib/api.ts).
pub mod Errors
use porymcp.Base.{
  ℕ, zero, suc, ◌+◌, ◌-◌, ◌*◌, ◌/◌, ◌%◌, ◌≤◌, ◌<◌, String, ◌≡◌, refl, sym, ap, ap₂, subst, ◌∙◌, ◌≢◌,
  ◌↔◌, ◌⊎◌, inl, inr, Bool, true, false, false≢true, true≢false, not, ◌&&◌, ◌||◌, Option, none,
  some, List, [], ◌∷◌, ◌++◌, map, append-nil, append_assoc, arith, ltb, leb, eqb, if◌then◌else◌,
  eqb_iff, eqb_refl, Bool-cases, Option-cases, Bool-eq, and_parts, or_cases, or_right, not-true,
  or_false, some_inj, length, take, drop, any, all, filter, find, is_empty, All, or_else,
  length-append, take-append_length, drop-append_length, any-append, any-filter, any_ext, Text,
  text, ◌==◌, starts_with, join, truthy, or_text, eq_sound, eq_refl, eq_complete, eq_iff,
  starts_with-append, starts_with_rest, includes, Distinct, SubsetOf, SameSet, includes-append,
  any_of_includes, all_of_includes, all_intro, any_witness, any-SameSet, without, includes-without,
  Distinct-without, length-without, length-SubsetOf, SameSet-of_length, decimal,
}
use porymcp.Json.{Json}
use porymcp.ToolEntry.{DiscoveredTool}

-- What a `catch` is given: an ApiError, or anything else.
pub record ApiError : Type 0 where
  pub status : ℕ
  pub message : Text
  pub retry_after_seconds : Option ℕ

pub data Failure : Type 0 where
  api_error : ApiError → Failure
  unreachable : Failure

pub record UpstreamOAuth : Type 0 where
  pub expires_at : Option Text
  pub has_refresh_token : Bool
  pub client_source : Option Text

pub record AuthHint : Type 0 where
  pub header : Option Text
  pub param : Option Text

pub record Upstream : Type 0 where
  pub id : Text
  pub name : Text
  pub slug : Text
  pub description : Option Text
  pub kind : Text
  pub url : Text
  pub transport : Text
  pub test_path : Option Text
  pub auth_type : Text
  pub enabled : Bool
  pub auth_configured : Bool
  pub auth_status : Text
  pub auth_hint : Option AuthHint
  pub oauth : Option UpstreamOAuth
  pub last_test_at : Option Text
  pub last_test_ok : Option Bool
  pub created_at : Text
  pub updated_at : Text

pub record Discovery : Type 0 where
  pub ok : Bool
  pub kind : Text
  pub http_status : Option ℕ
  pub latency_ms : ℕ
  pub protocol_version : Option Text
  pub era : Option Text
  pub supported_versions : Option (List Text)
  pub capabilities : Option (List Text)
  pub slug : Option Text
  pub tool_count : ℕ
  pub tools : Option (List DiscoveredTool)
  pub truncated : Bool
  pub unnameable_tools : Option ℕ
  pub error : Option Text
  pub upstream_message : Option Text

pub record Group : Type 0 where
  pub id : Text
  pub name : Text
  pub description : Option Text
  pub upstream_ids : List Text
  pub tool_filter : Option Json
  pub created_at : Text
  pub updated_at : Text

pub record Endpoint : Type 0 where
  pub upstream_id : Text
  pub slug : Text
  pub name : Text
  pub kind : Text
  pub url : Text

pub record VirtualKey : Type 0 where
  pub id : Text
  pub name : Text
  pub key_prefix : Text
  pub target_type : Text
  pub target_id : Text
  pub rate_limit : Option ℕ
  pub expires_at : Option Text
  pub status : Text
  pub last_used_at : Option Text
  pub created_at : Text
  pub api_key : Option Text
  pub proxy_url : Option Text
  pub tool_allowlist : Option (List Text)
  pub tool_denylist : Option (List Text)
  pub lists_malformed : Option Bool
  pub http_methods : Option (List Text)
  pub http_methods_malformed : Option Bool
  pub endpoints : List Endpoint
