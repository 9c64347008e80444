-- ===== src/RowActions.antt =====
-- The row Actions menus of the three tables (web/src/lib/row-actions.ts).

pub mod Menus
use porymcp.Base.{
  ℕ, zero, suc, ◌+◌, ◌-◌, ◌*◌, ◌/◌, ◌%◌, ◌≤◌, ◌<◌, String, ◌≡◌, refl, sym, ap, ap₂, subst, ◌∙◌, ◌≢◌,
  ◌↔◌, ◌⊎◌, inl, inr, Bool, true, false, false≢true, true≢false, not, ◌&&◌, ◌||◌, Option, none,
  some, List, [], ◌∷◌, ◌++◌, map, append-nil, append_assoc, arith, ltb, leb, eqb, if◌then◌else◌,
  eqb_iff, eqb_refl, Bool-cases, Option-cases, Bool-eq, and_parts, or_cases, or_right, not-true,
  or_false, some_inj, not-false, length, take, drop, any, all, filter, find, is_empty, All, or_else,
  length-append, take-append_length, drop-append_length, any-append, any-filter, any_ext,
  All-weaken, All-append, All-middle, All-insert, All-both, Exists, any_iff, all_iff, is_found,
  find-any, Text, text, ◌==◌, starts_with, join, truthy, or_text, eq_sound, eq_refl, eq_complete,
  eq_iff, starts_with-append, starts_with_rest, trim_end, trim_start, trim, includes, Distinct,
  SubsetOf, SameSet, includes-append, any_of_includes, all_of_includes, all_intro, any_witness,
  any-SameSet, without, includes-without, Distinct-without, length-without, length-SubsetOf,
  SameSet-of_length, digits_onto, decimal,
}
use porymcp.Api.{Upstream}
use porymcp.UpstreamAuth.{connect_label}

abbrev pub connecting_text : Text
connecting_text = text "Connecting" ++ 0x2026 ∷ []

unfoldable pub tools_label : Text → Text
tools_label kind = if kind == text "http" then text "Test" else text "Tools"

-- One item of a menu, by the ids of the menu's actions.
pub record RowActionSpec (A : Type 0) : Type 0 where
  pub action : A
  pub label : Text
  pub destructive : Bool

abbrev pub item : {A : Type 0} → A → Text → RowActionSpec A
item action label = record { action = action; label = label; destructive = false }

abbrev pub RowMenuSpec : Type 0 → Type 0
RowMenuSpec A = List (List (RowActionSpec A))

-- An item with the handler of its action.
pub record RowAction (H : Type 0) : Type 0 where
  pub label : Text
  pub on_select : H
  pub destructive : Bool

pub data VirtualKeyAction : Type 0 where
  policy_key edit_key rotate_key revoke_key delete_key : VirtualKeyAction

pub data UpstreamAction : Type 0 where
  connect_upstream upstream_tools edit_upstream delete_upstream : UpstreamAction

pub data GroupAction : Type 0 where
  edit_group delete_group : GroupAction

abbrev pub remove : {A : Type 0} → A → RowActionSpec A
remove delete_row = record { action = delete_row; label = text "Delete"; destructive = true }

unfoldable pub virtual_key_actions : RowMenuSpec VirtualKeyAction
virtual_key_actions =
    (item policy_key (text "Policy") ∷ item edit_key (text "Edit") ∷ [])
    ∷ (item rotate_key (text "Rotate") ∷ item revoke_key (text "Revoke") ∷ remove delete_key ∷ [])
    ∷ []

unfoldable pub upstream_actions : Upstream → RowMenuSpec UpstreamAction
unfolding tools_label
upstream_actions u =
    ((if u.auth_type == text "oauth"
        then item connect_upstream (connect_label u.oauth) ∷ []
        else [])
      ++ item upstream_tools (tools_label u.kind) ∷ item edit_upstream (text "Edit") ∷ [])
    ∷ (remove delete_upstream ∷ [])
    ∷ []

unfoldable pub group_actions : RowMenuSpec GroupAction
group_actions = (item edit_group (text "Edit") ∷ []) ∷ (remove delete_group ∷ []) ∷ []

abbrev pub bind_item : {A H : Type 0} → (A → H) → RowActionSpec A → RowAction H
bind_item run spec = record {
  label = spec.label;
  on_select = run spec.action;
  destructive = spec.destructive;
}

unfoldable pub bind_row_actions :
    {A H : Type 0} → RowMenuSpec A → (A → H) → List (List (RowAction H))
bind_row_actions menu run = map (λ section. map (bind_item run) section) menu

pub record ConnectState : Type 0 where
  pub disabled : Bool
  pub busy_label : Option Text

abbrev is_row : Text → Option Text → Bool
is_row row_id none = false
is_row row_id (some connecting) = connecting == row_id

unfoldable pub row_connect_state : Text → Option Text → ConnectState
row_connect_state row_id connecting = record {
  disabled = is_found connecting;
  busy_label = if is_row row_id connecting then some connecting_text else none;
}

abbrev pub actions_trigger_name : Text → Option Text → Text
actions_trigger_name name none = text "Actions for " ++ name
actions_trigger_name name (some []) = text "Actions for " ++ name
actions_trigger_name name (some (c ∷ busy)) = (c ∷ busy) ++ text " " ++ name
