-- ===== src/VirtualKeyForm/Stale.antt =====
-- When a key's rules changed under a dialog, and the badge in the table
-- (web/src/lib/virtual-key-form.ts).
use porymcp.Base.{
  ℕ, Bool, true, false, not, Option, none, some, List, [], ◌∷◌, ◌++◌, ltb, if◌then◌else◌, length,
  any, is_empty, or_else, Text, text, join, decimal,
}
use porymcp.ToolFilter.Defs.{same_entries}
use porymcp.Api.{VirtualKey}
use porymcp.RuleConflicts.Groups.{zinc, pink}
use porymcp.GroupForm.{TableBadge}
use porymcp.VirtualKeyForm.{ListField, stored_list, flag}

abbrev pub same_bool : Bool → Bool → Bool
same_bool true b = b
same_bool false b = not b

unfoldable pub key_policy_stale : VirtualKey → VirtualKey → List ListField → Bool
key_policy_stale seed fresh fields =
    if not (same_bool (flag seed.lists_malformed) (flag fresh.lists_malformed))
    then true
    else any (λ field. not (same_entries (stored_list field seed) (stored_list field fresh))) fields

abbrev pub key_rules_stale : Text
key_rules_stale =
    text
      "This key's tool rules changed since you opened it. Close this dialog and open it again to see the current rules."

abbrev count_part : ℕ → Text → List Text → List Text
count_part n word parts = if ltb 0 n then (decimal n ++ word) ∷ parts else parts

unfoldable pub key_rules_badge : VirtualKey → Option TableBadge
key_rules_badge vk =
    let allowed = length (or_else vk.tool_allowlist []) in
    let denied = length (or_else vk.tool_denylist []) in
    let parts = count_part allowed (text " allowed") (count_part denied (text " denied") []) in
    if flag vk.lists_malformed
    then some (record { label = text "Rules unreadable"; tone = pink })
    else if flag vk.http_methods_malformed
    then some (record { label = text "Methods unreadable"; tone = pink })
    else if is_empty parts
    then none
    else some (record { label = join (text ", ") parts; tone = zinc })
