-- ===== src/VirtualKeyForm/Saves.antt =====
-- What a save of a key's form sends, and when it is held back (listsSent, keySaveBlocked and
-- keyPolicyStale of web/src/lib/virtual-key-form.ts).
use porymcp.Base.{
  ◌≡◌, refl, sym, ap, ◌∙◌, ◌↔◌, inl, inr, Bool, true, false, false≢true, true≢false, not, Option,
  some, List, [], ◌∷◌, arith, if◌then◌else◌, Bool-cases, or_false, not-false, any, All, or_else,
  Text, or_text, SameSet,
}
use porymcp.ToolEntry.{tool}
use porymcp.ToolFilter.Problem.{AllAcceptable, list_problem_iff}
use porymcp.ToolFilter.{same_set_iff}
use porymcp.ToolFilter.Defs.{same_entries}
use porymcp.Api.{VirtualKey}
use porymcp.VirtualKeyForm.{
  KeyForm, ListField, tool_allowlist, tool_denylist, same_field, lists_sent, sent_lists,
  field_problem, key_save_blocked, stored_list, form_list, side_of, flag, differs, push_if,
}
use porymcp.VirtualKeyForm.Stale.{key_policy_stale, same_bool}

-- Two stored lists say the same: the same entries, an absent list for an empty one.
abbrev pub SameList : Option (List Text) → Option (List Text) → Type 0
SameList a b = SameSet (or_else a []) (or_else b [])

same_entries_iff : (a b : Option (List Text)) → (same_entries a b ≡ true) ↔ SameList a b
unfolding same_entries
same_entries_iff a b = same_set_iff (or_else a []) (or_else b [])

-- The save sends this list.
abbrev pub Sends : ListField → Option VirtualKey → KeyForm → Type 0
Sends field before f = any (same_field field) (sent_lists before f) ≡ true

abbrev pub FieldAccepted : ListField → Option VirtualKey → KeyForm → Bool → Type 0
FieldAccepted field before f group_target =
    Sends field before f → AllAcceptable (form_list field f) tool (side_of field) group_target

field_problem_iff :
    (field : ListField) (before : Option VirtualKey) (f : KeyForm) (group_target : Bool)
    → (field_problem field before f group_target ≡ []) ↔ FieldAccepted field before f group_target
unfolding field_problem
field_problem_iff field before f group_target =
    elim (Bool-cases (any (same_field field) (sent_lists before f))) [
      | inr kept ↦ (λ _ sent. absurd (true≢false (sym sent ∙ kept)), λ _. rw kept refl)
      | inl sent ↦ (
        λ h _. (list_problem_iff (form_list field f) (side_of field) group_target).0 (rw sent at h),
        λ k.
            rw sent
              ((list_problem_iff (form_list field f) (side_of field) group_target).1 (k sent)),
      )
    ]

or_text_iff : (a b : Text) → (or_text a b ≡ []) ↔ ((a ≡ []) × (b ≡ []))
or_text_iff [] b = (λ h. (refl, h), λ k. k.1)
or_text_iff (c ∷ a) b = (λ h. absurd (ground arith), λ k. k.0)

-- A save is let through exactly when every list it sends holds only entries that the API accepts
-- on that list's side; a list it does not send never holds it back.
pub key_save_blocked_iff :
    (before : Option VirtualKey) (f : KeyForm) (group_target : Bool)
    → (key_save_blocked before f group_target ≡ []) ↔ (
        FieldAccepted tool_denylist before f group_target
        × FieldAccepted tool_allowlist before f group_target)
unfolding key_save_blocked
key_save_blocked_iff before f group_target =
    let parts =
      or_text_iff (field_problem tool_denylist before f group_target)
        (field_problem tool_allowlist before f group_target) in
    let denied = field_problem_iff tool_denylist before f group_target in
    let allowed = field_problem_iff tool_allowlist before f group_target in
    (
      λ h. let (a, b) = parts.0 h in (denied.0 a, allowed.0 b),
      λ k. parts.1 (denied.1 k.0, allowed.1 k.1),
    )

sent_differs :
    (field : ListField) (before : VirtualKey) (f : KeyForm)
    → flag before.lists_malformed ≡ false
    → any (same_field field) (lists_sent before f) ≡ differs field before f
unfolding lists_sent
sent_differs field before f h =
    rw h (go field (differs tool_allowlist before f) (differs tool_denylist before f) ∙ back field)
  where
    pick : ListField → Bool → Bool → Bool
    pick tool_allowlist a d = a
    pick tool_denylist a d = d

    go :
        (field : ListField) (a d : Bool)
        → any (same_field field) (push_if a tool_allowlist (push_if d tool_denylist []))
          ≡ pick field a d
    go tool_allowlist true true = refl
    go tool_allowlist true false = refl
    go tool_allowlist false true = refl
    go tool_allowlist false false = refl
    go tool_denylist true true = refl
    go tool_denylist true false = refl
    go tool_denylist false true = refl
    go tool_denylist false false = refl

    back :
        (field : ListField)
        → pick field (differs tool_allowlist before f) (differs tool_denylist before f)
          ≡ differs field before f
    back tool_allowlist = refl
    back tool_denylist = refl

-- Of a key whose lists can be read, a PATCH leaves a list out exactly when the form shows the
-- entries that are stored.
pub lists_sent_iff :
    (field : ListField) (before : VirtualKey) (f : KeyForm)
    → flag before.lists_malformed ≡ false
    → (any (same_field field) (lists_sent before f) ≡ false)
      ↔ SameList (stored_list field before) (some (form_list field f))
lists_sent_iff field before f h = (
  λ k. (same_entries_iff _ _).0 (not-false _ (sym (sent_differs field before f h) ∙ k)),
  λ k.
      sent_differs field before f h
      ∙ ap not ((same_entries_iff (stored_list field before) (some (form_list field f))).1 k),
)

All-kept_iff :
    (seed fresh : VirtualKey) (fields : List ListField)
    → (any (λ field. not (same_entries (stored_list field seed) (stored_list field fresh))) fields
        ≡ false)
      ↔ All
          (λ (field : ListField). SameList (stored_list field seed) (stored_list field fresh))
          fields
All-kept_iff seed fresh [] = (λ _. tt, λ _. refl)
All-kept_iff seed fresh (x ∷ xs) = (
  λ h.
      let (a, b) = or_false (not (same_entries (stored_list x seed) (stored_list x fresh))) _ h in
      ((same_entries_iff _ _).0 (not-false _ a), (All-kept_iff seed fresh xs).0 b),
  λ k.
      rw ((same_entries_iff (stored_list x seed) (stored_list x fresh)).1 k.0)
        ((All-kept_iff seed fresh xs).1 k.1),
)

-- A save of some lists is not stopped as stale exactly when the key is as readable as it was and
-- each of those lists holds the entries it held.
pub key_policy_stale_iff :
    (seed fresh : VirtualKey) (fields : List ListField)
    → (key_policy_stale seed fresh fields ≡ false) ↔ (
        (flag seed.lists_malformed ≡ flag fresh.lists_malformed)
        × All
            (λ (field : ListField). SameList (stored_list field seed) (stored_list field fresh))
            fields)
unfolding key_policy_stale
key_policy_stale_iff seed fresh fields =
    go (flag seed.lists_malformed) (flag fresh.lists_malformed) (All-kept_iff seed fresh fields)
  where
    go :
        (a b : Bool) {c : Bool} {P : Type 0}
        → (c ≡ false) ↔ P
        → ((if not (same_bool a b) then true else c) ≡ false) ↔ ((a ≡ b) × P)
    go true true k = (λ h. (refl, k.0 h), λ p. k.1 p.1)
    go false false k = (λ h. (refl, k.0 h), λ p. k.1 p.1)
    go true false k = (λ h. absurd (true≢false h), λ p. absurd (true≢false p.0))
    go false true k = (λ h. absurd (true≢false h), λ p. absurd (false≢true p.0))
