-- ===== src/GroupForm/Policy.antt =====
-- When a group's filter is another than the one a dialog opened on (groupPolicyStale of
-- web/src/lib/group-form.ts), and who its members are (sameMembers).
use porymcp.Base.{
  ◌≡◌, refl, ap, ◌↔◌, inl, inr, true, false, false≢true, true≢false, not, List, arith, eqb,
  if◌then◌else◌, eqb_iff, eqb_refl, Bool-cases, not-false, length, all, Text, eq_sound, eq_complete,
  includes, Distinct, SameSet, all_of_includes, all_intro, length-SubsetOf, SameSet-of_length,
}
use porymcp.ToolFilter.{ParsedFilter, no_filter, filtered, unreadable, parse_tool_filter}
use porymcp.ToolFilter.Meaning.{SameMeaning, same_filter_iff, same_filter-filter_permits}
use porymcp.Api.{Group}
use porymcp.RuleConflicts.Groups.{group_blocks, parsed_blocks}
use porymcp.GroupForm.{same_members, group_policy_stale, changed}

-- Two verdicts on stored filters that say the same.
abbrev pub SameVerdict : ParsedFilter → ParsedFilter → Type 0
SameVerdict no_filter no_filter = Unit
SameVerdict (filtered f) (filtered g) = SameMeaning f g
SameVerdict (unreadable s) (unreadable t) = s ≡ t
SameVerdict _ _ = ⊥

changed_iff : (p q : ParsedFilter) → (changed p q ≡ false) ↔ SameVerdict p q
changed_iff no_filter no_filter = (λ _. tt, λ _. refl)
changed_iff no_filter (filtered g) = (λ h. true≢false h, λ k. absurd k)
changed_iff no_filter (unreadable t) = (λ h. true≢false h, λ k. absurd k)
changed_iff (filtered f) no_filter = (λ h. true≢false h, λ k. absurd k)
changed_iff (filtered f) (filtered g) =
    (λ h. (same_filter_iff f g).0 (not-false _ h), λ k. rw ((same_filter_iff f g).1 k) refl)
changed_iff (filtered f) (unreadable t) = (λ h. true≢false h, λ k. absurd k)
changed_iff (unreadable s) no_filter = (λ h. true≢false h, λ k. absurd k)
changed_iff (unreadable s) (filtered g) = (λ h. true≢false h, λ k. absurd k)
changed_iff (unreadable s) (unreadable t) =
    (λ h. eq_sound s t (not-false _ h), λ k. rw (eq_complete s t k) refl)

-- A save is not stopped as stale exactly when the two reads of the group say the same: no filter
-- both, filters of one meaning, or unreadable ones with the same text.
pub group_policy_stale_iff :
    (seed fresh : Group)
    → (group_policy_stale seed fresh ≡ false)
      ↔ SameVerdict (parse_tool_filter seed.tool_filter) (parse_tool_filter fresh.tool_filter)
unfolding group_policy_stale
group_policy_stale_iff seed fresh =
    changed_iff (parse_tool_filter seed.tool_filter) (parse_tool_filter fresh.tool_filter)

-- Where a save is not stopped as stale, the group still refuses the very tools that it refused
-- when the dialog opened.
pub group_policy_stale-group_blocks :
    (seed fresh : Group)
    → group_policy_stale seed fresh ≡ false
    → (slug name : Text) → group_blocks seed slug name ≡ group_blocks fresh slug name
unfolding group_policy_stale group_blocks
group_policy_stale-group_blocks seed fresh h slug name =
    go (parse_tool_filter seed.tool_filter) (parse_tool_filter fresh.tool_filter) h
  where
    go :
        (p q : ParsedFilter)
        → changed p q ≡ false
        → parsed_blocks p slug name ≡ parsed_blocks q slug name
    go no_filter no_filter h = refl
    go no_filter (filtered g) h = absurd (true≢false h)
    go no_filter (unreadable t) h = absurd (true≢false h)
    go (filtered f) no_filter h = absurd (true≢false h)
    go (filtered f) (filtered g) h =
        ap not (same_filter-filter_permits f g (not-false _ h) slug name)
    go (filtered f) (unreadable t) h = absurd (true≢false h)
    go (unreadable s) no_filter h = absurd (true≢false h)
    go (unreadable s) (filtered g) h = absurd (true≢false h)
    go (unreadable s) (unreadable t) h = refl

-- Two lists of members without a repetition are taken for the same exactly when they hold the
-- same members, whatever the order.
pub same_members_iff :
    (a b : List Text) → Distinct a → Distinct b → (same_members a b ≡ true) ↔ SameSet a b
unfolding same_members
same_members_iff a b da db = (
  λ h.
      let (n, sub) = same_members_parts h in
      SameSet-of_length a b da db n (λ e m. all_of_includes (includes b) a e sub m),
  λ k.
      let n : length a ≡ length b = omega (
        arith,
        length-SubsetOf a b da db (λ e m. rw (k e) at m),
        length-SubsetOf b a db da (λ e m. rw (← k e) at m),
      ) in
      rw (n, eqb_refl (length b)) (all_intro (includes b) a (λ e m. rw (k e) at m)),
)
  where
    same_members_parts :
        (if not (eqb (length a) (length b)) then false else all (includes b) a) ≡ true
        → (length a ≡ length b) × (all (includes b) a ≡ true)
    same_members_parts h = elim (Bool-cases (eqb (length a) (length b))) [
      | inl e ↦ ((eqb_iff (length a) (length b)).0 e, rw e at h)
      | inr e ↦ absurd (false≢true (rw e at h))
    ]
