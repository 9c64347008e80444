-- ===== src/GroupsPage/Flags.antt =====
-- What keeps the two Alerts' answers as they are (`answered` of web/src/app/(app)/groups/page.tsx).
use porymcp.Base.{
  ℕ, ◌≡◌, refl, ◌∙◌, inl, inr, not, ◌&&◌, Option, none, some, eqb, Bool-cases, is_found, Text, text,
}
use porymcp.Json.{Members}
use porymcp.Api.{Group, Failure}
use porymcp.AdminEvent.{entry}
use porymcp.GroupForm.{group_patch_body, group_filter_stale, group_create_body}
use porymcp.GroupsPage.{
  GroupsPage, body_entry, asks_about_blocking, is_gone, load_groups, tell, group_failed,
  group_saving_ends, create_group, group_created, group_refused, is_end, empties, save_group_row,
  save_group_over, stale_read, reread, group_saved, save_or_create,
}

-- The two answers, as they were.
abbrev pub SameFlags : GroupsPage → GroupsPage → Type 0
SameFlags p q = (q.answered_empty ≡ p.answered_empty) × (q.answered_blocks ≡ p.answered_blocks)

flags_trans : (p q r : GroupsPage) → SameFlags p q → SameFlags q r → SameFlags p r
flags_trans p q r (e, k) (f, l) = (f ∙ e, l ∙ k)

tell-flags : (message : Text) (mine : ℕ) (p : GroupsPage) → SameFlags p (tell message mine p)
unfolding tell
tell-flags message mine p = elim (Bool-cases (p.open_dialog && eqb p.dialog_seq mine)) [
  | inl here ↦ rw here (refl, refl)
  | inr away ↦ rw away (refl, refl)
]

group_saving_ends-flags : (mine : ℕ) (p : GroupsPage) → SameFlags p (group_saving_ends mine p)
group_saving_ends-flags mine p = elim (Bool-cases (eqb p.dialog_seq mine)) [
  | inl same ↦ rw same (refl, refl)
  | inr other ↦ rw other (refl, refl)
]

pub group_refused-flags :
    (mine : ℕ) (err : Failure) (p : GroupsPage) → SameFlags p (group_refused mine err p)
unfolding group_refused group_failed
group_refused-flags mine err p =
    flags_trans p (group_failed err mine p) (group_saving_ends mine (group_failed err mine p))
      (elim (Bool-cases (is_gone err)) [
        | inl gone ↦ rw gone (tell-flags _ mine (load_groups p))
        | inr there ↦ rw there (tell-flags _ mine p)
      ])
      (group_saving_ends-flags mine (group_failed err mine p))

pub group_created-flags : (mine : ℕ) (p : GroupsPage) → SameFlags p (group_created mine p)
unfolding group_created
group_created-flags mine p = elim (Bool-cases (eqb p.dialog_seq mine)) [
  | inl same ↦ rw (same, same) (refl, refl)
  | inr other ↦ rw (other, other) (refl, refl)
]

pub group_saved-flags :
    (mine : ℕ) (saved : Group) (p : GroupsPage) → SameFlags p (group_saved mine saved p)
unfolding group_saved
group_saved-flags mine saved p = elim (Bool-cases (eqb p.dialog_seq mine)) [
  | inl same ↦ rw (same, same) (refl, refl)
  | inr other ↦ rw (other, other) (refl, refl)
]

pub reread-flags :
    (mine : ℕ) (row : Group) (body : Members) (fresh : Option Group) (p : GroupsPage)
    → SameFlags p (reread mine row body fresh p)
unfolding reread
reread-flags mine row body fresh p = elim (Bool-cases (stale_read row fresh)) [
  | inl stale ↦ rw stale (
      let told = tell group_filter_stale mine p in
      flags_trans p told (group_saving_ends mine told) (tell-flags group_filter_stale mine p)
        (group_saving_ends-flags mine told))
  | inr same ↦ rw same (refl, refl)
]

pub save_group_over-flags : (o : Option Group) (p : GroupsPage) → SameFlags p (save_group_over o p)
save_group_over-flags none p = (refl, refl)
save_group_over-flags (some row) p = by (group_patch_body row p.form)
  where
    by : (body : Members) → SameFlags p (save_group_row row body p)
    by body = elim (Bool-cases (is_end body)) [
      | inl nothing ↦ rw nothing (refl, refl)
      | inr change ↦
          rw change
            (elim (Bool-cases
              (empties (entry body (text "upstream_ids")) && not p.answered_empty)) [
                | inl asks ↦ rw asks (refl, refl)
                | inr fine ↦
                    rw fine
                      (elim (Bool-cases (asks_about_blocking (entry body (text "tool_filter")) p)) [
                        | inl blocks ↦ rw blocks (refl, refl)
                        | inr passes ↦ rw passes (refl, refl)
                      ])
              ])
    ]

pub save_or_create-flags : (p : GroupsPage) → SameFlags p (save_or_create p)
unfolding create_group
save_or_create-flags p = elim (Bool-cases (is_found p.editing)) [
  | inl edits ↦ rw edits (save_group_over-flags p.editing p)
  | inr adds ↦
      rw adds
        (elim (Bool-cases
          (asks_about_blocking (body_entry (group_create_body p.form) (text "tool_filter")) p)) [
            | inl asks ↦ rw asks (refl, refl)
            | inr sends ↦ rw sends (refl, refl)
          ])
]
