-- ===== src/GroupsPage/Alerts.antt =====
-- What the two Alerts of a group's save hold back (asksAboutBlocking, save, submit,
-- confirmRemoveAll and confirmBlocksAll of web/src/app/(app)/groups/page.tsx).
use porymcp.Base.{
  ℕ, ◌≡◌, sym, ◌∙◌, ◌⊎◌, inl, inr, Bool, true, false, false≢true, ◌&&◌, Option, List, [],
  Bool-cases, Exists, text, truthy,
}
use porymcp.Json.{Json, Members}
use porymcp.Api.{Group}
use porymcp.AdminEvent.{entry}
use porymcp.ToolEntry.{filter_permits}
use porymcp.Catalogue.{blocks_everything}
use porymcp.GroupForm.{group_save_blocked, group_create_body}
use porymcp.GroupsPage.{
  GroupsPage, GroupCall, creating, rereading, patching, body_entry, sends_a_filter, group_created,
  group_refused, empties, save_group, reread, group_saved, save_or_create, submit_group,
  without_group_call, seq_of, Step, Reach, starts, steps, opens_create, opens_edit, changes,
  catalogues, submits, confirms_empty, confirms_blocks, cancels_empty, cancels_blocks, closes,
  lists, fails_list, creates, reads, saves, refuses,
}
use porymcp.GroupsPage.Flags.{
  SameFlags, group_refused-flags, group_created-flags, group_saved-flags, reread-flags,
  save_group_over-flags, save_or_create-flags,
}

-- A request that takes every member out of its group.
abbrev pub takes_all : GroupCall → Bool
takes_all (creating mine) = false
takes_all (rereading mine row body) = empties (entry body (text "upstream_ids"))
takes_all (patching mine row body fresh) = empties (entry body (text "upstream_ids"))

-- The filter in a request's body; a create's body is the form's.
abbrev pub filter_of : GroupCall → GroupsPage → Option Json
filter_of (creating mine) p = body_entry (group_create_body p.form) (text "tool_filter")
filter_of (rereading mine row body) p = entry body (text "tool_filter")
filter_of (patching mine row body fresh) p = entry body (text "tool_filter")

-- A request with a filter, where the form's filter refuses every tool of a complete catalogue.
abbrev pub blocks_all : GroupCall → GroupsPage → Bool
blocks_all c p =
    sends_a_filter (filter_of c p) && blocks_everything (filter_permits p.form.filter) p.catalogue

abbrev Only : Bool → Type 0 → Type 0
Only true A = A
Only false A = ⊥

-- "Remove all" was pressed since the last submit that went past its block.
abbrev EmptyAfter : {p q : GroupsPage} → Step p q → Type 0 → Type 0
EmptyAfter {p} submits A = Only (truthy (group_save_blocked p.editing p.form)) A
EmptyAfter confirms_empty A = Unit
EmptyAfter _ A = A

abbrev pub EmptyAnswered : {p : GroupsPage} → Reach p → Type 0
EmptyAnswered starts = ⊥
EmptyAnswered (steps r s) = EmptyAfter s (EmptyAnswered r)

-- "Save anyway" was pressed since the last submit that went past its block.
abbrev BlocksAfter : {p q : GroupsPage} → Step p q → Type 0 → Type 0
BlocksAfter {p} submits A = Only (truthy (group_save_blocked p.editing p.form)) A
BlocksAfter confirms_blocks A = Unit
BlocksAfter _ A = A

abbrev pub BlocksAnswered : {p : GroupsPage} → Reach p → Type 0
BlocksAnswered starts = ⊥
BlocksAnswered (steps r s) = BlocksAfter s (BlocksAnswered r)

abbrev pub IsOut : List GroupCall → GroupCall → Type 0
IsOut calls c = Exists (λ d. d ≡ c) calls

-- Why a request may be out after a step.
pub data Justified {p q : GroupsPage} (r : Reach p) (s : Step p q) : GroupCall → Type 0 where
  was_out : (c : GroupCall) → IsOut p.calls c → Justified r s c
  was_read :
      (mine : ℕ) (row : Group) (body : Members) (fresh : Option Group)
      → IsOut p.calls (rereading mine row body)
      → Justified r s (patching mine row body fresh)
  let_through :
      (c : GroupCall)
      → (takes_all c ≡ false) ⊎ EmptyAnswered (steps r s)
      → (blocks_all c p ≡ false) ⊎ BlocksAnswered (steps r s)
      → Justified r s c

-- An answer that counts was given.
abbrev pub Flags : GroupsPage → Type 0 → Type 0 → Type 0
Flags p A B = (p.answered_empty ≡ true → A) × (p.answered_blocks ≡ true → B)

pub kept : (p q : GroupsPage) (A B : Type 0) → SameFlags p q → Flags p A B → Flags q A B
kept p q A B (e, k) (f, g) = ((λ t. f (sym e ∙ t)), λ t. g (sym k ∙ t))

-- The page as a submit clears it.
abbrev pub unanswered : GroupsPage → GroupsPage
unanswered p = record p { form_error = []; answered_empty = false; answered_blocks = false }

Step-Flags :
    {p q : GroupsPage} (A B : Type 0) (s : Step p q)
    → Flags p A B
    → Flags q (EmptyAfter s A) (BlocksAfter s B)
unfolding submit_group
Step-Flags {p} A B opens_create f = f
Step-Flags {p} A B (opens_edit g) f = f
Step-Flags {p} A B (changes g) f = f
Step-Flags {p} A B (catalogues c) f = f
Step-Flags {p} A B submits f = elim (Bool-cases (truthy (group_save_blocked p.editing p.form))) [
  | inl blocked ↦ rw blocked f
  | inr goes ↦ rw goes (
      kept (unanswered p) (save_or_create (unanswered p)) ⊥ ⊥ (save_or_create-flags (unanswered p))
        (false≢true, false≢true))
]
Step-Flags {p} A B confirms_empty (f, g) =
    let q = record p { confirm_empty = false; answered_empty = true } in
    kept q (save_group q) Unit B (save_group_over-flags q.editing q) ((λ k. tt), g)
Step-Flags {p} A B confirms_blocks (f, g) =
    let q = record p { confirm_blocks = false; answered_blocks = true } in
    kept q (save_or_create q) A Unit (save_or_create-flags q) (f, λ k. tt)
Step-Flags {p} A B cancels_empty f = f
Step-Flags {p} A B cancels_blocks f = f
Step-Flags {p} A B closes f = f
Step-Flags {p} A B (lists groups) f = f
Step-Flags {p} A B (fails_list message) f = f
Step-Flags {p} A B (creates before after mine e) f =
    let q = without_group_call before after p in
    kept q (group_created mine q) A B (group_created-flags mine q) f
Step-Flags {p} A B (reads before after mine row body fresh e) f =
    let q = without_group_call before after p in
    kept q (reread mine row body fresh q) A B (reread-flags mine row body fresh q) f
Step-Flags {p} A B (saves before after mine row body fresh saved e) f =
    let q = without_group_call before after p in
    kept q (group_saved mine saved q) A B (group_saved-flags mine saved q) f
Step-Flags {p} A B (refuses before after call err e) f =
    let q = without_group_call before after p in
    kept q (group_refused (seq_of call) err q) A B (group_refused-flags (seq_of call) err q) f

pub Reach-Flags : {p : GroupsPage} (r : Reach p) → Flags p (EmptyAnswered r) (BlocksAnswered r)
Reach-Flags starts = (false≢true, false≢true)
Reach-Flags (steps r s) = Step-Flags (EmptyAnswered r) (BlocksAnswered r) s (Reach-Flags r)
