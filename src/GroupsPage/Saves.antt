-- ===== src/GroupsPage/Saves.antt =====
-- What a save of a group sends (save of web/src/app/(app)/groups/page.tsx).
use porymcp.Base.{
  ℕ, ◌≡◌, refl, sym, subst, ◌∙◌, inl, inr, true, false, true≢false, not, ◌&&◌, Option, none, some,
  List, [], ◌∷◌, ◌++◌, eqb, Bool-cases, not-false, All, All-append, All-middle, is_found, Text,
  text, truthy,
}
use porymcp.Json.{Members}
use porymcp.Api.{Group, Failure}
use porymcp.AdminEvent.{entry}
use porymcp.RuleConflicts.Groups.{group_blocks}
use porymcp.GroupForm.{group_patch_body, group_save_blocked, group_filter_stale, group_create_body}
use porymcp.GroupForm.Policy.{group_policy_stale-group_blocks}
use porymcp.GroupsPage.{
  GroupsPage, GroupCall, creating, rereading, patching, body_entry, asks_about_blocking, is_gone,
  load_groups, tell, group_failed, group_saving_ends, create_group, group_created, group_refused,
  is_end, empties, first_call, save_group_row, save_group_over, stale_read, reread, group_saved,
  save_or_create, submit_group, without_group_call, seq_of, Reach, starts, steps, opens_create,
  opens_edit, changes, catalogues, submits, confirms_empty, confirms_blocks, cancels_empty,
  cancels_blocks, closes, lists, fails_list, creates, reads, saves, refuses,
}

-- A read of the group that refuses the very tools that the opened one does.
pub data BlocksAlike (row : Group) : Option Group → Type 0 where
  read_back :
      (fresh : Group)
      → ((slug name : Text) → group_blocks row slug name ≡ group_blocks fresh slug name)
      → BlocksAlike row (some fresh)

-- A PATCH with a filter follows such a read.
abbrev pub Backed : GroupCall → Type 0
Backed (patching mine row body fresh) =
    is_found (entry body (text "tool_filter")) ≡ true → BlocksAlike row fresh
Backed _ = Unit

pub tell-calls :
    (message : Text) (mine : ℕ) (p : GroupsPage) → (tell message mine p).calls ≡ p.calls
unfolding tell
tell-calls message mine p = elim (Bool-cases (p.open_dialog && eqb p.dialog_seq mine)) [
  | inl here ↦ rw here refl
  | inr away ↦ rw away refl
]

pub group_saving_ends-calls :
    (mine : ℕ) (p : GroupsPage) → (group_saving_ends mine p).calls ≡ p.calls
group_saving_ends-calls mine p = elim (Bool-cases (eqb p.dialog_seq mine)) [
  | inl same ↦ rw same refl
  | inr other ↦ rw other refl
]

pub group_refused-calls :
    (mine : ℕ) (err : Failure) (p : GroupsPage) → (group_refused mine err p).calls ≡ p.calls
unfolding group_refused group_failed
group_refused-calls mine err p =
    group_saving_ends-calls mine (group_failed err mine p) ∙ elim (Bool-cases (is_gone err)) [
      | inl gone ↦ rw gone (tell-calls _ mine (load_groups p))
      | inr there ↦ rw there (tell-calls _ mine p)
    ]

pub group_created-calls : (mine : ℕ) (p : GroupsPage) → (group_created mine p).calls ≡ p.calls
unfolding group_created
group_created-calls mine p = elim (Bool-cases (eqb p.dialog_seq mine)) [
  | inl same ↦ rw (same, same) refl
  | inr other ↦ rw (other, other) refl
]

pub group_saved-calls :
    (mine : ℕ) (saved : Group) (p : GroupsPage) → (group_saved mine saved p).calls ≡ p.calls
unfolding group_saved
group_saved-calls mine saved p = elim (Bool-cases (eqb p.dialog_seq mine)) [
  | inl same ↦ rw (same, same) refl
  | inr other ↦ rw (other, other) refl
]

kept : (p q : GroupsPage) → q.calls ≡ p.calls → All Backed p.calls → All Backed q.calls
kept p q e h = subst (All Backed) (sym e) h

first_call-Backed : (mine : ℕ) (row : Group) (body : Members) → Backed (first_call mine row body)
first_call-Backed mine row body = elim (Bool-cases (is_found (entry body (text "tool_filter")))) [
  | inl filtered ↦ rw filtered tt
  | inr plain ↦ rw plain (λ h. absurd (true≢false (sym h ∙ plain)))
]

create_group-Backed : (p : GroupsPage) → All Backed p.calls → All Backed (create_group p).calls
unfolding create_group
create_group-Backed p h =
    elim (Bool-cases
      (asks_about_blocking (body_entry (group_create_body p.form) (text "tool_filter")) p)) [
        | inl asks ↦ rw asks h
        | inr sends ↦ rw sends (All-append Backed p.calls (creating p.dialog_seq ∷ []) h (tt, tt))
      ]

-- The requests after a save: those before it, or one more, which both Alerts let through.
pub data SaveSends (row : Group) (body : Members) (p : GroupsPage) : List GroupCall → Type 0 where
  nothing_sent : SaveSends row body p p.calls
  one_sent :
      (empties (entry body (text "upstream_ids")) ≡ true → p.answered_empty ≡ true)
      → asks_about_blocking (entry body (text "tool_filter")) p ≡ false
      → SaveSends row body p (p.calls ++ first_call p.dialog_seq row body ∷ [])

pub save_group_row-sends :
    (row : Group) (body : Members) (p : GroupsPage)
    → SaveSends row body p (save_group_row row body p).calls
save_group_row-sends row body p = elim (Bool-cases (is_end body)) [
  | inl nothing ↦ rw nothing nothing_sent
  | inr some_change ↦
      rw some_change
        (elim (Bool-cases (empties (entry body (text "upstream_ids")) && not p.answered_empty)) [
          | inl asks ↦ rw asks nothing_sent
          | inr fine ↦
              rw fine (elim (Bool-cases (asks_about_blocking (entry body (text "tool_filter")) p)) [
                | inl blocks ↦ rw blocks nothing_sent
                | inr passes ↦ rw passes (one_sent (answered fine) passes)
              ])
        ])
]
  where
    answered :
        (empties (entry body (text "upstream_ids")) && not p.answered_empty) ≡ false
        → empties (entry body (text "upstream_ids")) ≡ true
        → p.answered_empty ≡ true
    answered fine e = not-false _ (rw e at fine)

SaveSends-Backed :
    (row : Group) (body : Members) (p : GroupsPage) (calls : List GroupCall)
    → SaveSends row body p calls
    → All Backed p.calls
    → All Backed calls
SaveSends-Backed row body p _ nothing_sent h = h
SaveSends-Backed row body p _ (one_sent e a) h =
    All-append Backed p.calls (first_call p.dialog_seq row body ∷ []) h
      (first_call-Backed p.dialog_seq row body, tt)

save_group_over-Backed :
    (o : Option Group) (p : GroupsPage)
    → All Backed p.calls
    → All Backed (save_group_over o p).calls
save_group_over-Backed none p h = h
save_group_over-Backed (some row) p h =
    SaveSends-Backed row (group_patch_body row p.form) p _
      (save_group_row-sends row (group_patch_body row p.form) p) h

save_or_create-Backed : (p : GroupsPage) → All Backed p.calls → All Backed (save_or_create p).calls
save_or_create-Backed p h = elim (Bool-cases (is_found p.editing)) [
  | inl edits ↦ rw edits (save_group_over-Backed p.editing p h)
  | inr adds ↦ rw adds (create_group-Backed p h)
]

submit_group-Backed : (p : GroupsPage) → All Backed p.calls → All Backed (submit_group p).calls
unfolding submit_group
submit_group-Backed p h = elim (Bool-cases (truthy (group_save_blocked p.editing p.form))) [
  | inl blocked ↦ rw blocked h
  | inr goes ↦ rw goes (
      save_or_create-Backed
        (record p { form_error = []; answered_empty = false; answered_blocks = false }) h)
]

stale_read-BlocksAlike :
    (row : Group) (fresh : Option Group) → stale_read row fresh ≡ false → BlocksAlike row fresh
stale_read-BlocksAlike row none h = absurd (true≢false h)
stale_read-BlocksAlike row (some fresh) h =
    read_back fresh (group_policy_stale-group_blocks row fresh h)

reread-Backed :
    (mine : ℕ) (row : Group) (body : Members) (fresh : Option Group) (p : GroupsPage)
    → All Backed p.calls
    → All Backed (reread mine row body fresh p).calls
unfolding reread
reread-Backed mine row body fresh p h = elim (Bool-cases (stale_read row fresh)) [
  | inl stale ↦ rw stale (
      kept p (group_saving_ends mine (tell group_filter_stale mine p))
        (group_saving_ends-calls mine (tell group_filter_stale mine p)
          ∙ tell-calls group_filter_stale mine p)
        h)
  | inr same ↦ rw same (
      All-append Backed p.calls (patching mine row body fresh ∷ []) h
        ((λ f. stale_read-BlocksAlike row fresh same), tt))
]

dropped :
    (before : List GroupCall) (c : GroupCall) (after : List GroupCall) (p : GroupsPage)
    → p.calls ≡ before ++ (c ∷ after)
    → All Backed p.calls
    → All Backed (before ++ after)
dropped before c after p e h = (All-middle Backed before after c (subst (All Backed) e h)).1

Reach-Backed : {p : GroupsPage} → Reach p → All Backed p.calls
Reach-Backed starts = tt
Reach-Backed (steps {p} r opens_create) = Reach-Backed r
Reach-Backed (steps {p} r (opens_edit g)) = Reach-Backed r
Reach-Backed (steps {p} r (changes f)) = Reach-Backed r
Reach-Backed (steps {p} r (catalogues c)) = Reach-Backed r
Reach-Backed (steps {p} r submits) = submit_group-Backed p (Reach-Backed r)
Reach-Backed (steps {p} r confirms_empty) =
    save_group_over-Backed p.editing (record p { confirm_empty = false; answered_empty = true })
      (Reach-Backed r)
Reach-Backed (steps {p} r confirms_blocks) =
    save_or_create-Backed (record p { confirm_blocks = false; answered_blocks = true })
      (Reach-Backed r)
Reach-Backed (steps {p} r cancels_empty) = Reach-Backed r
Reach-Backed (steps {p} r cancels_blocks) = Reach-Backed r
Reach-Backed (steps {p} r closes) = Reach-Backed r
Reach-Backed (steps {p} r (lists groups)) = Reach-Backed r
Reach-Backed (steps {p} r (fails_list message)) = Reach-Backed r
Reach-Backed (steps {p} r (creates before after mine e)) =
    let q = without_group_call before after p in
    kept q (group_created mine q) (group_created-calls mine q)
      (dropped before (creating mine) after p e (Reach-Backed r))
Reach-Backed (steps {p} r (reads before after mine row body fresh e)) =
    reread-Backed mine row body fresh (without_group_call before after p)
      (dropped before (rereading mine row body) after p e (Reach-Backed r))
Reach-Backed (steps {p} r (saves before after mine row body fresh saved e)) =
    let q = without_group_call before after p in
    kept q (group_saved mine saved q) (group_saved-calls mine saved q)
      (dropped before (patching mine row body fresh) after p e (Reach-Backed r))
Reach-Backed (steps {p} r (refuses before after call err e)) =
    let q = without_group_call before after p in
    kept q (group_refused (seq_of call) err q) (group_refused-calls (seq_of call) err q)
      (dropped before call after p e (Reach-Backed r))

-- A PATCH that carries a filter is out only after a read of the group that found it refuse the
-- very tools that it refused when the dialog opened on it.
pub Reach-patching :
    (p : GroupsPage) (before after : List GroupCall) (mine : ℕ) (row : Group) (body : Members)
    (fresh : Option Group)
    → Reach p
    → p.calls ≡ before ++ (patching mine row body fresh ∷ after)
    → is_found (entry body (text "tool_filter")) ≡ true
    → BlocksAlike row fresh
Reach-patching p before after mine row body fresh r e =
    (All-middle Backed before after (patching mine row body fresh)
      (subst (All Backed) e (Reach-Backed r))).0
