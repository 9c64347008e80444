-- ===== src/UpstreamsPage/Seqs.antt =====
-- The count of dialogs that were opened, and what each request saw of it (dialogSeq of
-- web/src/app/(app)/upstreams/page.tsx).
use porymcp.Base.{
  ℕ, suc, ◌≤◌, ◌≡◌, refl, sym, subst, ◌∙◌, inl, inr, Bool, true, false, ◌&&◌, ◌||◌, Option, none,
  some, List, [], ◌∷◌, ◌++◌, arith, eqb, if◌then◌else◌, Bool-cases, any, All, All-weaken,
  All-append, All-middle, is_found, Text, text, ◌==◌,
}
use porymcp.Json.{Members}
use porymcp.Api.{Upstream, Failure}
use porymcp.UpstreamForm.{client_secret_alone, upstream_patch_body, connection_fields}
use porymcp.UpstreamsPage.{
  UpstreamsPage, Call, creating, patching, discovering, Patch, in_patch, on_field_change,
  discover_form, open_add, open_edit, close_dialog, request_failed, is_gone, create, created,
  create_refused, saving_ends, save_row, save_over, save_edit, is_end, patch_saved, submit,
  discovered, discovery_refused, without_call, remember_register, Step, Reach, starts, steps, adds,
  edits, types, ticks, picks_kind, discovers, submits, closes, creates, refuses_create, saves,
  refuses_save, answers, refuses, lists, fails_list,
}

-- A create or a save saw the count as it is, or as it was before.
abbrev Saw : ℕ → Call → Type 0
Saw seq (creating mine) = mine ≤ seq
Saw seq (patching mine id body) = mine ≤ seq
Saw seq (discovering mine asked) = Unit

-- The count never goes back, and what is sent sees it as it is.
record Grows (p q : UpstreamsPage) : Type 0 where
  grown : p.dialog_seq ≤ q.dialog_seq
  sent : All (Saw p.dialog_seq) p.calls → All (Saw q.dialog_seq) q.calls

-- Neither the count nor the requests change.
abbrev Same : UpstreamsPage → UpstreamsPage → Type 0
Same p q = (q.dialog_seq ≡ p.dialog_seq) × (q.calls ≡ p.calls)

Same-Grows : (p q : UpstreamsPage) → Same p q → Grows p q
Same-Grows p q (e, k) = record {
  grown = omega (arith, e);
  sent = λ h. subst (λ n. All (Saw n) q.calls) (sym e) (subst (All (Saw p.dialog_seq)) (sym k) h);
}

Same-trans : (p q r : UpstreamsPage) → Same p q → Same q r → Same p r
Same-trans p q r (e, k) (f, l) = (f ∙ e, l ∙ k)

Grows-trans : (p q r : UpstreamsPage) → Grows p q → Grows q r → Grows p r
Grows-trans p q r g h = record {
  grown = omega (arith, g.grown, h.grown);
  sent = λ k. h.sent (g.sent k);
}

Saw-suc : (seq : ℕ) (calls : List Call) → All (Saw seq) calls → All (Saw (suc seq)) calls
Saw-suc seq calls = All-weaken (Saw seq) (Saw (suc seq)) calls one
  where
    one : (c : Call) → Saw seq c → Saw (suc seq) c
    one (creating mine) k = omega (arith, k)
    one (patching mine id body) k = omega (arith, k)
    one (discovering mine asked) k = tt

-- One more request, which sees the count as it is.
sends-Grows :
    (p q : UpstreamsPage) (c : Call)
    → Saw p.dialog_seq c
    → q.dialog_seq ≡ p.dialog_seq
    → q.calls ≡ p.calls ++ (c ∷ [])
    → Grows p q
sends-Grows p q c now e k = record {
  grown = omega (arith, e);
  sent = λ h.
      subst (λ n. All (Saw n) q.calls) (sym e)
        (subst (All (Saw p.dialog_seq)) (sym k)
          (All-append (Saw p.dialog_seq) p.calls (c ∷ []) h (now, tt)));
}

close_dialog-Same : (p : UpstreamsPage) → Same p (close_dialog p)
unfolding close_dialog
close_dialog-Same p = (refl, refl)

saving_ends-Same : (mine : ℕ) (p : UpstreamsPage) → Same p (saving_ends mine p)
saving_ends-Same mine p = elim (Bool-cases (eqb p.dialog_seq mine)) [
  | inl same ↦ rw same (refl, refl)
  | inr other ↦ rw other (refl, refl)
]

request_failed-Same :
    (err : Failure) (mine : ℕ) (p : UpstreamsPage) → Same p (request_failed err mine p)
unfolding request_failed
request_failed-Same err mine p = elim (Bool-cases (p.open_dialog && eqb p.dialog_seq mine)) [
  | inl here ↦ rw here (elim (Bool-cases (is_gone err)) [
    | inl gone ↦ rw gone (refl, refl)
    | inr there ↦ rw there (refl, refl)
  ])
  | inr away ↦ rw away (elim (Bool-cases (is_gone err)) [
    | inl gone ↦ rw gone (refl, refl)
    | inr there ↦ rw there (refl, refl)
  ])
]

create_refused-Same :
    (mine : ℕ) (err : Failure) (p : UpstreamsPage) → Same p (create_refused mine err p)
unfolding create_refused
create_refused-Same mine err p =
    let failed = request_failed err mine p in
    Same-trans p failed (saving_ends mine failed) (request_failed-Same err mine p)
      (saving_ends-Same mine failed)

created-Same : (mine : ℕ) (p : UpstreamsPage) → Same p (created mine p)
unfolding created close_dialog
created-Same mine p = elim (Bool-cases (eqb p.dialog_seq mine)) [
  | inl same ↦ rw (same, same) (refl, refl)
  | inr other ↦ rw (other, other) (refl, refl)
]

patch_saved-Same :
    (mine : ℕ) (saved : Upstream) (p : UpstreamsPage) → Same p (patch_saved mine saved p)
unfolding patch_saved close_dialog
patch_saved-Same mine saved p = elim (Bool-cases (eqb p.dialog_seq mine)) [
  | inl same ↦ rw (same, same) (refl, refl)
  | inr other ↦ rw (other, other) (refl, refl)
]

on_field_change-Same : (patch : Patch) (p : UpstreamsPage) → Same p (on_field_change patch p)
unfolding on_field_change
on_field_change-Same patch p = elim (Bool-cases (is_found p.editing)) [
  | inl edited ↦ rw edited (refl, refl)
  | inr adding ↦ rw adding (elim (Bool-cases (any (in_patch patch) connection_fields)) [
    | inl asked ↦ rw asked (refl, refl)
    | inr other ↦ rw other (refl, refl)
  ])
]

-- A dialog that opens has a count of its own, past every request's.
open_add-Grows : (p : UpstreamsPage) → Grows p (open_add p)
unfolding open_add
open_add-Grows p = record { grown = omega arith; sent = Saw-suc p.dialog_seq p.calls }

open_edit-Grows : (u : Upstream) (p : UpstreamsPage) → Grows p (open_edit u p)
unfolding open_edit
open_edit-Grows u p = record { grown = omega arith; sent = Saw-suc p.dialog_seq p.calls }

ended-Grows :
    (body : Members) (row : Upstream) (p q : UpstreamsPage)
    → Same p q
    → Grows p (
        if is_end body
        then close_dialog q
        else record q { saving = true; calls = p.calls ++ patching p.dialog_seq row.id body ∷ [] })
ended-Grows body row p q s = elim (Bool-cases (is_end body)) [
  | inl nothing ↦
      rw nothing
        (Same-Grows p (close_dialog q) (Same-trans p q (close_dialog q) s (close_dialog-Same q)))
  | inr changes ↦
      rw changes (sends-Grows p _ (patching p.dialog_seq row.id body) (omega arith) s.0 refl)
]

save_row-Grows : (row : Upstream) (p : UpstreamsPage) → Grows p (save_row row p)
save_row-Grows row p =
    elim (Bool-cases (row.auth_type == text "oauth" || p.form.auth_type == text "oauth")) [
      | inl signs ↦ rw signs (
          ended-Grows (upstream_patch_body row p.form) row p
            (remember_register row.id p.form.register_client p) (refl, refl))
      | inr other ↦ rw other (ended-Grows (upstream_patch_body row p.form) row p p (refl, refl))
    ]

save_over-Grows : (o : Option Upstream) (p : UpstreamsPage) → Grows p (save_over o p)
save_over-Grows none p = Same-Grows p p (refl, refl)
save_over-Grows (some row) p = save_row-Grows row p

submit-Grows : (p : UpstreamsPage) → Grows p (submit p)
unfolding submit create save_edit
submit-Grows p = elim (Bool-cases (client_secret_alone p.form)) [
  | inl alone ↦ rw alone (Same-Grows p _ (refl, refl))
  | inr fine ↦ rw fine (elim (Bool-cases (is_found p.editing)) [
    | inl edited ↦ rw edited (
        Grows-trans p cleared _ (Same-Grows p cleared (refl, refl))
          (save_over-Grows p.editing cleared))
    | inr adding ↦ rw adding (sends-Grows p _ (creating p.dialog_seq) (omega arith) refl refl)
  ])
]
  where
    cleared : UpstreamsPage
    cleared = record p { form_error = [] }

discover_form-Grows : (p : UpstreamsPage) → Grows p (discover_form p)
unfolding discover_form
discover_form-Grows p = sends-Grows p _ (discovering (suc p.form_seq) p.form) tt refl refl

-- A panel that is painted, or not.
if-Same : (b : Bool) (p q : UpstreamsPage) → Same p q → Same p (if b then q else p)
if-Same true p q s = s
if-Same false p q s = (refl, refl)

-- A request that is answered is out no more.
answered :
    (before after : List Call) (c : Call) (p q : UpstreamsPage)
    → p.calls ≡ before ++ (c ∷ after)
    → Same (without_call before after p) q
    → Grows p q
answered before after c p q e s =
    Grows-trans p (without_call before after p) q
      (record {
        grown = omega arith;
        sent = λ h.
            (All-middle (Saw p.dialog_seq) before after c (subst (All (Saw p.dialog_seq)) e h)).1;
      })
      (Same-Grows (without_call before after p) q s)

Step-Grows : {p q : UpstreamsPage} → Step p q → Grows p q
unfolding discovered discovery_refused
Step-Grows {p} adds = open_add-Grows p
Step-Grows {p} (edits u) = open_edit-Grows u p
Step-Grows {p} (types t v) = Same-Grows p _ (on_field_change-Same _ p)
Step-Grows {p} (ticks t v) = Same-Grows p _ (on_field_change-Same _ p)
Step-Grows {p} (picks_kind kind) = Same-Grows p _ (on_field_change-Same _ p)
Step-Grows {p} (discovers adding) = discover_form-Grows p
Step-Grows {p} submits = submit-Grows p
Step-Grows {p} closes = Same-Grows p _ (close_dialog-Same p)
Step-Grows {p} (creates before after mine e) =
    answered before after (creating mine) p _ e (created-Same mine _)
Step-Grows {p} (refuses_create before after mine err e) =
    answered before after (creating mine) p _ e (create_refused-Same mine err _)
Step-Grows {p} (saves before after mine id body saved e) =
    answered before after (patching mine id body) p _ e (patch_saved-Same mine saved _)
Step-Grows {p} (refuses_save before after mine id body err e) =
    answered before after (patching mine id body) p _ e (create_refused-Same mine err _)
Step-Grows {p} (answers before after mine asked d e) =
    answered before after (discovering mine asked) p _ e (if-Same _ _ _ (refl, refl))
Step-Grows {p} (refuses before after mine asked err e) =
    answered before after (discovering mine asked) p _ e (if-Same _ _ _ (refl, refl))
Step-Grows {p} (lists items) = Same-Grows p _ (refl, refl)
Step-Grows {p} (fails_list message) = Same-Grows p _ (refl, refl)

pub Step-grown : {p q : UpstreamsPage} → Step p q → p.dialog_seq ≤ q.dialog_seq
Step-grown s = (Step-Grows s).grown

Reach-sent : {p : UpstreamsPage} → Reach p → All (Saw p.dialog_seq) p.calls
Reach-sent (starts choices storage) = tt
Reach-sent (steps r s) = (Step-Grows s).sent (Reach-sent r)

-- A create or a save that is out, and the count that it saw.
pub data IsSend : Call → ℕ → Type 0 where
  is_create : (mine : ℕ) → IsSend (creating mine) mine
  is_save : (mine : ℕ) (id : Text) (body : Members) → IsSend (patching mine id body) mine

pub Reach-IsSend :
    {p : UpstreamsPage} (before after : List Call) {c : Call} {mine : ℕ}
    → Reach p
    → p.calls ≡ before ++ (c ∷ after)
    → IsSend c mine
    → mine ≤ p.dialog_seq
Reach-IsSend {p} before after {c} r e s =
    of s
      (All-middle (Saw p.dialog_seq) before after c
        (subst (All (Saw p.dialog_seq)) e (Reach-sent r))).0
  where
    of : {d : Call} {n : ℕ} → IsSend d n → Saw p.dialog_seq d → n ≤ p.dialog_seq
    of (is_create mine) h = h
    of (is_save mine id body) h = h
