-- ===== src/UpstreamsPage/Kept.antt =====
-- What holds of the dialog at any time (web/src/app/(app)/upstreams/page.tsx).
use porymcp.Base.{
  ℕ, suc, ◌≤◌, ◌≡◌, refl, sym, subst, ◌∙◌, inl, inr, true, false, false≢true, ◌&&◌, ◌||◌, Option,
  none, some, List, [], ◌∷◌, ◌++◌, arith, eqb, if◌then◌else◌, Bool-cases, or_false, any, All,
  All-weaken, All-append, All-middle, is_found, text, ◌==◌, trim,
}
use porymcp.Json.{Members}
use porymcp.Api.{Upstream, Discovery, Failure}
use porymcp.SlugPreview.{derive_slug, plain_i}
use porymcp.ToolFilter.{lower}
use porymcp.UpstreamForm.{
  UpstreamForm, connection_fields, apply_kind_change, client_secret_alone, upstream_patch_body,
}
use porymcp.UpstreamsPage.{
  UpstreamsPage, Call, creating, patching, discovering, Patch, text_patch, flag_patch, form_patch,
  in_patch, put_patch, patched, on_field_change, discover_form, open_add, open_edit, close_dialog,
  request_failed, is_gone, create, created, create_refused, saving_ends, save_row, save_over,
  save_edit, is_end, patch_saved, submit, discovered, discovery_refused, without_call,
  remember_register, load_items, put_item, Step, Reach, starts, steps, adds, edits, types, ticks,
  picks_kind, discovers, submits, closes, creates, refuses_create, saves, refuses_save, answers,
  refuses, lists, fails_list,
}
use porymcp.UpstreamsPage.Patches.{connection, patched-connection, Follows, patched-Follows}

-- The newest discovery that is out asks about the connection that is in the form, in the Add dialog.
abbrev Fits : ℕ → Option Upstream → UpstreamForm → Call → Type 0
Fits seq editing form (discovering mine asked) =
    (mine ≤ seq) × (mine ≡ seq → (editing ≡ none) × (connection asked ≡ connection form))
Fits seq editing form _ = Unit

record Kept (p : UpstreamsPage) : Type 0 where
  newest : All (Fits p.form_seq p.editing p.form) p.calls
  derived : p.open_dialog ≡ true → p.editing ≡ none → p.slug_touched ≡ false → Follows p.form

older :
    (seq : ℕ) (before after : Option Upstream) (f g : UpstreamForm) (calls : List Call)
    → All (Fits seq before f) calls
    → All (Fits (suc seq) after g) calls
older seq before after f g calls h =
    All-weaken (Fits seq before f) (Fits (suc seq) after g) calls one h
  where
    one : (c : Call) → Fits seq before f c → Fits (suc seq) after g c
    one (creating mine) k = tt
    one (patching mine id body) k = tt
    one (discovering mine asked) k = (omega (arith, k.0), λ e. absurd (omega (arith, e, k.0)))

same_connection :
    (seq : ℕ) (editing : Option Upstream) (f g : UpstreamForm) (calls : List Call)
    → (editing ≡ none → connection f ≡ connection g)
    → All (Fits seq editing f) calls
    → All (Fits seq editing g) calls
same_connection seq editing f g calls e h =
    All-weaken (Fits seq editing f) (Fits seq editing g) calls one h
  where
    one : (c : Call) → Fits seq editing f c → Fits seq editing g c
    one (creating mine) k = tt
    one (patching mine id body) k = tt
    one (discovering mine asked) k =
        (k.0, λ now. let (adds_now, same) = k.1 now in (adds_now, same ∙ e adds_now))

not_both : (o : Option Upstream) → is_found o ≡ true → o ≡ none → ⊥
not_both none h e = false≢true h
not_both (some u) h e = ground arith

close_dialog-Kept : (p : UpstreamsPage) → Kept p → Kept (close_dialog p)
unfolding close_dialog
close_dialog-Kept p k = record {
  newest = older p.form_seq p.editing p.editing p.form (close_dialog p).form p.calls k.newest;
  derived = λ shut. absurd (false≢true shut);
}

saving_ends-Kept : (mine : ℕ) (p : UpstreamsPage) → Kept p → Kept (saving_ends mine p)
saving_ends-Kept mine p k = elim (Bool-cases (eqb p.dialog_seq mine)) [
  | inl same ↦ rw same (record { newest = k.newest; derived = k.derived })
  | inr other ↦ rw other k
]

request_failed-Kept :
    (err : Failure) (mine : ℕ) (p : UpstreamsPage) → Kept p → Kept (request_failed err mine p)
unfolding request_failed
request_failed-Kept err mine p k = elim (Bool-cases (p.open_dialog && eqb p.dialog_seq mine)) [
  | inl here ↦ rw here (elim (Bool-cases (is_gone err)) [
    | inl gone ↦ rw gone (record { newest = k.newest; derived = k.derived })
    | inr there ↦ rw there (record { newest = k.newest; derived = k.derived })
  ])
  | inr away ↦ rw away (elim (Bool-cases (is_gone err)) [
    | inl gone ↦ rw gone (record { newest = k.newest; derived = k.derived })
    | inr there ↦ rw there (record { newest = k.newest; derived = k.derived })
  ])
]

add_change-derived :
    (patch : Patch) (p : UpstreamsPage)
    → Kept p
    → p.open_dialog ≡ true
    → p.editing ≡ none
    → (in_patch patch (text "slug") || p.slug_touched) ≡ false
    → Follows (patched p.slug_touched patch p.form)
add_change-derived patch p k shown adding clean =
    let (other, untouched) = or_false (in_patch patch (text "slug")) p.slug_touched clean in
    subst (λ b. Follows (patched b patch p.form)) (sym untouched)
      (patched-Follows patch p.form other (k.derived shown adding untouched))

on_field_change-Kept : (patch : Patch) (p : UpstreamsPage) → Kept p → Kept (on_field_change patch p)
unfolding on_field_change
on_field_change-Kept patch p k = elim (Bool-cases (is_found p.editing)) [
  | inl edited ↦ rw edited (record {
    newest =
        same_connection p.form_seq p.editing p.form (put_patch patch p.form) p.calls
          (λ e. absurd (not_both p.editing edited e)) k.newest;
    derived = λ shown adding. absurd (not_both p.editing edited adding);
  })
  | inr adding ↦ rw adding (elim (Bool-cases (any (in_patch patch) connection_fields)) [
    | inl asked ↦ rw asked (record {
      newest =
          older p.form_seq p.editing p.editing p.form (patched p.slug_touched patch p.form) p.calls
            k.newest;
      derived = add_change-derived patch p k;
    })
    | inr other ↦ rw other (record {
      newest =
          same_connection p.form_seq p.editing p.form (patched p.slug_touched patch p.form) p.calls
            (λ e. sym (patched-connection p.slug_touched patch p.form other)) k.newest;
      derived = add_change-derived patch p k;
    })
  ])
]

-- A dialog that opens has no call of its own out yet.
open_add-Kept : (p : UpstreamsPage) → Kept p → Kept (open_add p)
unfolding open_add derive_slug text lower trim plain_i
open_add-Kept p k = record {
  newest = older p.form_seq p.editing none p.form (open_add p).form p.calls k.newest;
  derived = λ shown adding clean. refl;
}

open_edit-Kept : (u : Upstream) (p : UpstreamsPage) → Kept p → Kept (open_edit u p)
unfolding open_edit
open_edit-Kept u p k = record {
  newest = older p.form_seq p.editing (some u) p.form (open_edit u p).form p.calls k.newest;
  derived = λ shown adding. absurd (not_both (some u) refl adding);
}

discover_form-Kept : (p : UpstreamsPage) → p.editing ≡ none → Kept p → Kept (discover_form p)
unfolding discover_form
discover_form-Kept p adding k = record {
  newest =
      All-append (Fits (suc p.form_seq) p.editing p.form) p.calls
        (discovering (suc p.form_seq) p.form ∷ [])
        (older p.form_seq p.editing p.editing p.form p.form p.calls k.newest)
        ((omega arith, λ e. (adding, refl)), tt);
  derived = k.derived;
}

-- A create or a save that is sent is no discovery.
sent-Kept :
    (p : UpstreamsPage) (c : Call)
    → Fits p.form_seq p.editing p.form c
    → Kept p
    → Kept (record p { saving = true; calls = p.calls ++ c ∷ [] })
sent-Kept p c fits k = record {
  newest = All-append (Fits p.form_seq p.editing p.form) p.calls (c ∷ []) k.newest (fits, tt);
  derived = k.derived;
}

ended-Kept :
    (body : Members) (row : Upstream) (q : UpstreamsPage)
    → Kept q
    → Kept (
        if is_end body
        then close_dialog q
        else record q { saving = true; calls = q.calls ++ patching q.dialog_seq row.id body ∷ [] })
ended-Kept body row q k = elim (Bool-cases (is_end body)) [
  | inl nothing ↦ rw nothing (close_dialog-Kept q k)
  | inr changes ↦ rw changes (sent-Kept q (patching q.dialog_seq row.id body) tt k)
]

save_row-Kept : (row : Upstream) (p : UpstreamsPage) → Kept p → Kept (save_row row p)
save_row-Kept row p k =
    elim (Bool-cases (row.auth_type == text "oauth" || p.form.auth_type == text "oauth")) [
      | inl signs ↦ rw signs (
          ended-Kept (upstream_patch_body row p.form) row
            (remember_register row.id p.form.register_client p)
            (record { newest = k.newest; derived = k.derived }))
      | inr other ↦ rw other (ended-Kept (upstream_patch_body row p.form) row p k)
    ]

save_over-Kept : (o : Option Upstream) (p : UpstreamsPage) → Kept p → Kept (save_over o p)
save_over-Kept none p k = k
save_over-Kept (some row) p k = save_row-Kept row p k

submit-Kept : (p : UpstreamsPage) → Kept p → Kept (submit p)
unfolding submit create save_edit
submit-Kept p k = elim (Bool-cases (client_secret_alone p.form)) [
  | inl alone ↦ rw alone (record { newest = k.newest; derived = k.derived })
  | inr fine ↦ rw fine (elim (Bool-cases (is_found p.editing)) [
    | inl edited ↦ rw edited (save_over-Kept p.editing cleared cleared_Kept)
    | inr adding ↦ rw adding (sent-Kept cleared (creating p.dialog_seq) tt cleared_Kept)
  ])
]
  where
    cleared : UpstreamsPage
    cleared = record p { form_error = [] }

    cleared_Kept : Kept cleared
    cleared_Kept = record { newest = k.newest; derived = k.derived }

created-Kept : (mine : ℕ) (p : UpstreamsPage) → Kept p → Kept (created mine p)
unfolding created
created-Kept mine p k = elim (Bool-cases (eqb p.dialog_seq mine)) [
  | inl same ↦ rw same (
      let shut = close_dialog-Kept p k in
      saving_ends-Kept mine (load_items (record (close_dialog p) { slug_touched = false }))
        (record { newest = shut.newest; derived = λ o. absurd (false≢true o) }))
  | inr other ↦
      rw other
        (saving_ends-Kept mine (load_items p) (record { newest = k.newest; derived = k.derived }))
]

create_refused-Kept :
    (mine : ℕ) (err : Failure) (p : UpstreamsPage) → Kept p → Kept (create_refused mine err p)
unfolding create_refused
create_refused-Kept mine err p k =
    saving_ends-Kept mine (request_failed err mine p) (request_failed-Kept err mine p k)

patch_saved-Kept :
    (mine : ℕ) (saved : Upstream) (p : UpstreamsPage) → Kept p → Kept (patch_saved mine saved p)
unfolding patch_saved
patch_saved-Kept mine saved p k = elim (Bool-cases (eqb p.dialog_seq mine)) [
  | inl same ↦
      rw same (saving_ends-Kept mine (close_dialog shown) (close_dialog-Kept shown shown_Kept))
  | inr other ↦ rw other (saving_ends-Kept mine shown shown_Kept)
]
  where
    shown : UpstreamsPage
    shown = record p { items = put_item saved p.items }

    shown_Kept : Kept shown
    shown_Kept = record { newest = k.newest; derived = k.derived }

discovered-Kept :
    (mine : ℕ) (d : Discovery) (p : UpstreamsPage) → Kept p → Kept (discovered mine d p)
unfolding discovered
discovered-Kept mine d p k = elim (Bool-cases (eqb p.form_seq mine)) [
  | inl same ↦ rw same (record { newest = k.newest; derived = k.derived })
  | inr other ↦ rw other k
]

discovery_refused-Kept :
    (mine : ℕ) (err : Failure) (p : UpstreamsPage) → Kept p → Kept (discovery_refused mine err p)
unfolding discovery_refused
discovery_refused-Kept mine err p k = elim (Bool-cases (eqb p.form_seq mine)) [
  | inl same ↦ rw same (record { newest = k.newest; derived = k.derived })
  | inr other ↦ rw other k
]

without_call-Kept :
    (before : List Call) (c : Call) (after : List Call) (p : UpstreamsPage)
    → p.calls ≡ before ++ (c ∷ after)
    → Kept p
    → Kept (without_call before after p)
without_call-Kept before c after p e k = record {
  newest =
      (All-middle (Fits p.form_seq p.editing p.form) before after c
        (subst (All (Fits p.form_seq p.editing p.form)) e k.newest)).1;
  derived = k.derived;
}

Step-Kept : {p q : UpstreamsPage} → Step p q → Kept p → Kept q
Step-Kept {p} adds k = open_add-Kept p k
Step-Kept {p} (edits u) k = open_edit-Kept u p k
Step-Kept {p} (types t v) k = on_field_change-Kept (text_patch t v) p k
Step-Kept {p} (ticks t v) k = on_field_change-Kept (flag_patch t v) p k
Step-Kept {p} (picks_kind kind) k =
    on_field_change-Kept (form_patch (apply_kind_change p.form kind)) p k
Step-Kept {p} (discovers adding) k = discover_form-Kept p adding k
Step-Kept {p} submits k = submit-Kept p k
Step-Kept {p} closes k = close_dialog-Kept p k
Step-Kept {p} (creates before after mine e) k =
    created-Kept mine (without_call before after p)
      (without_call-Kept before (creating mine) after p e k)
Step-Kept {p} (refuses_create before after mine err e) k =
    create_refused-Kept mine err (without_call before after p)
      (without_call-Kept before (creating mine) after p e k)
Step-Kept {p} (saves before after mine id body saved e) k =
    patch_saved-Kept mine saved (without_call before after p)
      (without_call-Kept before (patching mine id body) after p e k)
Step-Kept {p} (refuses_save before after mine id body err e) k =
    create_refused-Kept mine err (without_call before after p)
      (without_call-Kept before (patching mine id body) after p e k)
Step-Kept {p} (answers before after mine asked d e) k =
    discovered-Kept mine d (without_call before after p)
      (without_call-Kept before (discovering mine asked) after p e k)
Step-Kept {p} (refuses before after mine asked err e) k =
    discovery_refused-Kept mine err (without_call before after p)
      (without_call-Kept before (discovering mine asked) after p e k)
Step-Kept {p} (lists items) k = record { newest = k.newest; derived = k.derived }
Step-Kept {p} (fails_list message) k = record { newest = k.newest; derived = k.derived }

Reach-Kept : {p : UpstreamsPage} → Reach p → Kept p
Reach-Kept (starts choices storage) = record {
  newest = tt;
  derived = λ shown. absurd (false≢true shown);
}
Reach-Kept (steps r s) = Step-Kept s (Reach-Kept r)

-- While the Add dialog is open and its slug counts as untouched, the slug is the one that the name
-- gives.
pub Reach-Follows :
    (p : UpstreamsPage)
    → Reach p
    → p.open_dialog ≡ true
    → p.editing ≡ none
    → p.slug_touched ≡ false
    → Follows p.form
Reach-Follows p r = (Reach-Kept r).derived
