-- ===== src/UpstreamsPage/Late.antt =====
-- Answers for a dialog that was closed and opened again (web/src/app/(app)/upstreams/page.tsx).
use porymcp.Base.{
  ℕ, ◌≤◌, ◌<◌, ◌≡◌, refl, ap, ◌∙◌, ◌≢◌, inl, inr, Bool, true, false, ◌&&◌, Option, List, ◌∷◌, ◌++◌,
  arith, eqb, eqb_iff, Bool-cases, Text,
}
use porymcp.Api.{Failure, Upstream}
use porymcp.Api.Errors.{edit_error_message, upstream, save}
use porymcp.UpstreamForm.{UpstreamForm}
use porymcp.UpstreamsPage.{
  UpstreamsPage, DiscoveryState, Call, created, create_refused, patch_saved, saving_ends,
  request_failed, is_gone, open_add, open_edit, Step, Reach,
}
use porymcp.UpstreamsPage.Seqs.{IsSend, Step-grown, Reach-IsSend}

-- What the dialog is made of.
pub record Dialog : Type 0 where
  pub shown : Bool
  pub editing : Option Upstream
  pub saving : Bool
  pub form_error : Text
  pub form_error_seq : ℕ
  pub slug_touched : Bool
  pub form : UpstreamForm
  pub panel : DiscoveryState
  pub form_seq : ℕ
  pub dialog_seq : ℕ

abbrev pub dialog_of : UpstreamsPage → Dialog
dialog_of p = record {
  shown = p.open_dialog;
  editing = p.editing;
  saving = p.saving;
  form_error = p.form_error;
  form_error_seq = p.form_error_seq;
  slug_touched = p.slug_touched;
  form = p.form;
  panel = p.form_discovery;
  form_seq = p.form_seq;
  dialog_seq = p.dialog_seq;
}

another : (p : UpstreamsPage) (mine : ℕ) → p.dialog_seq ≢ mine → eqb p.dialog_seq mine ≡ false
another p mine n = elim (Bool-cases (eqb p.dialog_seq mine)) [
  | inl same ↦ absurd (n ((eqb_iff p.dialog_seq mine).0 same))
  | inr other ↦ other
]

and-false : (b : Bool) → (b && false) ≡ false
and-false true = refl
and-false false = refl

request_failed-late :
    (p : UpstreamsPage) (mine : ℕ) (err : Failure)
    → eqb p.dialog_seq mine ≡ false
    → (dialog_of (request_failed err mine p) ≡ dialog_of p)
      × ((request_failed err mine p).dialog_seq ≡ p.dialog_seq)
      × ((request_failed err mine p).error ≡ edit_error_message err upstream save)
unfolding request_failed
request_failed-late p mine err other = elim (Bool-cases (is_gone err)) [
  | inl gone ↦ rw (other, and-false p.open_dialog, gone) (refl, refl, refl)
  | inr there ↦ rw (other, and-false p.open_dialog, there) (refl, refl, refl)
]

saving_ends-late :
    (mine : ℕ) (p : UpstreamsPage) → eqb p.dialog_seq mine ≡ false → saving_ends mine p ≡ p
saving_ends-late mine p other = rw other refl

-- An answer that saw another count than the dialog's.
another-late :
    (p : UpstreamsPage) (mine : ℕ) (err : Failure) (saved : Upstream)
    → p.dialog_seq ≢ mine
    → (dialog_of (created mine p) ≡ dialog_of p)
      × (dialog_of (create_refused mine err p) ≡ dialog_of p)
      × (dialog_of (patch_saved mine saved p) ≡ dialog_of p)
      × ((create_refused mine err p).error ≡ edit_error_message err upstream save)
unfolding created create_refused patch_saved
another-late p mine err saved n =
    let other = another p mine n in
    let (same, seq, told) = request_failed-late p mine err other in
    let ended =
      saving_ends-late mine (request_failed err mine p) (ap (λ s. eqb s mine) seq ∙ other) in
    (
      rw (other, other) refl,
      ap dialog_of ended ∙ same,
      rw (other, other) refl,
      ap (λ q. q.error) ended ∙ told,
    )

-- The dialog opened, for a new server or for one that is there.
pub data Opens (p : UpstreamsPage) : UpstreamsPage → Type 0 where
  opens_add : Opens p (open_add p)
  opens_edit : (u : Upstream) → Opens p (open_edit u p)

-- Any number of steps.
pub data Later (p : UpstreamsPage) : UpstreamsPage → Type 0 where
  now : Later p p
  and_then : {q r : UpstreamsPage} → Later p q → Step q r → Later p r

Opens-grown : {p r : UpstreamsPage} → Opens p r → p.dialog_seq < r.dialog_seq
unfolding open_add open_edit
Opens-grown opens_add = omega arith
Opens-grown (opens_edit u) = omega arith

Later-grown : {p q : UpstreamsPage} → Later p q → p.dialog_seq ≤ q.dialog_seq
Later-grown now = omega arith
Later-grown (and_then l s) = omega (arith, Later-grown l, Step-grown s)

-- Once the dialog was opened again while a create or a save was out, and whatever was done since,
-- the answer to that request, whichever way it went, leaves the dialog as it is, and a failure is
-- told on the page.
pub dialog_of-late :
    (p r q : UpstreamsPage) (before after : List Call) (c : Call) (mine : ℕ) (err : Failure)
    (saved : Upstream)
    → Reach p
    → p.calls ≡ before ++ (c ∷ after)
    → IsSend c mine
    → Opens p r
    → Later r q
    → (dialog_of (created mine q) ≡ dialog_of q)
      × (dialog_of (create_refused mine err q) ≡ dialog_of q)
      × (dialog_of (patch_saved mine saved q) ≡ dialog_of q)
      × ((create_refused mine err q).error ≡ edit_error_message err upstream save)
dialog_of-late p r q before after c mine err saved reached e sent opened later =
    let saw = Reach-IsSend before after reached e sent in
    let opens = Opens-grown opened in
    let since = Later-grown later in
    another-late q mine err saved (λ same. omega (arith, same, saw, opens, since))
