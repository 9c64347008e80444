-- ===== src/UpstreamForm/Removal.antt =====
-- What a save of the Edit dialog takes away is said beside it (removeCredentialDescription,
-- clearStoredDescription and credentialRequired of web/src/lib/upstream-form.ts).
use porymcp.Base.{
  ◌≡◌, refl, sym, ◌∙◌, ◌⊎◌, inl, inr, true, false, true≢false, not, ◌&&◌, ◌||◌, some, Bool-cases,
  and_parts, or_cases, not-true, or_false, not-false, is_found, text, ◌==◌, eq_sound, eq_complete,
}
use porymcp.Api.{Upstream}
use porymcp.UpstreamForm.{UpstreamForm, auth_type_sent, credential_required}
use porymcp.UpstreamForm.Notes.{remove_credential_description, clear_stored_description}

-- A PATCH that sets the auth type to None on an upstream with a stored value is announced: by the
-- sentence that the credential is removed, or by the description of the ticked box.
pub auth_type_sent-announced :
    (before : Upstream) (f : UpstreamForm)
    → auth_type_sent before f ≡ true
    → f.auth_type ≡ text "none"
    → before.auth_configured ≡ true
    → is_found (remove_credential_description (some before) f)
        || is_found (clear_stored_description (some before) f)
      ≡ true
unfolding remove_credential_description clear_stored_description
auth_type_sent-announced before f s e c =
    let here = eq_complete f.auth_type (text "none") e in
    elim (Bool-cases (before.auth_type == text "none")) [
      | inl was ↦ rw (was, here, c) refl
      | inr other ↦ rw (other, here, c) refl
    ]

-- The box is on the screen whenever its tick changes the request.
pub clear_stored-shown :
    (before : Upstream) (f : UpstreamForm)
    → auth_type_sent before f ≡ true
    → auth_type_sent before (record f { clear_stored = false }) ≡ false
    → (before.auth_type ≡ text "none") × (f.auth_type ≡ text "none") × (f.clear_stored ≡ true)
unfolding auth_type_sent
clear_stored-shown before f s k =
    let (same, _) =
      or_false (not (f.auth_type == before.auth_type)) (f.auth_type == text "none" && false) k in
    let kept = eq_sound f.auth_type before.auth_type (not-false _ same) in
    let (chosen, ticked) = and_parts (f.auth_type == text "none") f.clear_stored (rest same) in
    let at_none = eq_sound f.auth_type (text "none") chosen in (sym kept ∙ at_none, at_none, ticked)
  where
    rest :
        not (f.auth_type == before.auth_type) ≡ false
        → (f.auth_type == text "none" && f.clear_stored) ≡ true
    rest same =
        elim (or_cases (not (f.auth_type == before.auth_type))
          (f.auth_type == text "none" && f.clear_stored) s) [
            | inl other ↦ absurd (true≢false (sym other ∙ same))
            | inr h ↦ h
          ]

-- Where the dialog asks for no credential, a PATCH carries an auth type only to None or OAuth.
pub credential_required-auth_type :
    (before : Upstream) (f : UpstreamForm)
    → credential_required before f ≡ false
    → auth_type_sent before f ≡ true
    → (f.auth_type ≡ text "none") ⊎ (f.auth_type ≡ text "oauth")
unfolding credential_required auth_type_sent
credential_required-auth_type before f r s = elim (Bool-cases (f.auth_type == text "oauth")) [
  | inl oauth ↦ inr (eq_sound f.auth_type (text "oauth") oauth)
  | inr other ↦
      elim (or_cases (not (f.auth_type == before.auth_type))
        (f.auth_type == text "none" && f.clear_stored) s) [
          | inr ticked ↦ inl (
              eq_sound f.auth_type (text "none")
                (and_parts (f.auth_type == text "none") f.clear_stored ticked).0)
          | inl changed ↦ inl (
              eq_sound f.auth_type (text "none")
                (not-false _ (rw (other, not-true _ changed) at r)))
        ]
]
