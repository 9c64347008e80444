-- ===== src/UpstreamForm/Untouched.antt =====
-- An Edit dialog that was not touched (formFromUpstream and upstreamPatchBody of
-- web/src/lib/upstream-form.ts).
use porymcp.Base.{
  ◌≡◌, refl, ap, ap₂, inl, inr, Bool, true, false, ◌&&◌, ◌||◌, none, [], if◌then◌else◌, Bool-cases,
  or_else, text, ◌==◌, eq_refl, trim_end, trim_start, trim,
}
use porymcp.Json.Members.{end}
use porymcp.Json.Json.{str}
use porymcp.GroupForm.{put_if}
use porymcp.Api.{Upstream}
use porymcp.UpstreamForm.{
  form_from_upstream, upstream_patch_body, sent_config, credential_typed, auth_type_sent, same_flag,
  then_param, trim_name, auth_config_from, header_shaped, query_shaped,
}

same_flag_refl : (b : Bool) → same_flag b b ≡ true
same_flag_refl true = refl
same_flag_refl false = refl

and-false : (b : Bool) → (b && false) ≡ false
and-false true = refl
and-false false = refl

nothing_typed : (u : Upstream) → sent_config (form_from_upstream u) ≡ none
unfolding sent_config form_from_upstream credential_typed trim trim_start trim_end
nothing_typed u =
    ap
      (λ b.
        if b
        then then_param (trim_name (text "header") (auth_config_from (form_from_upstream u)))
        else none)
      untyped
  where
    untyped : credential_typed (form_from_upstream u) ≡ false
    untyped = elim (Bool-cases (u.auth_type == text "bearer")) [
      | inl bearer ↦ rw bearer refl
      | inr other ↦ elim (Bool-cases (header_shaped u.auth_type || query_shaped u.auth_type)) [
        | inl shaped ↦ rw (other, shaped) refl
        | inr neither ↦ elim (Bool-cases (u.auth_type == text "oauth")) [
          | inl client ↦ rw (other, neither, client) refl
          | inr last ↦ rw (other, neither, last) refl
        ]
      ]
    ]

-- A form that was opened on an upstream and not touched sends nothing, where the stored name,
-- address and test path have no space around them.
pub upstream_patch_body-form_from_upstream :
    (u : Upstream)
    → trim u.name ≡ u.name
    → trim u.url ≡ u.url
    → trim (or_else u.test_path []) ≡ or_else u.test_path []
    → upstream_patch_body u (form_from_upstream u) ≡ end
unfolding upstream_patch_body form_from_upstream auth_type_sent
upstream_patch_body-form_from_upstream u n a t =
    rw
      (
        n,
        a,
        t,
        eq_refl u.name,
        eq_refl u.url,
        eq_refl (or_else u.test_path []),
        eq_refl (or_else u.description []),
        eq_refl u.transport,
        eq_refl u.auth_type,
        same_flag_refl u.enabled,
        nothing_typed u,
      )
      (ap₂
        (λ a b.
          put_if a (text "test_path") (str (or_else u.test_path []))
            (put_if b (text "auth_type") (str u.auth_type) end))
        (and-false (u.kind == text "http")) (and-false (u.auth_type == text "none")))
