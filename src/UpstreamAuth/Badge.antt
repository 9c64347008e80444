-- ===== src/UpstreamAuth/Badge.antt =====
-- When the Auth cell is pink (authState and authBadge of web/src/lib/upstream-auth.ts).
use porymcp.Base.{
  ◌≡◌, refl, sym, ◌∙◌, ◌≢◌, ◌↔◌, ◌⊎◌, inl, inr, Bool, false, true≢false, not, ◌&&◌, Option, none,
  some, [], if◌then◌else◌, Bool-cases, text, ◌==◌, truthy, eq_sound, eq_complete,
}
use porymcp.Api.{UpstreamOAuth}
use porymcp.UpstreamAuth.{
  AuthFields, auth_state, auth_badge, pink, amber, is_oauth, fine_state, BadgeColour, refreshes,
  expiry_text, with_tone, held, none_needed,
}

-- The setup is broken: the stored credential cannot be decrypted, or it is missing on an upstream
-- that no sign-in can give one.
abbrev pub SetupBroken : AuthFields → Type 0
SetupBroken u =
    (u.auth_status ≡ text "undecryptable")
    ⊎ ((u.auth_status ≡ text "unreadable") × (is_oauth u ≡ false))

fine_badge :
    (signs_in : Bool) (o : Option UpstreamOAuth) → auth_badge (fine_state signs_in o) ≡ none
unfolding auth_badge
fine_badge signs_in o =
    elim (Bool-cases (signs_in && not (refreshes o) && truthy (expiry_text o))) [
      | inl ends ↦ rw ends refl
      | inr stays ↦ rw stays refl
    ]

-- A cell that is not pink, of a setup that is not broken.
neither : {o : Option BadgeColour} {P : Type 0} → o ≢ some pink → (P → ⊥) → (o ≡ some pink) ↔ P
neither n k = (λ h. absurd (n h), λ p. absurd (k p))

none-pink : (none ≡ some pink) → ⊥
none-pink h = cc

amber-pink : (some amber ≡ some pink) → ⊥
amber-pink h = cc

-- The Auth cell is pink exactly when the setup is broken: a credential that cannot be decrypted,
-- or a missing one on an upstream without a sign-in.
pub auth_badge-auth_state_iff :
    (u : AuthFields) → (auth_badge (auth_state u) ≡ some pink) ↔ SetupBroken u
unfolding auth_badge auth_state
auth_badge-auth_state_iff u = elim (Bool-cases (u.auth_status == text "undecryptable")) [
  | inl lost ↦ rw lost (λ _. inl (eq_sound u.auth_status (text "undecryptable") lost), λ _. refl)
  | inr kept ↦ elim (Bool-cases (u.auth_status == text "unreadable")) [
    | inl missing ↦ elim (Bool-cases (is_oauth u)) [
      | inl signs_in ↦
          rw (kept, missing, signs_in)
            (neither amber-pink (λ b. elim b [
              | inl e ↦ true≢false (sym (eq_complete u.auth_status _ e) ∙ kept)
              | inr (_, e) ↦ true≢false e
            ]))
      | inr stored ↦
          rw (kept, missing, stored)
            (λ _. inr (eq_sound u.auth_status (text "unreadable") missing, refl), λ _. refl)
    ]
    | inr readable ↦
        rw (kept, readable)
          (neither (others u) (λ b. elim b [
            | inl e ↦ true≢false (sym (eq_complete u.auth_status _ e) ∙ kept)
            | inr (e, _) ↦ true≢false (sym (eq_complete u.auth_status _ e) ∙ readable)
          ]))
  ]
]
  where
    others :
        (u : AuthFields)
        → auth_badge (
            if u.auth_status == text "expired"
            then with_tone held (text "Expired")
            else if u.auth_status == text "none"
            then with_tone none_needed []
            else fine_state (is_oauth u) u.oauth)
          ≢ some pink
    others u = elim (Bool-cases (u.auth_status == text "expired")) [
      | inl lapsed ↦ rw lapsed amber-pink
      | inr current ↦ elim (Bool-cases (u.auth_status == text "none")) [
        | inl unneeded ↦ rw (current, unneeded) none-pink
        | inr needed ↦
            rw (current, needed) (λ h. none-pink (sym (fine_badge (is_oauth u) u.oauth) ∙ h))
      ]
    ]
