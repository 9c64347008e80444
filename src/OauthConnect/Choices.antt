-- ===== src/OauthConnect/Choices.antt =====
-- What survives a sign-in at the vendor, and what is said after a disconnect
-- (web/src/lib/oauth-connect.ts).
use porymcp.Base.{
  ◌≡◌, refl, sym, ap, ◌∙◌, inl, inr, false, false≢true, Option, some, List, [], ◌∷◌, map,
  Bool-cases, filter, Text, text, ◌==◌, eq_sound, eq_complete,
}
use porymcp.Json.{Json, stringify}
use porymcp.Json.Json.{obj}
use porymcp.OauthConnect.{
  Storage, Choice, read_choices, kept_choices, save_register_choices, load_register_choices,
  parsed_choices, RevokeKind, connected, client, unreadable, revoke_result_line,
}

read_choices-kept_choices :
    (choices : List Choice)
    → map (λ c. c.id) (read_choices (kept_choices choices))
      ≡ map (λ c. c.id) (filter (λ c. c.ticked) choices)
unfolding read_choices kept_choices
read_choices-kept_choices [] = refl
read_choices-kept_choices (c ∷ cs) = elim (Bool-cases c.ticked) [
  | inl on ↦ rw on (ap (◌∷◌ c.id) (read_choices-kept_choices cs))
  | inr off ↦ rw off (read_choices-kept_choices cs)
]

-- In a tab whose storage is read and written, the choices that are loaded after a save are the
-- ticked ones, given that JSON.parse reads what JSON.stringify made of them.
pub load_register_choices-save_register_choices :
    (parse : Text → Option Json) (s : Storage) (choices : List Choice)
    → parse (stringify (obj (kept_choices choices))) ≡ some (obj (kept_choices choices))
    → s.refuses_write ≡ false
    → s.refuses_read ≡ false
    → map (λ c. c.id) (load_register_choices parse (save_register_choices (some s) choices))
      ≡ map (λ c. c.id) (filter (λ c. c.ticked) choices)
unfolding save_register_choices stringify parsed_choices read_choices
load_register_choices-save_register_choices parse s choices law writes reads =
    rw (writes, reads, law) (read_choices-kept_choices choices)

abbrev revoked_line : Text
revoked_line = text "Disconnected. The vendor revoked the token."

another_line : (t : Text) → (t == revoked_line) ≡ false → t ≡ revoked_line → ⊥
another_line t n h = false≢true (sym n ∙ eq_complete t revoked_line h)

-- Only for a connected row, and an answer that says so, is a token said to be revoked.
pub revoke_result_line-revoked :
    (said : Text) (kind : RevokeKind)
    → revoke_result_line said kind ≡ text "Disconnected. The vendor revoked the token."
    → (kind ≡ connected) × (said ≡ text "revoked")
unfolding revoke_result_line text
revoke_result_line-revoked said unreadable h =
    absurd (another_line (revoke_result_line said unreadable) refl h)
revoke_result_line-revoked said client h =
    absurd (another_line (revoke_result_line said client) refl h)
revoke_result_line-revoked said connected h = elim (Bool-cases (said == text "no_token")) [
  | inl no_token ↦ absurd (another_line _ refl (rw no_token at h))
  | inr token ↦ elim (Bool-cases (said == text "revoked")) [
    | inl yes_revoked ↦ (refl, eq_sound said (text "revoked") yes_revoked)
    | inr n ↦ elim (Bool-cases (said == text "failed")) [
      | inl failed ↦ absurd (another_line _ refl (rw (token, n, failed) at h))
      | inr answered ↦ elim (Bool-cases (said == text "not_offered")) [
        | inl no_way ↦ absurd (another_line _ refl (rw (token, n, answered, no_way) at h))
        | inr other ↦ absurd (another_line _ refl (rw (token, n, answered, other) at h))
      ]
    ]
  ]
]
