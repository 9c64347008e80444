-- ===== src/VirtualKeyForm/Untouched.antt =====
-- A key's form that was opened and not touched (virtualKeyPatchBody and formFromVirtualKey of
-- web/src/lib/virtual-key-form.ts).
use porymcp.Base.{
  ℕ, zero, suc, ◌+◌, ◌-◌, ◌*◌, ◌/◌, ◌%◌, ◌<◌, ◌≡◌, refl, ap, ◌∙◌, ◌≢◌, inl, inr, true, false,
  Option, none, some, List, [], ◌∷◌, arith, ltb, eqb_refl, Bool-cases, or_else, Text, eq_refl, trim,
  digits_onto, decimal,
}
use porymcp.Json.Members.{end}
use porymcp.ToolFilter.{same_set_iff}
use porymcp.ToolFilter.Defs.{same_entries}
use porymcp.Api.{VirtualKey}
use porymcp.VirtualKeyForm.{
  lists_sent, methods_sent, put_lists, virtual_key_patch_body, form_from_virtual_key, number,
  number_onto, form_limit, same_limit, limit_text, flag,
}

-- The digits of a number, read on, give the number.
number_onto-digits_onto :
    (fuel n : ℕ) (out : Text)
    → n < fuel
    → number_onto 0 (digits_onto fuel n out) ≡ number_onto n out
unfolding number_onto digits_onto
number_onto-digits_onto zero n out h = absurd (omega (arith, h))
number_onto-digits_onto (suc fuel) n out h = elim (Bool-cases (ltb n 10)) [
  | inl small ↦ rw small (ap (λ k. number_onto k out) digit)
  | inr large ↦ rw large (
      number_onto-digits_onto fuel (n / 10) ((b'0' + n % 10) ∷ out) (fewer large)
      ∙ ap (λ k. number_onto k out) digits)
]
  where
    digit : 0 * 10 + ((b'0' + n) - b'0') ≡ n
    digit = omega arith

    fewer : ltb n 10 ≡ false → n / 10 < fuel
    fewer l = ground (arith, h, l)

    digits : n / 10 * 10 + ((b'0' + n % 10) - b'0') ≡ n
    digits = omega arith

cons_some : (d : ℕ) (t : Text) → (d ∷ t) ≢ []
cons_some d t = λ k. ground arith

digits_onto_some : (fuel n : ℕ) (out : Text) → out ≢ [] → digits_onto fuel n out ≢ []
unfolding digits_onto
digits_onto_some zero n out h = h
digits_onto_some (suc fuel) n out h = elim (Bool-cases (ltb n 10)) [
  | inl small ↦ λ e. cons_some _ out (rw small at e)
  | inr large ↦ λ e.
      digits_onto_some fuel (n / 10) ((b'0' + n % 10) ∷ out) (λ k. ground arith) (rw large at e)
]

decimal_some : (n : ℕ) → decimal n ≢ []
unfolding decimal digits_onto
decimal_some n = elim (Bool-cases (ltb n 10)) [
  | inl small ↦ λ e. cons_some _ [] (rw small at e)
  | inr large ↦
      λ e. digits_onto_some n (n / 10) ((b'0' + n % 10) ∷ []) (λ k. ground arith) (rw large at e)
]

pub number-decimal : (n : ℕ) → number (decimal n) ≡ n
unfolding number decimal
number-decimal n = number_onto-digits_onto (suc n) n [] (omega arith)

form_limit-some : (t : Text) → t ≢ [] → form_limit t ≡ some (number t)
form_limit-some [] n = absurd (n refl)
form_limit-some (d ∷ t) n = refl

untouched_limit : (limit : Option ℕ) → same_limit (form_limit (limit_text limit)) limit ≡ true
untouched_limit none = refl
untouched_limit (some n) =
    ap (λ l. same_limit l (some n))
      (form_limit-some (decimal n) (decimal_some n) ∙ ap some (number-decimal n))
    ∙ eqb_refl n

same_entries-some : (l : Option (List Text)) → same_entries l (some (or_else l [])) ≡ true
unfolding same_entries
same_entries-some l = (same_set_iff (or_else l []) (or_else l [])).1 (λ e. refl)

-- A key form that was opened and not touched sends nothing, where the stored name has no space
-- around it: no rate limit, list or methods are sent back, on a key that cannot be read
-- neither.
pub virtual_key_patch_body-form_from_virtual_key :
    (vk : VirtualKey)
    → trim vk.name ≡ vk.name
    → virtual_key_patch_body vk (form_from_virtual_key vk) ≡ end
unfolding virtual_key_patch_body form_from_virtual_key lists_sent methods_sent put_lists
virtual_key_patch_body-form_from_virtual_key vk h =
    rw (h, eq_refl vk.name, untouched_limit vk.rate_limit, unsent_lists, unsent_methods) refl
  where
    unsent_lists : lists_sent vk (form_from_virtual_key vk) ≡ []
    unsent_lists = elim (Bool-cases (flag vk.lists_malformed)) [
      | inl malformed ↦ rw malformed refl
      | inr readable ↦
          rw (readable, same_entries-some vk.tool_allowlist, same_entries-some vk.tool_denylist)
            refl
    ]

    unsent_methods : methods_sent vk (form_from_virtual_key vk) ≡ false
    unsent_methods = elim (Bool-cases (flag vk.http_methods_malformed)) [
      | inl malformed ↦ rw malformed refl
      | inr readable ↦ rw (readable, same_entries-some (some (or_else vk.http_methods []))) refl
    ]
