-- ===== src/Clients/Keys.antt =====
-- The table keys of the Codex snippet (tomlKeys of web/src/lib/clients.ts).
use porymcp.Base.{
  ℕ, zero, suc, ◌≤◌, ◌≡◌, refl, sym, ap, subst, ◌∙◌, ◌≢◌, inl, inr, true, false, false≢true,
  true≢false, List, [], ◌∷◌, ◌++◌, arith, eqb_refl, Bool-cases, or_cases, or_false, length, Text,
  ◌==◌, eq_sound, eq_refl, includes, Distinct, SubsetOf, length-SubsetOf, decimal,
}
use porymcp.VirtualKeyForm.{number}
use porymcp.VirtualKeyForm.Untouched.{number-decimal}
use porymcp.Clients.{
  SnippetServer, suffixed, pick_key, toml_key, toml_keys_from, toml_keys, dashes_to_unders,
}

append_cancel : (b s t : Text) → (b ++ s == b ++ t) ≡ (s == t)
append_cancel [] s t = refl
append_cancel (c ∷ b) s t = rw (eqb_refl c) (append_cancel b s t)

-- Two numbers give two suffixes.
suffixed_other : (base : Text) (m n : ℕ) → m ≢ n → (suffixed base m == suffixed base n) ≡ false
unfolding suffixed
suffixed_other base m n d = elim (Bool-cases (decimal m == decimal n)) [
  | inr other ↦ append_cancel base (b'_' ∷ decimal m) (b'_' ∷ decimal n) ∙ other
  | inl same ↦ absurd (
      d (
        sym (number-decimal m)
        ∙ ap number (eq_sound (decimal m) (decimal n) same)
        ∙ number-decimal n))
]

longer_other : (b s : Text) (c : ℕ) → (b ++ (c ∷ s) == b) ≡ false
longer_other [] s c = refl
longer_other (x ∷ b) s c = rw (eqb_refl x) (longer_other b s c)

module _ (used : List Text) (base : Text) where
  -- The keys that the loop may try: this one, and those of the rounds to come.
  tries : ℕ → ℕ → Text → List Text
  tries zero n key = key ∷ []
  tries (suc fuel) n key = key ∷ tries fuel (suc n) (suffixed base n)

  length-tries : (fuel n : ℕ) (key : Text) → length (tries fuel n key) ≡ suc fuel
  unfolding tries
  length-tries zero n key = refl
  length-tries (suc fuel) n key = ap suc (length-tries fuel (suc n) (suffixed base n))

  -- None of the suffixes to come is the key.
  Fresh : ℕ → Text → Type 0
  Fresh n key = (i : ℕ) → n ≤ i → (suffixed base i == key) ≡ false

  Fresh-suffixed : (n : ℕ) → Fresh (suc n) (suffixed base n)
  unfolding Fresh
  Fresh-suffixed n i le = suffixed_other base i n (λ e. omega (arith, le, e))

  tries_out :
      (fuel n : ℕ) (key other : Text)
      → (key == other) ≡ false
      → Fresh n other
      → includes (tries fuel n key) other ≡ false
  unfolding tries Fresh
  tries_out zero n key other h f = rw h refl
  tries_out (suc fuel) n key other h f = rw h (
      tries_out fuel (suc n) (suffixed base n) other (f n (omega arith))
        (λ i le. f i (omega (arith, le))))

  Distinct-tries : (fuel n : ℕ) (key : Text) → Fresh n key → Distinct (tries fuel n key)
  unfolding tries Fresh
  Distinct-tries zero n key f = (refl, tt)
  Distinct-tries (suc fuel) n key f = (
    tries_out fuel (suc n) (suffixed base n) key (f n (omega arith))
        (λ i le. f i (omega (arith, le))),
    Distinct-tries fuel (suc n) (suffixed base n) (Fresh-suffixed n),
  )

  -- Where the loop ends on a key that is in use, all that it tried are.
  all_used :
      (fuel n : ℕ) (key : Text)
      → includes used (pick_key fuel n used base key) ≡ true
      → SubsetOf (tries fuel n key) used
  unfolding tries pick_key
  all_used zero n key h e m = elim (or_cases (key == e) false m) [
    | inl same ↦ subst (λ k. includes used k ≡ true) (eq_sound key e same) h
    | inr k ↦ absurd (false≢true k)
  ]
  all_used (suc fuel) n key h e m = elim (Bool-cases (includes used key)) [
    | inr free ↦ absurd (false≢true (sym free ∙ rw free at h))
    | inl here ↦ elim (or_cases (key == e) (includes (tries fuel (suc n) (suffixed base n)) e) m) [
      | inl same ↦ subst (λ k. includes used k ≡ true) (eq_sound key e same) here
      | inr later ↦ all_used fuel (suc n) (suffixed base n) (rw here at h) e later
    ]
  ]

  Fresh-base : Fresh 2 base
  unfolding Fresh suffixed
  Fresh-base i le = longer_other base (decimal i) b'_'

  -- As many rounds as there are keys in use are enough for a key that is not.
  toml_key-unused : Distinct used → includes used (toml_key used base) ≡ false
  unfolding toml_key
  toml_key-unused d = elim (Bool-cases (includes used (pick_key (length used) 2 used base base))) [
    | inr free ↦ free
    | inl taken ↦ absurd (
        too_many (
          length-SubsetOf (tries (length used) 2 base) used
            (Distinct-tries (length used) 2 base Fresh-base) d
            (all_used (length used) 2 base taken)))
  ]
    where
      too_many : length (tries (length used) 2 base) ≤ length used → ⊥
      too_many le = omega (arith, le, length-tries (length used) 2 base)

once :
    (keys used : List Text) (key : Text)
    → (includes keys key ≡ true → includes (key ∷ used) key ≡ false)
    → includes keys key ≡ false
once keys used key h = elim (Bool-cases (includes keys key)) [
  | inr out ↦ out
  | inl twice ↦
      absurd
        (true≢false (sym (eq_refl key) ∙ (or_false (key == key) (includes used key) (h twice)).0))
]

toml_keys_from-Distinct :
    (used : List Text) (servers : List SnippetServer)
    → Distinct used
    → Distinct (toml_keys_from used servers)
      × ((e : Text) → includes (toml_keys_from used servers) e ≡ true → includes used e ≡ false)
unfolding toml_keys_from
toml_keys_from-Distinct used [] d = (tt, λ e h. absurd (false≢true h))
toml_keys_from-Distinct used (s ∷ servers) d =
    let key = toml_key used (dashes_to_unders s.name) in
    let free = toml_key-unused used (dashes_to_unders s.name) d in
    let (rest, apart) = toml_keys_from-Distinct (key ∷ used) servers (free, d) in
    (
      (once (toml_keys_from (key ∷ used) servers) used key (apart key), rest),
      λ e h. elim (or_cases (key == e) (includes (toml_keys_from (key ∷ used) servers) e) h) [
        | inl same ↦ subst (λ k. includes used k ≡ false) (eq_sound key e same) free
        | inr later ↦ (or_false (key == e) (includes used e) (apart e later)).1
      ],
    )

length-toml_keys_from :
    (used : List Text) (servers : List SnippetServer)
    → length (toml_keys_from used servers) ≡ length servers
unfolding toml_keys_from
length-toml_keys_from used [] = refl
length-toml_keys_from used (s ∷ servers) =
    ap suc (length-toml_keys_from (toml_key used (dashes_to_unders s.name) ∷ used) servers)

-- Every server gets a table key of its own: there are as many keys as servers, and no two are
-- the same, whatever the names.
pub toml_keys-Distinct :
    (servers : List SnippetServer)
    → Distinct (toml_keys servers) × (length (toml_keys servers) ≡ length servers)
unfolding toml_keys
toml_keys-Distinct servers =
    ((toml_keys_from-Distinct [] servers tt).0, length-toml_keys_from [] servers)
