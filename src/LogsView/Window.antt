-- ===== src/LogsView/Window.antt =====
-- When the Logs page asks for nothing (customProblems and logQuery of web/src/lib/logs-view.ts).
use porymcp.Base.{
  ℕ, ◌≡◌, refl, sym, ◌∙◌, ◌↔◌, ◌⊎◌, inl, inr, Bool, true, false, false≢true, ◌&&◌, ◌||◌, none, some,
  [], ◌∷◌, arith, if◌then◌else◌, Bool-cases, and_parts, or_cases, or_right, is_empty, or_else, Text,
}
use porymcp.LogsView.{
  LogFilters, Period, day, week, month, custom, is_custom, Dates, SearchParams, from_local_input,
  custom_problems, since_problem, sends_none, log_query, log_params,
}

-- The start that was typed is no full date and time, or there is none.
abbrev pub NoStart : Dates → LogFilters → Type 0
NoStart d f = or_else (from_local_input d f.since) [] ≡ []

-- A Custom period that cannot be asked for.
abbrev pub Unasked : Dates → LogFilters → Type 0
Unasked d f = (f.period ≡ custom) × ((f.since_bad ≡ true) ⊎ (NoStart d f ⊎ (f.until_bad ≡ true)))

custom_iff : (p : Period) → (is_custom p ≡ true) ↔ (p ≡ custom)
custom_iff day = (λ h. cc, λ h. cc)
custom_iff week = (λ h. cc, λ h. cc)
custom_iff month = (λ h. cc, λ h. cc)
custom_iff custom = (λ h. refl, λ h. refl)

empty_iff : (t : Text) → (is_empty t ≡ true) ↔ (t ≡ [])
empty_iff [] = (λ h. refl, λ h. refl)
empty_iff (c ∷ t) = (λ h. absurd (false≢true h), λ h. absurd (ground arith))

-- The tests, in one line.
sends_none_lem :
    (d : Dates) (f : LogFilters)
    → sends_none d f ≡ (
        is_custom f.period
        && (f.since_bad || (is_empty (or_else (from_local_input d f.since) []) || f.until_bad)))
unfolding sends_none custom_problems since_problem
sends_none_lem d f = elim (Bool-cases (is_custom f.period)) [
  | inr preset ↦ rw preset refl
  | inl chosen ↦ elim (Bool-cases f.since_bad) [
    | inl bad ↦ rw (chosen, bad) refl
    | inr read ↦ elim (Bool-cases (is_empty (or_else (from_local_input d f.since) []))) [
      | inl missing ↦ rw (chosen, read, missing) refl
      | inr there ↦ rw (chosen, read, there) refl
    ]
  ]
]

none_iff : (b : Bool) (q : Text) → ((if b then none else some q) ≡ none) ↔ (b ≡ true)
none_iff true q = (λ h. refl, λ h. refl)
none_iff false q = (λ h. cc, λ h. absurd (false≢true h))

problem : (a b c : Bool) → (a ≡ true) ⊎ ((b ≡ true) ⊎ (c ≡ true)) → (a || (b || c)) ≡ true
problem a b c (inl h) = rw h refl
problem a b c (inr (inl h)) = or_right a (b || c) (rw h refl)
problem a b c (inr (inr h)) = or_right a (b || c) (or_right b c h)

module _ (d : Dates) (browser : SearchParams) where
  -- Nothing is asked for exactly in a Custom period whose start is not there or not read, or whose
  -- end the browser could not read.
  pub log_query-none_iff :
      (f : LogFilters) (anchor : ℕ) → (log_query d browser f anchor ≡ none) ↔ Unasked d f
  unfolding log_query
  log_query-none_iff f anchor =
      let stops = none_iff (sends_none d f) (browser.print (log_params d f anchor)) in
      let start = empty_iff (or_else (from_local_input d f.since) []) in
      (
        λ h.
            let (c, p) = and_parts (is_custom f.period) _ (sym (sends_none_lem d f) ∙ stops.0 h) in
            (
              (custom_iff f.period).0 c,
              elim (or_cases f.since_bad _ p) [
                | inl bad ↦ inl bad
                | inr q ↦
                    elim (or_cases (is_empty (or_else (from_local_input d f.since) [])) f.until_bad
                      q) [ inl missing ↦ inr (inl (start.0 missing)) | inr bad ↦ inr (inr bad) ]
              ],
            ),
        λ k. stops.1 (
            sends_none_lem d f
            ∙ rw ((custom_iff f.period).1 k.0) (
                problem f.since_bad (is_empty (or_else (from_local_input d f.since) [])) f.until_bad
                  (elim k.1 [
                    | inl bad ↦ inl bad
                    | inr (inl missing) ↦ inr (inl (start.1 missing))
                    | inr (inr bad) ↦ inr (inr bad)
                  ]))),
      )
