-- ===== src/RuleConflicts/Admits.antt =====
-- An allow list that admits nothing (allowListAdmitsNothing of web/src/lib/rule-conflicts.ts),
-- against the proxy's check of a key's lists (internal/proxy/policy.go).
use porymcp.Base.{
  ◌≡◌, refl, sym, ap, ◌∙◌, ◌≢◌, ◌⊎◌, inl, inr, Bool, true, false, false≢true, true≢false, not, ◌&&◌,
  Option, none, some, List, [], ◌∷◌, if◌then◌else◌, Bool-cases, and_parts, or_cases, or_right, any,
  is_empty, or_else, is_found, find-any, Text, ◌==◌, truthy, eq_sound,
}
use porymcp.ToolEntry.{Split, split_entry, match_tool_entry, match_split}
use porymcp.ToolEntry.Matching.{match_nil, entry_cases}
use porymcp.RuleConflicts.{
  split_tool, entry_tool, denied_by, allow_entry_denied_by, judge_entries,
  allow_list_admits_nothing, key_refuses, denied_tool,
}

-- A text that is found, and not empty, was found by the test.
found_any : (o : Option Text) → or_else o [] ≢ [] → is_found o ≡ true
found_any none n = absurd (n refl)
found_any (some e) n = refl

denied_by-any :
    (slug name : Text) (deny : List Text)
    → denied_by slug name deny ≢ []
    → any (λ d. match_tool_entry d slug name false) deny ≡ true
unfolding denied_by
denied_by-any slug name deny n =
    sym (find-any (λ d. match_tool_entry d slug name false) deny) ∙ found_any _ n

module _ (slug name target : Text) (deny : List Text) where
  abbrev is_denied : Bool
  is_denied = any (λ d. match_tool_entry d slug name false) deny

  -- An entry that matches a tool names that tool, so a deny entry for the one is for the other.
  named_is_denied :
      (s : Split) (entry : Text)
      → match_split s slug name false ≡ true
      → (s.scoped ≡ true) ⊎ ((slug ≡ target) × (s.rest ≡ entry))
      → denied_tool (split_tool s entry target) deny ≢ []
      → is_denied ≡ true
  named_is_denied s entry m k n = elim (Bool-cases s.scoped) [
    | inl on ↦ elim (Bool-cases (is_empty s.rest)) [
      | inl bare ↦ absurd ((rw (on, bare) at n) refl)
      | inr some_name ↦
          let (head, rest) =
            and_parts (s.head == slug) (s.rest == name)
              (rejoin (s.head == slug) (s.rest == name) (rw on at m)) in
          subst2 (s.head) (s.rest) (eq_sound s.head slug head) (eq_sound s.rest name rest)
            (rw (on, some_name) at n)
    ]
    | inr off ↦ elim k [
      | inl on ↦ absurd (true≢false (sym on ∙ off))
      | inr (here, whole) ↦ elim (Bool-cases (truthy target && not (is_empty entry))) [
        | inr no_target ↦ absurd ((rw (off, no_target) at n) refl)
        | inl some_target ↦
            subst2 target entry (sym here) (sym whole ∙ eq_sound s.rest name (rw off at m))
              (rw (off, some_target) at n)
      ]
    ]
  ]
    where
      rejoin : (a b : Bool) → (if not a then false else b) ≡ true → (a && b) ≡ true
      rejoin true b h = h
      rejoin false b h = h

      subst2 :
          (slug' name' : Text)
          → slug' ≡ slug
          → name' ≡ name
          → denied_by slug' name' deny ≢ []
          → is_denied ≡ true
      subst2 slug' name' p q n' = denied_by-any slug name deny (λ e. n' (rw (p, q) e))

  entry_is_denied :
      (e : Text)
      → match_tool_entry e slug name false ≡ true
      → ((split_entry e).scoped ≡ true) ⊎ (slug ≡ target)
      → allow_entry_denied_by e deny target ≢ []
      → is_denied ≡ true
  unfolding allow_entry_denied_by entry_tool match_tool_entry
  entry_is_denied e m k n =
      named_is_denied (split_entry e) e (as_split e m)
        (elim k [
          | inl on ↦ inl on
          | inr here ↦ elim (entry_cases e) [
            | inl (head, rest, _, s) ↦ inl (ap (λ (s : Split). s.scoped) s)
            | inr (_, s) ↦ inr (here, ap (λ (s : Split). s.rest) s)
          ]
        ])
        n
    where
      as_split :
          (e : Text)
          → match_tool_entry e slug name false ≡ true
          → match_split (split_entry e) slug name false ≡ true
      as_split [] m = absurd (false≢true (sym (match_nil slug name false) ∙ m))
      as_split (c ∷ e) m = m

  abbrev may_admit : Bool → Text → Bool
  may_admit group_target e =
      not (group_target && not (split_entry e).scoped) && match_tool_entry e slug name false

  judged_is_denied :
      (es : List Text) (group_target unnamed : Bool)
      → (group_target ≡ true) ⊎ (slug ≡ target)
      → judge_entries es deny group_target target unnamed ≢ []
      → any (may_admit group_target) es ≡ true
      → is_denied ≡ true
  unfolding judge_entries
  judged_is_denied [] group_target unnamed k n h = absurd (false≢true h)
  judged_is_denied (e ∷ es) group_target unnamed k n h =
      elim (Bool-cases (group_target && not (split_entry e).scoped)) [
        | inl passed ↦ judged_is_denied es group_target true k (rw passed at n) (rw passed at h)
        | inr judged ↦ elim (Bool-cases (is_found (entry_tool e target))) [
          | inr unknown ↦ absurd ((rw (judged, unknown) at n) refl)
          | inl known ↦ elim (Bool-cases (is_empty (allow_entry_denied_by e deny target))) [
            | inl free ↦ absurd ((rw (judged, known, free) at n) refl)
            | inr denied ↦
                elim (or_cases (match_tool_entry e slug name false)
                  (any (may_admit group_target) es) (rw judged at h)) [
                    | inl here ↦
                        entry_is_denied e here
                          (on_target group_target (split_entry e).scoped k judged)
                          (λ z. true≢false (sym (ap is_empty z) ∙ denied))
                    | inr later ↦
                        judged_is_denied es group_target unnamed k (rw (judged, known, denied) at n)
                          later
                  ]
          ]
        ]
      ]
    where
      on_target :
          (g scoped : Bool)
          → (g ≡ true) ⊎ (slug ≡ target)
          → (g && not scoped) ≡ false
          → (scoped ≡ true) ⊎ (slug ≡ target)
      on_target g true k h = inl refl
      on_target true false k h = absurd (true≢false h)
      on_target false false (inl g) h = absurd (false≢true g)
      on_target false false (inr here) h = inr here

-- Where the form says that an allow list admits nothing, the proxy's check of the key's two
-- lists refuses every tool: on a group any tool, on a single upstream every tool of that
-- upstream.
pub allow_list_admits_nothing-key_refuses :
    (allowed deny : List Text) (group_target : Bool) (target slug name : Text)
    → allow_list_admits_nothing allowed deny group_target target ≢ []
    → (group_target ≡ true) ⊎ (slug ≡ target)
    → key_refuses allowed deny group_target slug name ≡ true
unfolding allow_list_admits_nothing key_refuses
allow_list_admits_nothing-key_refuses [] deny group_target target slug name n k = absurd (n refl)
allow_list_admits_nothing-key_refuses (e ∷ es) deny group_target target slug name n k =
    elim (Bool-cases (any (may_admit slug name target deny group_target) (e ∷ es))) [
      | inl one ↦
          rw (judged_is_denied slug name target deny (e ∷ es) group_target false k n one) refl
      | inr nothing ↦ or_right (is_denied slug name target deny) _ (rw nothing refl)
    ]
