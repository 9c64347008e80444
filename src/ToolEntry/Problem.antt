-- ===== src/ToolEntry/Problem.antt =====
-- What the dashboard sends (entryProblem of web/src/lib/tool-entry.ts).
use porymcp.Base.{
  ℕ, ◌≡◌, refl, sym, ◌∙◌, ◌≢◌, ◌↔◌, inl, inr, Bool, true, false, false≢true, not, List, [], ◌∷◌,
  arith, Bool-cases, and_parts, not-true, all, All, Text, text,
}
use porymcp.Json.{quote}
use porymcp.ToolEntry.Slug.{valid_slug}
use porymcp.ToolEntry.{
  Side, allow, deny, EntryKind, tool, prefix, split_entry, clean_entry, refused_point, code_points,
  entry_problem, split_problem, scoped_problem,
}
use porymcp.ToolEntry.Separator.{scoped_split}
use porymcp.ToolEntry.Matching.{Cut, Bare, Cut-unique, entry_cases}

-- An entry that the API accepts on the given side of a rule: its text is clean; where it names a
-- member, that is a slug and, for a tool, a name follows; and an allow entry on a group names a
-- member.
pub record IsAcceptable (e : Text) (kind : EntryKind) (side : Side) (group_target : Bool)
    : Type 0 where
  pub some_text : e ≢ []
  pub clean : All (λ cp. refused_point cp ≡ false) (code_points e)
  pub member :
      (head rest : Text) → Cut e head rest → (valid_slug head ≡ true) × (rest ≡ [] → kind ≡ prefix)
  pub named : Bare e → side ≡ allow → group_target ≡ true → ⊥

-- Each step of the loop passes.
all_clean_iff :
    (cps : List ℕ)
    → (all (λ cp. not (refused_point cp)) cps ≡ true) ↔ All (λ cp. refused_point cp ≡ false) cps
all_clean_iff [] = (λ _. tt, λ _. refl)
all_clean_iff (cp ∷ cps) =
    let iff = all_clean_iff cps in
    (λ h. let (p, q) = and_parts _ _ h in (not-true _ p, iff.0 q), λ k. rw (k.0) (iff.1 k.1))

pub clean_entry_iff :
    (c : ℕ) (e : Text)
    → (clean_entry (c ∷ e) ≡ true) ↔ All (λ cp. refused_point cp ≡ false) (code_points (c ∷ e))
unfolding clean_entry
clean_entry_iff c e = all_clean_iff (code_points (c ∷ e))

scoped_problem_iff :
    (entry shown head rest : Text) (kind : EntryKind) (q : ℕ)
    → (scoped_problem entry (q ∷ shown) (scoped_split head rest) kind ≡ [])
      ↔ ((valid_slug head ≡ true) × (rest ≡ [] → kind ≡ prefix))
scoped_problem_iff entry shown head [] tool q =
    (λ h. ground arith, λ k. absurd (tool_ne_prefix (k.1 refl)))
  where
    tool_ne_prefix : tool ≡ prefix → ⊥
    tool_ne_prefix e = cc
scoped_problem_iff entry shown head [] prefix q = (λ h. (ground arith, λ _. refl), λ k. rw (k.0))
scoped_problem_iff entry shown head (c ∷ rest) kind q =
    (λ h. (ground arith, λ e. ground arith), λ k. rw (k.0))

bare_problem_iff :
    (entry shown : Text) (kind : EntryKind) (side : Side) (group_target : Bool) (q : ℕ)
    → (split_problem entry
          (q ∷ shown)
          (record { head = []; rest = entry; scoped = false })
          kind
          side
          group_target
        ≡ [])
      ↔ (side ≡ allow → group_target ≡ true → ⊥)
bare_problem_iff entry shown kind allow true q = (λ h. ground arith, λ k. absurd (k refl refl))
bare_problem_iff entry shown kind allow false q = (λ h _ e. ground arith, λ _. refl)
bare_problem_iff entry shown kind deny group_target q = (λ h e. cc, λ _. refl)

split_problem_iff :
    (e shown : Text) (kind : EntryKind) (side : Side) (group_target : Bool) (q : ℕ)
    → (split_problem e (q ∷ shown) (split_entry e) kind side group_target ≡ []) ↔ (
        ((head rest : Text)
          → Cut e head rest
          → (valid_slug head ≡ true) × (rest ≡ [] → kind ≡ prefix))
        × (Bare e → side ≡ allow → group_target ≡ true → ⊥))
split_problem_iff e shown kind side group_target q = elim (entry_cases e) [
  | inl (head, rest, cut, s) ↦
      let iff = scoped_problem_iff e shown head rest kind q in
      (
        λ h. (
          λ head' rest' cut'.
              let (p, r) = Cut-unique e head rest head' rest' cut cut' in
              rw (← p, ← r) (iff.0 (rw s at h)),
          λ bare. absurd (bare head rest cut),
        ),
        λ k. rw s (iff.1 (k.0 head rest cut)),
      )
  | inr (bare, s) ↦
      let iff = bare_problem_iff e shown kind side group_target q in
      (
        λ h. (λ head rest cut. absurd (bare head rest cut), λ _. iff.0 (rw s at h)),
        λ k. rw s (iff.1 (k.1 bare)),
      )
]

not_clean :
    (c : ℕ) (e : Text) (kind : EntryKind) (side : Side) (group_target : Bool)
    → clean_entry (c ∷ e) ≡ false
    → entry_problem (c ∷ e) kind side group_target ≢ []
unfolding entry_problem quote
not_clean c e kind side group_target d h = ground arith

when_clean :
    (c : ℕ) (e : Text) (kind : EntryKind) (side : Side) (group_target : Bool)
    → clean_entry (c ∷ e) ≡ true
    → entry_problem (c ∷ e) kind side group_target
      ≡ split_problem (c ∷ e) (quote (c ∷ e)) (split_entry (c ∷ e)) kind side group_target
unfolding entry_problem
when_clean c e kind side group_target d = rw d

split_problem_quoted :
    (e e' : Text) (kind : EntryKind) (side : Side) (group_target : Bool)
    → (split_problem e (quote e') (split_entry e) kind side group_target ≡ []) ↔ (
        ((head rest : Text)
          → Cut e head rest
          → (valid_slug head ≡ true) × (rest ≡ [] → kind ≡ prefix))
        × (Bare e → side ≡ allow → group_target ≡ true → ⊥))
unfolding quote
split_problem_quoted e e' kind side group_target = split_problem_iff e _ kind side group_target 0x22

empty_problem :
    (kind : EntryKind) (side : Side) (group_target : Bool)
    → entry_problem [] kind side group_target ≢ []
unfolding entry_problem text
empty_problem kind side group_target h = ground arith

-- entry_problem is the empty text exactly for the entries that the API accepts: some text,
-- every code point clean, a member that is a valid slug and, for a tool, a name behind it, and
-- a member named on the allow side of a group.
pub entry_problem_iff :
    (e : Text) (kind : EntryKind) (side : Side) (group_target : Bool)
    → (entry_problem e kind side group_target ≡ []) ↔ IsAcceptable e kind side group_target
entry_problem_iff [] kind side group_target =
    (λ h. absurd (empty_problem kind side group_target h), λ a. absurd (a.some_text refl))
entry_problem_iff (c ∷ e) kind side group_target = elim (Bool-cases (clean_entry (c ∷ e))) [
  | inl clean ↦
      let same = when_clean c e kind side group_target clean in
      let iff = split_problem_quoted (c ∷ e) (c ∷ e) kind side group_target in
      (
        λ h.
            let (member, named) = iff.0 (sym same ∙ h) in
            record {
              some_text = λ k. ground arith;
              clean = (clean_entry_iff c e).0 clean;
              member = member;
              named = named;
            },
        λ a. same ∙ iff.1 (a.member, a.named),
      )
  | inr dirty ↦ (
    λ h. absurd (not_clean c e kind side group_target dirty h),
    λ a. absurd (false≢true (sym dirty ∙ (clean_entry_iff c e).1 a.clean)),
  )
]
