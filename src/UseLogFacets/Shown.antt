-- ===== src/UseLogFacets/Shown.antt =====
-- The facet lists that are shown (facetsFor in web/src/lib/use-log-facets.ts).
use porymcp.Base.{
  ◌≡◌, refl, sym, ap, subst, ◌∙◌, inl, inr, Option, none, some, List, [], Bool-cases, Text, ◌==◌,
  eq_sound,
}
use porymcp.LogsView.Options.{FacetAnswer, Facets, facets_for}
use porymcp.UseLogFacets.{
  Request, FacetHook, query_effect, fetch_effect, is_due, send_for, same_fq, same_inputs,
  run_effects, Outcome, counts, fails, settle_facets, answer_of, Reach, renders, effects, waits,
  answers, mounts, steps,
}

answer_of-fq : (fq : Text) (o : Outcome) → (answer_of fq o).fq ≡ fq
answer_of-fq fq (counts facets) = refl
answer_of-fq fq (fails err) = refl

send_for-answer : (fq : Option Text) (s : FacetHook) → (send_for fq s).answer ≡ s.answer
send_for-answer none s = refl
send_for-answer (some fq) s = refl

fetch_effect-answer : (s : FacetHook) → (fetch_effect s).answer ≡ s.answer
unfolding fetch_effect
fetch_effect-answer s = elim (Bool-cases (same_inputs s.ran s.shown)) [
  | inl idle ↦ rw idle refl
  | inr new ↦ elim (Bool-cases (is_due s)) [
    | inl due ↦ rw (new, due) (send_for-answer s.shown.fq s)
    | inr held ↦ rw (new, held) refl
  ]
]

query_effect-answer : (s : FacetHook) → (query_effect s).answer ≡ s.answer
unfolding query_effect
query_effect-answer s = elim (Bool-cases (same_fq s.ran s.shown)) [
  | inl same ↦ rw same refl
  | inr other ↦ rw other refl
]

module _ (Served : Text → Outcome → Type 0) where
  -- An answer that the server gave to the query that it stands under.
  data IsSaid : Option FacetAnswer → Type 0 where
    nothing : IsSaid none
    said : (fq : Text) (o : Outcome) → Served fq o → IsSaid (some (answer_of fq o))

  run_effects-answer : (s : FacetHook) → (run_effects s).answer ≡ s.answer
  unfolding run_effects
  run_effects-answer s = fetch_effect-answer (query_effect s) ∙ query_effect-answer s

  settle_facets-IsSaid :
      (before : List Request) (r : Request) (after : List Request) (o : Outcome) (s : FacetHook)
      → Served r.fq o
      → IsSaid s.answer
      → IsSaid (settle_facets before r after o s).answer
  unfolding settle_facets
  settle_facets-IsSaid before r after o s served k = elim (Bool-cases r.aborted) [
    | inl gone ↦ rw gone k
    | inr kept ↦ rw kept (said r.fq o served)
  ]

  Reach-IsSaid : {s : FacetHook} → Reach Served s → IsSaid s.answer
  Reach-IsSaid (mounts fq list_answered) = nothing
  Reach-IsSaid (steps {s} p (renders fq list_answered)) = Reach-IsSaid p
  Reach-IsSaid (steps {s} p effects) = subst IsSaid (sym (run_effects-answer s)) (Reach-IsSaid p)
  Reach-IsSaid (steps {s} p (waits fq e)) = Reach-IsSaid p
  Reach-IsSaid (steps {s} p (answers before r after o e served)) =
      settle_facets-IsSaid before r after o s served (Reach-IsSaid p)

  -- What the page may show of a query: nothing yet, or what the server answered to that query.
  pub data IsFor (fq : Option Text) : Facets → Type 0 where
    not_yet : IsFor fq (record { facets = none; error = [] })
    served_for :
        (q : Text) (o : Outcome)
        → fq ≡ some q
        → Served q o
        → IsFor fq (record { facets = (answer_of q o).facets; error = (answer_of q o).error })

  shown-IsFor :
      (answer : Option FacetAnswer) (fq : Option Text)
      → IsSaid answer
      → IsFor fq (facets_for answer fq)
  unfolding facets_for
  shown-IsFor none fq nothing = not_yet
  shown-IsFor (some _) none (said q o served) = not_yet
  shown-IsFor (some _) (some f) (said q o served) = elim (Bool-cases ((answer_of q o).fq == f)) [
    | inl here ↦ rw here (
        served_for q o (ap some (sym (eq_sound (answer_of q o).fq f here) ∙ answer_of-fq q o))
          served)
    | inr other ↦ rw other not_yet
  ]

  -- Whatever is rendered, waited for and answered, and in whatever order, the facet lists that
  -- the page shows are empty, or what the server answered to the query of that very render.
  pub Reach-IsFor :
      (s : FacetHook) → Reach Served s → IsFor s.shown.fq (facets_for s.answer s.shown.fq)
  Reach-IsFor s p = shown-IsFor s.answer s.shown.fq (Reach-IsSaid p)
