-- ===== src/UseCatalogue/Runs.antt =====
-- The calls that a run has out (discoverMembers of web/src/lib/discover-many.ts).
use porymcp.Base.{
  ℕ, zero, suc, ◌+◌, ◌≤◌, ◌≡◌, refl, ap, inl, inr, ◌||◌, List, [], ◌∷◌, arith, Bool-cases, length,
  length-append, truthy,
}
use porymcp.Catalogue.{Member}
use porymcp.DiscoverMany.Order.{settle_call-stale, settle_call-live, out}
use porymcp.DiscoverMany.{
  Run, Settled, answered, refused, next_call, turn, report, settle_call, start_workers, is_429, min,
}

pub next_call-waiting :
    (rest : List Member) (r : Run) → length (next_call rest r).waiting ≤ suc (length r.waiting)
unfolding next_call
next_call-waiting [] r = omega arith
next_call-waiting (m ∷ rest) r = elim (Bool-cases (truthy r.rate_limited || r.stale)) [
  | inl shut ↦ rw shut (omega arith)
  | inr runs ↦ rw runs (omega (arith, length-append r.waiting (m ∷ [])))
]

pub start_workers-waiting :
    (n : ℕ) (r : Run) → length (start_workers n r).waiting ≤ n + length r.waiting
unfolding start_workers turn
start_workers-waiting zero r = omega arith
start_workers-waiting (suc n) r =
    omega (arith, start_workers-waiting n (turn r), next_call-waiting r.rest r)

report-waiting : (m : Member) (o : Settled) (r : Run) → (report m o r).waiting ≡ r.waiting
unfolding report
report-waiting m (answered d) r = refl
report-waiting m (refused err) r = elim (Bool-cases (is_429 err)) [
  | inl limited ↦ rw limited refl
  | inr other ↦ rw other refl
]

-- An answer leaves at most as many calls out as there were.
pub settle_call-waiting :
    (m : Member) (others : List Member) (o : Settled) (r : Run)
    → length (settle_call m others o r).waiting ≤ suc (length others)
unfolding turn
settle_call-waiting m others o r = elim (Bool-cases r.stale) [
  | inl gone ↦ omega (arith, ap (λ s. length s.waiting) (settle_call-stale m others o r gone))
  | inr runs ↦
      let back : Run = out others r in
      omega (
        arith,
        ap (λ s. length s.waiting) (settle_call-live m others o r runs),
        next_call-waiting (report m o back).rest (report m o back),
        ap length (report-waiting m o back),
      )
]

pub min-at_most : (a b : ℕ) → min a b ≤ a
min-at_most zero b = omega arith
min-at_most (suc a) zero = omega arith
min-at_most (suc a) (suc b) = omega (arith, min-at_most a b)
