-- ===== src/DiscoverMany/Stops.antt =====
-- When the calls stop (discoverMembers of web/src/lib/discover-many.ts).
use porymcp.Base.{
  ℕ, ◌+◌, ◌*◌, ◌≤◌, ◌<◌, ◌≡◌, refl, sym, ap, ◌∙◌, inl, inr, Bool, true, false, true≢false, not,
  ◌||◌, List, [], ◌∷◌, ◌++◌, arith, eqb, eqb_iff, Bool-cases, not-false, length, length-append,
  Text, truthy, or_text,
}
use porymcp.Api.{ApiError, api_error}
use porymcp.Api.Errors.{discovery_error_message, discovery_error_message-truthy}
use porymcp.Catalogue.{Member}
use porymcp.DiscoverMany.{
  Run, Settled, refused, next_call, turn, report, settle_call, Step, settles, goes_stale, Later,
  now, later,
}
use porymcp.DiscoverMany.Order.{
  open_run, report-Kept, length-middle, out, settle_call-stale, settle_call-live,
}

-- What is left to be done: two for a member that was not asked, one for a call that is out.
abbrev pub work : Run → ℕ
work r = length r.rest * 2 + length r.waiting

work-next_call : (rest : List Member) (r : Run) → r.rest ≡ rest → work (next_call rest r) ≤ work r
unfolding next_call
work-next_call [] r e = omega arith
work-next_call (m ∷ rest) r e = elim (Bool-cases (truthy r.rate_limited || r.stale)) [
  | inl shut ↦ rw shut (omega arith)
  | inr runs ↦ rw runs (omega (arith, ap length e, length-append r.waiting (m ∷ [])))
]

-- Every answer leaves less to be done, two for a member that was not asked and one for a call
-- that is out.
pub settle_call-work :
    (r : Run) (before : List Member) (m : Member) (after : List Member) (o : Settled)
    → r.waiting ≡ before ++ (m ∷ after)
    → work (settle_call m (before ++ after) o r) < work r
unfolding turn
settle_call-work r before m after o e = elim (Bool-cases r.stale) [
  | inl gone ↦
      rw (settle_call-stale m (before ++ after) o r gone)
        (omega (arith, ap length e, length-middle before after m))
  | inr runs ↦
      let back : Run = out (before ++ after) r in
      let (_, b, c, _, _) = report-Kept m o back in
      rw (settle_call-live m (before ++ after) o r runs) (
        omega (
          arith,
          work-next_call (report m o back).rest (report m o back) refl,
          ap length b,
          ap length c,
          ap length e,
          length-middle before after m,
        ))
]

next_call-shut : (rest : List Member) (r : Run) → open_run r ≡ false → next_call rest r ≡ r
unfolding next_call
next_call-shut [] r h = refl
next_call-shut (m ∷ rest) r h = rw (not-false (truthy r.rate_limited || r.stale) h) refl

-- What a step leaves of a run that is shut: it is shut, and no call was made.
Shut : Run → Run → Type 0
Shut s r = (s.asked ≡ r.asked) × (open_run s ≡ false)

not-or_true : (b : Bool) → not (b || true) ≡ false
not-or_true true = refl
not-or_true false = refl

settle_call-Shut :
    (m : Member) (others : List Member) (o : Settled) (r : Run)
    → open_run (report m o (out others r)) ≡ false
    → Shut (settle_call m others o r) r
unfolding turn Shut
settle_call-Shut m others o r h = elim (Bool-cases r.stale) [
  | inl gone ↦
      rw (settle_call-stale m others o r gone) (
        refl,
        ap (λ b. not (truthy r.rate_limited || b)) gone ∙ not-or_true (truthy r.rate_limited),
      )
  | inr runs ↦
      let back : Run = out others r in
      let (a, _, _, _, _) = report-Kept m o back in
      rw
        (
          settle_call-live m others o r runs,
          next_call-shut (report m o back).rest (report m o back) h,
        )
        (a, h)
]

Step-Shut : {r s : Run} → Step r s → open_run r ≡ false → Shut s r
unfolding Shut
Step-Shut {r} (settles before m after o e) h =
    let back : Run = out (before ++ after) r in
    settle_call-Shut m (before ++ after) o r (stays (report m o back) (report-Kept m o back).3)
  where
    stays : (s : Run) → (open_run s ≡ true → open_run r ≡ true) → open_run s ≡ false
    stays s f = elim (Bool-cases (open_run s)) [
      | inl k ↦ absurd (true≢false (sym (f k) ∙ h))
      | inr k ↦ k
    ]
Step-Shut {r} goes_stale h = (refl, not-or_true (truthy r.rate_limited))

Later-Shut : {r s : Run} → Later r s → open_run r ≡ false → Shut s r
unfolding Shut
Later-Shut now h = (refl, h)
Later-Shut (later p step) h =
    let (a, k) = Later-Shut p h in let (b, l) = Step-Shut step k in (b ∙ a, l)

-- Once a call was answered with a 429, no other call is made, whatever happens after it.
pub report-rate_limited :
    (r s : Run) (before : List Member) (m : Member) (after : List Member) (e : ApiError)
    → r.waiting ≡ before ++ (m ∷ after)
    → e.status ≡ 429
    → Later (settle_call m (before ++ after) (refused (api_error e)) r) s
    → s.asked ≡ r.asked
unfolding report Shut
report-rate_limited r s before m after e w h p =
    let (a, k) =
      settle_call-Shut m (before ++ after) (refused (api_error e)) r
        (rw limited (said r.rate_limited)) in
    (Later-Shut p k).0 ∙ a
  where
    limited : eqb e.status 429 ≡ true
    limited = (eqb_iff e.status 429).1 h

    said :
        (a : Text)
        → not (truthy (or_text a (discovery_error_message (api_error e))) || r.stale) ≡ false
    said [] = rw (discovery_error_message-truthy e limited) refl
    said (c ∷ a) = refl

-- After the dialog went stale nothing is reported to it and no call is made, whatever answers come.
pub Later-stale :
    (r s : Run)
    → r.stale ≡ true
    → Later r s
    → (s.shown ≡ r.shown) × (s.asked ≡ r.asked) × (s.stale ≡ true)
Later-stale r s h now = (refl, refl, h)
Later-stale r s h (later {s = t} p (settles before m after o e)) =
    let (a, b, c) = Later-stale r t h p in
    rw (settle_call-stale m (before ++ after) o t c) (a, b, c)
Later-stale r s h (later {s = t} p goes_stale) = let (a, b, _) = Later-stale r t h p in (a, b, refl)
