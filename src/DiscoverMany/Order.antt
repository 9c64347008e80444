-- ===== src/DiscoverMany/Order.antt =====
-- The order, the bound and the end of the calls (discoverMembers of web/src/lib/discover-many.ts).
use porymcp.Base.{
  suc, ◌≤◌, ◌≡◌, refl, sym, ap, ap₂, subst, ◌∙◌, ◌⊎◌, inl, inr, Bool, true, false, false≢true,
  true≢false, not, ◌||◌, List, [], ◌∷◌, ◌++◌, append-nil, append_assoc, arith, if◌then◌else◌,
  Bool-cases, not-true, or_false, length, length-append, Text, truthy, or_text,
}
use porymcp.Api.Errors.{discovery_error_message}
use porymcp.Catalogue.{Member}
use porymcp.DiscoverMany.{
  Run, Settled, answered, refused, next_call, turn, report, settle_call, start_workers,
  discover_members, picker_in_flight, settles, goes_stale, Reach, pressed, steps, is_429,
}

-- A run is open while no 429 came and the dialog is not stale.
abbrev pub open_run : Run → Bool
open_run r = not (truthy r.rate_limited || r.stale)

-- The members of a run: those asked are the first of them, at most two wait, and while the run is
-- open the calls go on as long as a member is left.
record Sound (members : List Member) (r : Run) : Type 0 where
  in_order : r.asked ++ r.rest ≡ members
  bounded : length r.waiting ≤ picker_in_flight
  going : open_run r ≡ true → (r.rest ≡ []) ⊎ (length r.waiting ≡ picker_in_flight)

-- A worker that is free takes up a member that is left.
next_call-Sound :
    (members rest : List Member) (r : Run)
    → r.rest ≡ rest
    → r.asked ++ rest ≡ members
    → length r.waiting ≤ 1
    → (open_run r ≡ true → (rest ≡ []) ⊎ (length r.waiting ≡ 1))
    → Sound members (next_call rest r)
unfolding next_call
next_call-Sound members [] r e i b g = record {
  in_order = rw e i;
  bounded = omega (arith, b);
  going = λ _. inl e;
}
next_call-Sound members (m ∷ rest) r e i b g =
    elim (Bool-cases (truthy r.rate_limited || r.stale)) [
      | inl shut ↦ rw shut (record {
        in_order = rw e i;
        bounded = omega (arith, b);
        going = λ o. absurd (false≢true (rw shut at o));
      })
      | inr runs ↦ rw runs (record {
        in_order = append_assoc r.asked (m ∷ []) rest ∙ i;
        bounded = omega (arith, b, length-append r.waiting (m ∷ []));
        going = λ o. inr (taken (g (rw runs refl)));
      })
    ]
  where
    taken :
        ((m ∷ rest) ≡ []) ⊎ (length r.waiting ≡ 1) → length (r.waiting ++ m ∷ []) ≡ picker_in_flight
    taken (inl none_left) = absurd (ground arith)
    taken (inr one) = omega (arith, one, length-append r.waiting (m ∷ []))

-- A report changes neither the calls nor the members, and opens nothing.
abbrev pub Kept : Run → Run → Type 0
Kept s r =
    (s.asked ≡ r.asked)
    × (s.rest ≡ r.rest)
    × (s.waiting ≡ r.waiting)
    × (open_run s ≡ true → open_run r ≡ true)
    × (s.stale ≡ r.stale)

pub report-Kept : (m : Member) (o : Settled) (r : Run) → Kept (report m o r) r
unfolding report
report-Kept m (answered d) r = (refl, refl, refl, λ h. h, refl)
report-Kept m (refused err) r = elim (Bool-cases (is_429 err)) [
  | inr other ↦ rw other (refl, refl, refl, (λ h. h), refl)
  | inl limited ↦ rw limited (refl, refl, refl, (λ h. still r.rate_limited h), refl)
]
  where
    still :
        (a : Text)
        → not (truthy (or_text a (discovery_error_message err)) || r.stale) ≡ true
        → not (truthy a || r.stale) ≡ true
    still [] h = rw (or_false (truthy (discovery_error_message err)) r.stale (not-true _ h)).1 refl
    still (c ∷ a) h = h

pub length-middle : (a b : List Member) (m : Member) → length (a ++ (m ∷ b)) ≡ suc (length (a ++ b))
length-middle a b m = omega (arith, length-append a (m ∷ b), length-append a b)

-- The run a settled call leaves, the calls that are out without it.
abbrev pub out : List Member → Run → Run
out others r = record r { waiting = others }

pub settle_call-stale :
    (m : Member) (others : List Member) (o : Settled) (r : Run)
    → r.stale ≡ true
    → settle_call m others o r ≡ out others r
unfolding settle_call
settle_call-stale m others o r h =
    ap (λ b. if b then out others r else turn (report m o (out others r))) h

pub settle_call-live :
    (m : Member) (others : List Member) (o : Settled) (r : Run)
    → r.stale ≡ false
    → settle_call m others o r ≡ turn (report m o (out others r))
unfolding settle_call
settle_call-live m others o r h =
    ap (λ b. if b then out others r else turn (report m o (out others r))) h

stale-shut : (r : Run) → r.stale ≡ true → open_run r ≡ true → ⊥
stale-shut r gone h =
    true≢false (sym gone ∙ (or_false (truthy r.rate_limited) r.stale (not-true _ h)).1)

settle_call-Sound :
    (members others : List Member) (m : Member) (o : Settled) (r : Run)
    → length r.waiting ≡ suc (length others)
    → Sound members r
    → Sound members (settle_call m others o r)
unfolding turn
settle_call-Sound members others m o r n s = elim (Bool-cases r.stale) [
  | inl gone ↦ subst (Sound members) (sym (settle_call-stale m others o r gone)) (record {
    in_order = s.in_order;
    bounded = omega (arith, n, s.bounded);
    going = λ h. absurd (stale-shut r gone h);
  })
  | inr runs ↦
      let back : Run = out others r in
      let (a, b, c, d, _) = report-Kept m o back in
      subst (Sound members) (sym (settle_call-live m others o r runs)) (
        next_call-Sound members (report m o back).rest (report m o back) refl
          (ap₂ (λ x y. x ++ y) a b ∙ s.in_order) (rw c (omega (arith, n, s.bounded)))
          (λ h. elim (s.going (d h)) [
            | inl none_left ↦ inl (b ∙ none_left)
            | inr two ↦ inr (ap length c ∙ one_less two)
          ]))
]
  where
    one_less : length r.waiting ≡ picker_in_flight → length others ≡ 1
    one_less two = omega (arith, n, two)

fresh-Sound : (members : List Member) → Sound members (discover_members members)
unfolding discover_members start_workers turn next_call
fresh-Sound [] = record { in_order = refl; bounded = omega arith; going = λ _. inl refl }
fresh-Sound (a ∷ []) = record { in_order = refl; bounded = omega arith; going = λ _. inl refl }
fresh-Sound (a ∷ b ∷ rest) = record {
  in_order = refl;
  bounded = omega arith;
  going = λ _. inr refl;
}

Reach-Sound : {members : List Member} {r : Run} → Reach members r → Sound members r
Reach-Sound {members} pressed = fresh-Sound members
Reach-Sound {members} (steps {r} p (settles before m after o e)) =
    settle_call-Sound members (before ++ after) m o r (ap length e ∙ length-middle before after m)
      (Reach-Sound p)
Reach-Sound {members} (steps {r} p goes_stale) =
    let s = Reach-Sound p in
    record {
      in_order = s.in_order;
      bounded = s.bounded;
      going = λ h. absurd (true≢false (sym h ∙ shut (truthy r.rate_limited)));
    }
  where
    shut : (b : Bool) → not (b || true) ≡ false
    shut true = refl
    shut false = refl

-- At any time of a press, the members asked are the first of the list, each once and in its
-- order, and at most two calls are out.
pub Reach-in_order :
    (members : List Member) (r : Run)
    → Reach members r
    → (r.asked ++ r.rest ≡ members) × (length r.waiting ≤ picker_in_flight)
Reach-in_order members r p = let s = Reach-Sound p in (s.in_order, s.bounded)

-- When no call of a Load tools press is out any more, no 429 came and the dialog is not stale,
-- every member was asked, in the order of the list.
pub Reach-all_asked :
    (members : List Member) (r : Run)
    → Reach members r
    → r.waiting ≡ []
    → r.rate_limited ≡ []
    → r.stale ≡ false
    → r.asked ≡ members
Reach-all_asked members r p w l t = elim (s.going (rw (l, t) refl)) [
  | inl none_left ↦ sym (append-nil r.asked) ∙ ap (λ x. r.asked ++ x) (sym none_left) ∙ s.in_order
  | inr two ↦ absurd (idle two)
]
  where
    s : Sound members r
    s = Reach-Sound p

    idle : length r.waiting ≡ picker_in_flight → ⊥
    idle two = omega (arith, two, ap length w)
