-- ===== src/CursorPages/Hook/Invariant.antt =====
-- The rows on screen are pages of the one query that they are shown for.
use porymcp.Base.{
  ℕ, suc, ◌+◌, ◌≤◌, ◌≡◌, refl, sym, ap, ◌≢◌, ◌⊎◌, true, false, Option, none, some, List, [], ◌∷◌,
  ◌++◌, arith, eqb, if◌then◌else◌, All, All-weaken, All-append, Text,
}
use porymcp.CursorPages.{refused, Request, Pages, end_of, start_query}
use porymcp.CursorPages.Hook.{
  Body, Asked, first, load_more, Pending, Hook, start, run_effect, send_first,
}
use porymcp.CursorPages.Hook.Walk.{Walk}

-- How many requests of a generation are in flight.
abbrev pub in_generation : ℕ → List Pending → ℕ
in_generation n [] = 0
in_generation n (p ∷ ps) = if eqb n p.mine then suc (in_generation n ps) else in_generation n ps

pub in_generation-append :
    (n : ℕ) (ps qs : List Pending)
    → in_generation n (ps ++ qs) ≡ in_generation n ps + in_generation n qs
in_generation-append n [] qs = omega arith
in_generation-append n (p ∷ ps) qs = ground (arith, in_generation-append n ps qs)

-- None of them is of the generation.
abbrev pub Others : ℕ → List Pending → Type 0
Others n ps = All (λ p. p.mine ≢ n) ps

pub Others-none : (n : ℕ) (ps : List Pending) → Others n ps → in_generation n ps ≡ 0
Others-none n [] h = refl
Others-none n (p ∷ ps) h = ground (arith, Others-none n ps h.1, h.0)

pub none-Others : (n : ℕ) (ps : List Pending) → in_generation n ps ≡ 0 → Others n ps
none-Others n [] h = tt
none-Others n (p ∷ ps) h = ((λ e. ground arith), none-Others n ps (ground arith))

module _ {T : Type 0} where
  -- What a request of the current generation relies on.
  abbrev pub Fits : Hook T → Asked → Type 0
  Fits s (first q) =
      (s.pages.query ≡ none) × (s.next ≡ none) × (s.in_flight ≡ false) × (s.ran ≡ some (some q))
  Fits s (load_more r) =
      (s.in_flight ≡ true)
      × (s.pages.query ≡ some r.query)
      × (s.pages.cursor ≡ r.cursor)
      × (r.cursor ≢ [])

  abbrev pub FitsIf : Hook T → Pending → Type 0
  FitsIf s p = (p.mine ≤ s.seq) × (p.mine ≡ s.seq → Fits s p.asked)

module _ {T : Type 0} (Answers : Text → Text → Body T → Type 0) where
  -- How the rows ended, beside the walk that they are.
  abbrev pub Ended : Pages T → Text → Type 0
  Ended p c = ((p.end ≡ refused) × (p.cursor ≡ [])) ⊎ ((p.cursor ≡ c) × (p.end ≡ end_of c))

  abbrev pub Walked : Hook T → Text → Type 0
  Walked s q =
      (s.ran ≡ some (some q)) × (c : Text) × Walk Answers q s.pages.rows c × Ended s.pages c

  pub record Inv (s : Hook T) : Type 0 where
    pub one_live : in_generation s.seq s.pending ≤ 1
    pub fits : All (λ p. FitsIf s p) s.pending
    pub next_ok :
        (r : Request)
        → s.next ≡ some r
        → (s.pages.query ≡ some r.query) × (s.pages.cursor ≡ r.cursor) × (r.cursor ≢ [])
    pub walked : (q : Text) → s.pages.query ≡ some q → Walked s q

  pub start-Inv : (query : Option Text) → Inv (start query)
  start-Inv query = record {
    one_live = omega arith;
    fits = tt;
    next_ok = λ r e. cc;
    walked = λ q e. cc;
  }

  old_fits : (s : Hook T) → Inv s → All (λ p. FitsIf (run_effect s) p) s.pending
  unfolding run_effect
  old_fits s v =
      All-weaken (λ p. FitsIf s p) (λ p. FitsIf (run_effect s) p) s.pending
        (λ p f. (omega (arith, f.0), λ e. absurd (omega (arith, f.0)))) v.fits

  old_others : (s : Hook T) → Inv s → Others (suc s.seq) s.pending
  old_others s v =
      All-weaken (λ p. FitsIf s p) (λ p. p.mine ≢ suc s.seq) s.pending
        (λ p f e. absurd (omega (arith, f.0))) v.fits

  effect_fits :
      (s : Hook T) (live : Option Text)
      → Inv s
      → live ≡ s.live
      → All (λ p. FitsIf (run_effect s) p) (send_first (suc s.seq) live s.pending)
  unfolding run_effect start_query
  effect_fits s none v e = old_fits s v
  effect_fits s (some q) v e =
      All-append (λ p. FitsIf (run_effect s) p) s.pending _ (old_fits s v)
        ((omega arith, λ _. (refl, refl, refl, ap some (sym e))), tt)

  effect_one_live :
      (s : Hook T) (live : Option Text)
      → Inv s
      → in_generation (suc s.seq) (send_first (suc s.seq) live s.pending) ≤ 1
  effect_one_live s none v = omega (arith, Others-none (suc s.seq) s.pending (old_others s v))
  effect_one_live s (some q) v =
      let p : Pending = record { mine = suc s.seq; asked = first q } in
      omega (
        arith,
        Others-none (suc s.seq) s.pending (old_others s v),
        in_generation-append (suc s.seq) s.pending (p ∷ []),
        own_one (suc s.seq) (first q),
      )
    where
      own_one : (n : ℕ) (a : Asked) → in_generation n (record { mine = n; asked = a } ∷ []) ≡ 1
      own_one n a = ground arith

  pub effect-Inv : (s : Hook T) → Inv s → Inv (run_effect s)
  unfolding run_effect start_query
  effect-Inv s v = record {
    one_live = effect_one_live s s.live v;
    fits = effect_fits s s.live v refl;
    next_ok = λ r e. cc;
    walked = λ q e. cc;
  }
