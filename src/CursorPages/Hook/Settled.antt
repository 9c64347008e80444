-- ===== src/CursorPages/Hook/Settled.antt =====
-- A Load more and an answer keep the invariant of a paged table.
use porymcp.Base.{
  ℕ, ◌+◌, ◌≡◌, refl, sym, ap, subst, ◌∙◌, ◌≢◌, Bool, true, false, false≢true, Option, none, some,
  List, [], ◌∷◌, ◌++◌, arith, eqb, if◌then◌else◌, eqb_iff, All, All-weaken, All-append, All-middle,
  All-both, Text,
}
use porymcp.CursorPages.{Request}
use porymcp.CursorPages.Hook.{Body, Asked, first, load_more, Pending, Hook, press, press_with}
use porymcp.CursorPages.Hook.Invariant.{
  in_generation, in_generation-append, Others, Others-none, none-Others, Fits, FitsIf, Inv,
}

module _ {T : Type 0} (Answers : Text → Text → Body T → Type 0) where
  -- Where the control may be pressed, nothing of the generation is in flight.
  quiet :
      (s : Hook T) (r : Request)
      → Inv Answers s
      → s.next ≡ some r
      → s.in_flight ≡ false
      → Others s.seq s.pending
  quiet s r v e idle =
      All-weaken (λ p. FitsIf s p) (λ p. p.mine ≢ s.seq) s.pending
        (λ p f m. no_reason p.asked (f.1 m)) v.fits
    where
      no_reason : (a : Asked) → Fits s a → ⊥
      no_reason (first q) f = cc (f.1, e)
      no_reason (load_more r') f = false≢true (sym idle ∙ f.0)

  press_with-Inv :
      (s : Hook T) (next : Option Request) (in_flight : Bool)
      → Inv Answers s
      → s.next ≡ next
      → s.in_flight ≡ in_flight
      → Inv Answers (press_with next in_flight s)
  unfolding press_with
  press_with-Inv s none in_flight v e f = v
  press_with-Inv s (some r) true v e f = v
  press_with-Inv s (some r) false v e f =
      let others = quiet s r v e f in
      let asked : Pending = record { mine = s.seq; asked = load_more r } in
      record {
        one_live = omega (
          arith,
          Others-none s.seq s.pending others,
          in_generation-append s.seq s.pending (asked ∷ []),
          one_more s.seq (load_more r),
        );
        fits =
            All-append (λ p. FitsIf (press_with (some r) false s) p) s.pending (asked ∷ [])
              (All-weaken (λ p. FitsIf s p × (p.mine ≢ s.seq))
                (λ p. FitsIf (press_with (some r) false s) p) s.pending
                (λ p k. (k.0.0, λ m. absurd (k.1 m)))
                (All-both (λ p. FitsIf s p) (λ p. p.mine ≢ s.seq) s.pending v.fits others))
              ((omega arith, λ _. let (q, c, n) = v.next_ok r e in (refl, q, c, n)), tt);
        next_ok = v.next_ok;
        walked = v.walked;
      }
    where
      one_more : (n : ℕ) (a : Asked) → in_generation n (record { mine = n; asked = a } ∷ []) ≡ 1
      one_more n a = ground arith

  pub press-Inv : (s : Hook T) → Inv Answers s → Inv Answers (press s)
  unfolding press
  press-Inv s v = press_with-Inv s s.next s.in_flight v refl refl

  -- A request that is taken out of those in flight.
  abbrev pub taken : Hook T → List Pending → Hook T
  taken s rest = record s { pending = rest }

  fewer :
      (n : ℕ) (before after : List Pending) (p : Pending)
      → in_generation n (before ++ (p ∷ after))
        ≡ (if eqb n p.mine then 1 else 0) + in_generation n (before ++ after)
  fewer n before after p =
      ground (arith, in_generation-append n before (p ∷ after), in_generation-append n before after)

  pub taken-Inv :
      (s : Hook T) (before after : List Pending) (p : Pending)
      → Inv Answers s
      → s.pending ≡ before ++ (p ∷ after)
      → Inv Answers (taken s (before ++ after))
  taken-Inv s before after p v e = record {
    one_live =
        omega (arith, fewer s.seq before after p, v.one_live, ap (λ l. in_generation s.seq l) e);
    fits =
        (All-middle (λ q. FitsIf s q) before after p
          (subst (λ l. All (λ q. FitsIf s q) l) e v.fits)).1;
    next_ok = v.next_ok;
    walked = v.walked;
  }

  -- When the taken request is of the generation, no other one is.
  pub alone :
      (s : Hook T) (before after : List Pending) (p : Pending)
      → Inv Answers s
      → s.pending ≡ before ++ (p ∷ after)
      → p.mine ≡ s.seq
      → Others s.seq (before ++ after) × Fits s p.asked
  alone s before after p v e m =
      let one : eqb s.seq p.mine ≡ true = (eqb_iff s.seq p.mine).1 (sym m) in
      (
        none-Others s.seq (before ++ after) (
            ground
              (arith, fewer s.seq before after p, v.one_live, ap (λ l. in_generation s.seq l) e)),
        (All-middle (λ q. FitsIf s q) before after p
              (subst (λ l. All (λ q. FitsIf s q) l) e v.fits)).0.1
            m,
      )
