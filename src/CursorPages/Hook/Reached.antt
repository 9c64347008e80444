-- ===== src/CursorPages/Hook/Reached.antt =====
-- Every event keeps the invariant of a paged table, so every reachable state has it.
use porymcp.Base.{
  ◌≤◌, ◌≡◌, refl, sym, ap, subst, ◌∙◌, ◌≢◌, ◌⊎◌, inl, inr, not, ◌&&◌, Option, none, some, List, [],
  ◌∷◌, ◌++◌, eqb, if◌then◌else◌, eqb_iff, Bool-cases, or_false, some_inj, not-false, All,
  All-weaken, All-both, Text, ◌==◌, eq_sound, eq_refl,
}
use porymcp.CursorPages.{
  PageEnd, refused, Request, Pages, end_of, next_request, first_page, appended, after_more_failure,
  exposed_end, request_of, is_some, same_query,
}
use porymcp.Api.{Failure, api_error, unreachable}
use porymcp.CursorPages.Hook.{
  Body, Outcome, resolved, rejected, Asked, first, load_more, Pending, Hook, start, rows_of,
  cursor_of, settle, apply_answer, more_left, is_stale,
}
use porymcp.CursorPages.Hook.Walk.{
  Walk, page_one, page_more, Genuine, Step, render, effect, pressed, answered, unmount, Reach, here,
  next,
}
use porymcp.CursorPages.Hook.Invariant.{
  in_generation, Others, Fits, FitsIf, Ended, Inv, start-Inv, effect-Inv,
}
use porymcp.CursorPages.Hook.Settled.{press-Inv, taken, taken-Inv, alone}

-- The request for the next page is there exactly while the answer's cursor is not ''.
next_request-first_page :
    {T : Type 0} (q cursor : Text) (rows : List T)
    → next_request (first_page q rows cursor) (some q) ≡ more_left q cursor
unfolding next_request exposed_end first_page request_of
next_request-first_page q [] rows = rw (eq_refl q)
next_request-first_page q (c ∷ cursor) rows = rw (eq_refl q)

more_left_parts :
    (q cursor : Text) (r : Request)
    → more_left q cursor ≡ some r
    → (q ≡ r.query) × (cursor ≡ r.cursor) × (r.cursor ≢ [])
more_left_parts q [] r h = cc
more_left_parts q (c ∷ cursor) r h =
    let e = some_inj h in
    (ap (λ x. x.query) e, ap (λ x. x.cursor) e, λ k. cc (ap (λ x. x.cursor) e ∙ k))

module _ {T : Type 0} (Answers : Text → Text → Body T → Type 0) where
  -- Where no other request is of the generation, none has to be accounted for.
  nothing_live :
      (s t : Hook T)
      → s.seq ≡ t.seq
      → s.pending ≡ t.pending
      → All (λ p. FitsIf s p) s.pending
      → Others s.seq s.pending
      → All (λ p. FitsIf t p) t.pending
  nothing_live s t e l f o =
      subst (λ ps. All (λ p. FitsIf t p) ps) l
        (All-weaken (λ p. FitsIf s p × (p.mine ≢ s.seq)) (λ p. FitsIf t p) s.pending
          (λ p k. (subst (λ n. p.mine ≤ n) e k.0.0, λ m. absurd (k.1 (m ∙ sym e))))
          (All-both (λ p. FitsIf s p) (λ p. p.mine ≢ s.seq) s.pending f o))

  first_resolved :
      (s : Hook T) (slow q : Text) (b : Body T)
      → Inv Answers s
      → Others s.seq s.pending
      → Fits s (first q)
      → Answers q [] b
      → Inv Answers (apply_answer slow (first q) (resolved b) s)
  unfolding apply_answer first_page
  first_resolved s slow q b v o f a = record {
    one_live = v.one_live;
    fits = nothing_live s (apply_answer slow (first q) (resolved b) s) refl refl v.fits o;
    next_ok = λ r e.
        let (p, c, n) =
          more_left_parts q (cursor_of b) r
            (sym (next_request-first_page q (cursor_of b) (rows_of b)) ∙ e) in
        (ap some p, c, n);
    walked = λ q' e.
        let same : q ≡ q' = some_inj e in
        subst
          (λ x.
            (s.ran ≡ some (some x))
            × (c : Text) × Walk Answers x (rows_of b) c
            × Ended Answers (first_page q (rows_of b) (cursor_of b)) c)
          same (f.3, cursor_of b, page_one a, inr (refl, refl));
  }

  more_resolved :
      (s : Hook T) (slow : Text) (r : Request) (b : Body T)
      → Inv Answers s
      → Others s.seq s.pending
      → Fits s (load_more r)
      → Answers r.query r.cursor b
      → Inv Answers (apply_answer slow (load_more r) (resolved b) s)
  unfolding apply_answer appended
  more_resolved s slow r b v o f a = record {
    one_live = v.one_live;
    fits = nothing_live s (apply_answer slow (load_more r) (resolved b) s) refl refl v.fits o;
    next_ok = λ r' e.
        let (p, c, n) = more_left_parts r.query (cursor_of b) r' e in (f.1 ∙ ap some p, c, n);
    walked = λ q e.
        let same : r.query ≡ q = some_inj (sym f.1 ∙ e) in
        let (ran, c, walk, ended) = v.walked q e in
        let at : c ≡ r.cursor = at_cursor c ended in
        (
          ran,
          cursor_of b,
          page_more walk (λ k. f.3 (sym at ∙ k))
              (subst (λ x. Answers q x b) (sym at) (subst (λ x. Answers x r.cursor b) same a)),
          inr (refl, refl),
        );
  }
    where
      at_cursor : (c : Text) → Ended Answers s.pages c → c ≡ r.cursor
      at_cursor c (inl (_, gone)) = absurd (f.3 (sym f.2 ∙ gone))
      at_cursor c (inr (at, _)) = sym at ∙ f.2

  -- A failure that leaves the cursor changes nothing that the rows rest on; a refused cursor
  -- takes the control away.
  more_rejected :
      (s : Hook T) (slow : Text) (r : Request) (err : Failure)
      → Inv Answers s
      → Others s.seq s.pending
      → Inv Answers (apply_answer slow (load_more r) (rejected err) s)
  unfolding apply_answer after_more_failure
  more_rejected s slow r unreachable v o = record {
    one_live = v.one_live;
    fits =
        nothing_live s (apply_answer slow (load_more r) (rejected unreachable) s) refl refl v.fits
          o;
    next_ok = v.next_ok;
    walked = v.walked;
  }
  more_rejected s slow r (api_error e) v o = elim (Bool-cases (eqb e.status 400)) [
    | inl bad ↦ record {
      one_live = v.one_live;
      fits =
          nothing_live s (apply_answer slow (load_more r) (rejected (api_error e)) s) refl refl
            v.fits o;
      next_ok = λ r' k. absurd (none≢some (rw bad at k));
      walked = λ q k.
          let (ran, c, walk, ended) = v.walked q (rw bad at k) in
          (ran, c, rw bad walk, rw bad (inl (refl, refl)));
    }
    | inr kept ↦ record {
      one_live = v.one_live;
      fits =
          nothing_live s (apply_answer slow (load_more r) (rejected (api_error e)) s) refl refl
            v.fits o;
      next_ok = rw kept v.next_ok;
      walked = rw kept v.walked;
    }
  ]
    where
      none≢some : {x : Request} → none ≡ some x → ⊥
      none≢some e = cc

  apply_answer-Inv :
      (s : Hook T) (slow : Text) (a : Asked) (outcome : Outcome T)
      → Inv Answers s
      → Others s.seq s.pending
      → Fits s a
      → Genuine Answers a outcome
      → Inv Answers (apply_answer slow a outcome s)
  apply_answer-Inv s slow (first q) (resolved b) v o f g = first_resolved s slow q b v o f g
  apply_answer-Inv s slow (first q) (rejected err) v o f g =
      unfold apply_answer in
      record { one_live = v.one_live; fits = v.fits; next_ok = v.next_ok; walked = v.walked }
  apply_answer-Inv s slow (load_more r) (resolved b) v o f g = more_resolved s slow r b v o f g
  apply_answer-Inv s slow (load_more r) (rejected err) v o f g = more_rejected s slow r err v o

  settle-Inv :
      (s : Hook T) (slow : Text) (before after : List Pending) (p : Pending) (outcome : Outcome T)
      → Inv Answers s
      → s.pending ≡ before ++ (p ∷ after)
      → Genuine Answers p.asked outcome
      → Inv Answers (settle slow p outcome (taken Answers s (before ++ after)))
  unfolding settle
  settle-Inv s slow before after p outcome v e g =
      let w = taken-Inv Answers s before after p v e in
      elim (Bool-cases (is_stale p (taken Answers s (before ++ after)))) [
        | inl stale ↦ rw stale w
        | inr fresh ↦
            let (_, own) = or_false (not s.mounted) (not (eqb s.seq p.mine)) fresh in
            let (others, fits) =
              alone Answers s before after p v e
                (sym ((eqb_iff s.seq p.mine).0 (not-false (eqb s.seq p.mine) own))) in
            rw fresh (
              apply_answer-Inv (taken Answers s (before ++ after)) slow p.asked outcome w others
                (same_Fits p.asked fits) g)
      ]
    where
      same_Fits : (a : Asked) → Fits s a → Fits (taken Answers s (before ++ after)) a
      same_Fits (first q) f = f
      same_Fits (load_more r) f = f

  Step-Inv : {slow : Text} {s t : Hook T} → Step Answers slow s t → Inv Answers s → Inv Answers t
  Step-Inv (render s query) v = record {
    one_live = v.one_live;
    fits = v.fits;
    next_ok = v.next_ok;
    walked = v.walked;
  }
  Step-Inv (effect s mounted changed) v = effect-Inv Answers s v
  Step-Inv (pressed s) v = press-Inv Answers s v
  Step-Inv {slow} (answered s before after p outcome e g) v =
      settle-Inv s slow before after p outcome v e g
  Step-Inv (unmount s) v = record {
    one_live = v.one_live;
    fits = v.fits;
    next_ok = v.next_ok;
    walked = v.walked;
  }

  Reach-Inv :
      {slow : Text} {query : Option Text} {s : Hook T}
      → Reach Answers slow (start query) s
      → Inv Answers s
  Reach-Inv {query} here = start-Inv Answers query
  Reach-Inv (next r st) = Step-Inv st (Reach-Inv r)

  exposed_query :
      (p : Pages T) (live : Option Text) (e : PageEnd)
      → exposed_end p live ≡ some e
      → (q : Text) × (p.query ≡ some q) × (live ≡ some q) × (p.end ≡ e)
  unfolding exposed_end
  exposed_query p live e h = go p.query live refl h
    where
      go :
          (held live : Option Text)
          → p.query ≡ held
          → (if is_some held && same_query held live then some p.end else none) ≡ some e
          → (q : Text) × (p.query ≡ some q) × (live ≡ some q) × (p.end ≡ e)
      go none live k h = cc
      go (some q) none k h = cc
      go (some q) (some r) k h = elim (Bool-cases (q == r)) [
        | inl same ↦ (q, k, ap some (sym (eq_sound q r same)), some_inj (rw same at h))
        | inr other ↦ let bad : none ≡ some e = rw other at h in cc
      ]

  -- Whatever the events of a paged table and their order (filter changes, presses, late or
  -- reordered answers, failures, the page going away), rows that are shown as the current
  -- query's are the pages of that query's own walk, in order, each asked for with the cursor
  -- of the page before, and an end that is not refused is told by the walk's last cursor.
  pub Reach-Walk :
      {slow : Text} {query : Option Text} {s : Hook T} (e : PageEnd)
      → Reach Answers slow (start query) s
      → exposed_end s.pages s.live ≡ some e
      → (q : Text) × (s.live ≡ some q)
        × (c : Text) × Walk Answers q s.pages.rows c
        × ((e ≡ refused) ⊎ (e ≡ end_of c))
  Reach-Walk {s} e r h =
      let (q, held, live, end) = exposed_query s.pages s.live e h in
      let (ran, c, walk, ended) = (Reach-Inv r).walked q held in
      (q, live, c, walk, told c end ended)
    where
      told : (c : Text) → s.pages.end ≡ e → Ended Answers s.pages c → (e ≡ refused) ⊎ (e ≡ end_of c)
      told c end (inl (gone, _)) = inl (sym end ∙ gone)
      told c end (inr (_, at)) = inr (sym end ∙ at)

  -- A paged table never has two requests of its current query in flight.
  pub Reach-in_generation :
      {slow : Text} {query : Option Text} {s : Hook T}
      → Reach Answers slow (start query) s
      → in_generation s.seq s.pending ≤ 1
  Reach-in_generation r = (Reach-Inv r).one_live
