-- ===== src/UseLogFacets/Requests.antt =====
-- The requests of the facet lists (`held` of web/src/lib/use-log-facets.ts).
use porymcp.Base.{
  ℕ, ◌+◌, ◌≤◌, ◌≡◌, refl, sym, ap, ap₂, subst, ◌∙◌, ◌↔◌, ◌⊎◌, inl, inr, Bool, true, false,
  false≢true, true≢false, not, ◌&&◌, ◌||◌, Option, none, some, List, [], ◌∷◌, ◌++◌, arith, eqb,
  if◌then◌else◌, eqb_refl, Bool-cases, and_parts, or_right, not-true, some_inj, All, All-weaken,
  All-append, All-middle, is_found, Text, eq_sound, eq_complete,
}
use porymcp.LogsView.Options.{facet_fetch_due, same_query}
use porymcp.UseLogFacets.{
  Inputs, Held, Request, FacetHook, abort_held, clean_up, same_fq, same_inputs, same_flag,
  query_effect, held_fq, send, send_for, is_due, fetch_effect, run_effects, Outcome, settle_facets,
  Reach, renders, effects, waits, answers, mounts, steps,
}

-- The requests that were not aborted.
abbrev pub live : List Request → ℕ
live [] = 0
live (r ∷ rs) = (if r.aborted then 0 else 1) + live rs

abbrev Dead : List Request → Type 0
Dead rs = All (λ r. r.aborted ≡ true) rs

abbrev ctrl_is : Option Held → ℕ → Bool
ctrl_is none c = false
ctrl_is (some h) c = eqb c h.ctrl

-- Every request that was not aborted is the one that is held.
abbrev Owned : Option Held → List Request → Type 0
Owned held rs = All (λ r. (ctrl_is held r.ctrl || r.aborted) ≡ true) rs

abbrev ran_fq : Option Inputs → Option Text
ran_fq none = none
ran_fq (some i) = i.fq

abbrev ran_ready : Option Inputs → Bool
ran_ready none = false
ran_ready (some i) = i.list_answered || i.waited

record Sound (s : FacetHook) : Type 0 where
  own : Owned s.held s.requests
  one : live s.requests ≤ 1
  fits : (held_fq s.held ≡ none) ⊎ (held_fq s.held ≡ ran_fq s.ran)
  done : is_found (ran_fq s.ran) ≡ true → ran_ready s.ran ≡ true → held_fq s.held ≡ ran_fq s.ran

same_query_iff : (a b : Option Text) → (same_query a b ≡ true) ↔ (a ≡ b)
same_query_iff none none = ((λ h. refl), λ h. refl)
same_query_iff none (some b) = ((λ h. absurd (false≢true h)), λ h. absurd (ground arith))
same_query_iff (some a) none = ((λ h. absurd (false≢true h)), λ h. absurd (ground arith))
same_query_iff (some a) (some b) =
    ((λ h. ap some (eq_sound a b h)), λ h. eq_complete a b (some_inj h))

live-Dead : (rs : List Request) → Dead rs → live rs ≡ 0
live-Dead [] d = refl
live-Dead (r ∷ rs) d = rw d.0 (omega (arith, live-Dead rs d.1))

live-append : (a b : List Request) → live (a ++ b) ≡ live a + live b
live-append [] b = omega arith
live-append (r ∷ a) b = omega (arith, live-append a b)

abort_held-Dead :
    (held : Option Held) (rs : List Request) → Owned held rs → Dead (abort_held held rs)
abort_held-Dead none rs o = o
abort_held-Dead (some h) [] o = tt
abort_held-Dead (some h) (r ∷ rs) o = (o.0, abort_held-Dead (some h) rs o.1)

Owned-Dead :
    (held : Option Held) (rs : List Request) → held_fq held ≡ none → Owned held rs → Dead rs
Owned-Dead none rs e o = o
Owned-Dead (some h) rs e o = absurd (ground arith)

Dead-Owned : (held : Option Held) (rs : List Request) → Dead rs → Owned held rs
Dead-Owned held rs d =
    All-weaken (λ r. r.aborted ≡ true) _ rs (λ r e. or_right (ctrl_is held r.ctrl) r.aborted e) d

send-Sound :
    (fq : Text) (s : FacetHook)
    → s.shown.fq ≡ some fq
    → Dead s.requests
    → Sound (record (send fq s) { ran = some s.shown })
send-Sound fq s e d =
    let added : Request = record { fq = fq; ctrl = s.next_ctrl; aborted = false } in
    record {
      own =
          All-append (λ r. (ctrl_is (send fq s).held r.ctrl || r.aborted) ≡ true) s.requests
            (added ∷ []) (Dead-Owned (send fq s).held s.requests d)
            (rw (eqb_refl s.next_ctrl) refl, tt);
      one = omega (arith, live-append s.requests (added ∷ []), live-Dead s.requests d);
      fits = inr (sym e);
      done = λ _ _. sym e;
    }

sent-Sound :
    (fq : Option Text) (s : FacetHook)
    → s.shown.fq ≡ fq
    → is_found fq ≡ true
    → Dead s.requests
    → Sound (record (send_for fq s) { ran = some s.shown })
sent-Sound none s e f d = absurd (false≢true f)
sent-Sound (some fq) s e f d = send-Sound fq s e d

due_parts :
    (s : FacetHook)
    → is_due s ≡ true
    → (is_found s.shown.fq ≡ true) × (same_query (held_fq s.held) s.shown.fq ≡ false)
unfolding facet_fetch_due
due_parts s due =
    let (both, _) =
      and_parts (is_found s.shown.fq && not (same_query (held_fq s.held) s.shown.fq)) _ due in
    let (found, differs) = and_parts (is_found s.shown.fq) _ both in (found, not-true _ differs)

not_due :
    (s : FacetHook)
    → is_due s ≡ false
    → is_found s.shown.fq ≡ true
    → (s.shown.list_answered || s.shown.waited) ≡ true
    → held_fq s.held ≡ s.shown.fq
unfolding facet_fetch_due
not_due s idle found ready =
    (same_query_iff (held_fq s.held) s.shown.fq).0
      (elim (Bool-cases (same_query (held_fq s.held) s.shown.fq)) [
        | inl same ↦ same
        | inr differs ↦ absurd (true≢false (rw (found, ready, differs) at idle))
      ])

-- The effect that sends, where what is held is for the query that is shown, if anything is.
fetched-Sound :
    (s : FacetHook)
    → Owned s.held s.requests
    → live s.requests ≤ 1
    → (held_fq s.held ≡ none) ⊎ (held_fq s.held ≡ s.shown.fq)
    → Sound (record (if is_due s then send_for s.shown.fq s else s) { ran = some s.shown })
fetched-Sound s own one fits = elim (Bool-cases (is_due s)) [
  | inr idle ↦ rw idle (record { own = own; one = one; fits = fits; done = not_due s idle })
  | inl due ↦
      let (found, differs) = due_parts s due in
      rw due (elim fits [
        | inl nothing ↦
            sent-Sound s.shown.fq s refl found (Owned-Dead s.held s.requests nothing own)
        | inr same ↦
            absurd
              (true≢false (sym ((same_query_iff (held_fq s.held) s.shown.fq).1 same) ∙ differs))
      ])
]

same_flag-eq : (a b : Bool) → same_flag a b ≡ true → a ≡ b
same_flag-eq true b h = sym h
same_flag-eq false true h = absurd (false≢true h)
same_flag-eq false false h = refl

same_fq-ran_fq : (ran : Option Inputs) (i : Inputs) → same_fq ran i ≡ true → ran_fq ran ≡ i.fq
same_fq-ran_fq none i h = absurd (false≢true h)
same_fq-ran_fq (some o) i h = (same_query_iff o.fq i.fq).0 h

same_inputs-parts :
    (ran : Option Inputs) (i : Inputs)
    → same_inputs ran i ≡ true
    → (same_fq ran i ≡ true) × (ran_ready ran ≡ (i.list_answered || i.waited))
same_inputs-parts none i h = absurd (false≢true h)
same_inputs-parts (some o) i h =
    let (both, w) =
      and_parts (same_query o.fq i.fq && same_flag o.list_answered i.list_answered) _ h in
    let (q, l) = and_parts (same_query o.fq i.fq) _ both in
    (
      q,
      ap₂ (◌||◌) (same_flag-eq o.list_answered i.list_answered l)
          (same_flag-eq o.waited i.waited w),
    )

fits_shown :
    (s : FacetHook)
    → Sound s
    → same_fq s.ran s.shown ≡ true
    → (held_fq s.held ≡ none) ⊎ (held_fq s.held ≡ s.shown.fq)
fits_shown s k same = elim (k.fits) [
  | inl nothing ↦ inl nothing
  | inr held ↦ inr (held ∙ same_fq-ran_fq s.ran s.shown same)
]

-- The effects after a render with nothing new leave everything as it is.
unchanged-Sound :
    (s : FacetHook)
    → Sound s
    → same_inputs s.ran s.shown ≡ true
    → Sound (record s { ran = some s.shown })
unchanged-Sound s k same =
    let (q, ready) = same_inputs-parts s.ran s.shown same in
    let e = same_fq-ran_fq s.ran s.shown q in
    record {
      own = k.own;
      one = k.one;
      fits = fits_shown s k q;
      done = λ found r. k.done (ap is_found e ∙ found) (ready ∙ r) ∙ e;
    }

run_effects-Sound : (s : FacetHook) → Sound s → Sound (run_effects s)
unfolding run_effects query_effect fetch_effect
run_effects-Sound s k = elim (Bool-cases (same_fq s.ran s.shown)) [
  | inl same ↦ rw same (elim (Bool-cases (same_inputs s.ran s.shown)) [
    | inl idle ↦ rw idle (unchanged-Sound s k idle)
    | inr new ↦ rw new (fetched-Sound s k.own k.one (fits_shown s k same))
  ])
  | inr other ↦
      let cleaned : FacetHook = record (clean_up s) { timer = s.shown.fq } in
      let dead = abort_held-Dead s.held s.requests k.own in
      rw (other, differs other)
        (fetched-Sound cleaned (Dead-Owned none _ dead) (omega (arith, live-Dead _ dead))
          (inl refl))
]
  where
    differs : same_fq s.ran s.shown ≡ false → same_inputs s.ran s.shown ≡ false
    differs other = elim (Bool-cases (same_inputs s.ran s.shown)) [
      | inr n ↦ n
      | inl e ↦ absurd (true≢false (sym (same_inputs-parts s.ran s.shown e).0 ∙ other))
    ]

settle_facets-Sound :
    (before : List Request) (r : Request) (after : List Request) (o : Outcome) (s : FacetHook)
    → s.requests ≡ before ++ (r ∷ after)
    → Sound s
    → Sound (settle_facets before r after o s)
unfolding settle_facets
settle_facets-Sound before r after o s e k = record {
  own =
      (All-middle (λ q. (ctrl_is s.held q.ctrl || q.aborted) ≡ true) before after r
        (subst (Owned s.held) e k.own)).1;
  one = omega (arith, k.one, ap live e, live-append before (r ∷ after), live-append before after);
  fits = k.fits;
  done = k.done;
}

module _ (Served : Text → Outcome → Type 0) where
  Reach-Sound : {s : FacetHook} → Reach Served s → Sound s
  Reach-Sound (mounts fq list_answered) = record {
    own = tt;
    one = omega arith;
    fits = inl refl;
    done = λ found. absurd (false≢true found);
  }
  Reach-Sound (steps {s} p (renders fq list_answered)) =
      let k = Reach-Sound p in record { own = k.own; one = k.one; fits = k.fits; done = k.done }
  Reach-Sound (steps {s} p effects) = run_effects-Sound s (Reach-Sound p)
  Reach-Sound (steps {s} p (waits fq e)) =
      let k = Reach-Sound p in record { own = k.own; one = k.one; fits = k.fits; done = k.done }
  Reach-Sound (steps {s} p (answers before r after o e served)) =
      settle_facets-Sound before r after o s e (Reach-Sound p)

  -- Whatever is rendered, waited for and answered, and in whatever order, at most one request in
  -- flight was not aborted.
  pub Reach-live : (s : FacetHook) → Reach Served s → live s.requests ≤ 1
  Reach-live s p = (Reach-Sound p).one

  -- After the effects of a render with a facet query, once the rows have answered or the wait has
  -- ended, the request that is held is for that query.
  pub run_effects-held :
      (s : FacetHook) (fq : Text)
      → Reach Served s
      → s.shown.fq ≡ some fq
      → (s.shown.list_answered || s.shown.waited) ≡ true
      → held_fq (run_effects s).held ≡ some fq
  unfolding run_effects
  run_effects-held s fq p e ready =
      (run_effects-Sound s (Reach-Sound p)).done (ap is_found (ran e) ∙ refl) at_end ∙ ran e
    where
      ran : s.shown.fq ≡ some fq → ran_fq (run_effects s).ran ≡ some fq
      ran h = h

      at_end : ran_ready (run_effects s).ran ≡ true
      at_end = ready

ran_fq-same_fq :
    (ran : Option Inputs) (i : Inputs) (fq : Text)
    → ran_fq ran ≡ some fq
    → i.fq ≡ some fq
    → same_fq ran i ≡ true
ran_fq-same_fq none i fq r e = absurd (ground arith)
ran_fq-same_fq (some o) i fq r e = (same_query_iff o.fq i.fq).1 (r ∙ sym e)

held-not_due : (s : FacetHook) → held_fq s.held ≡ s.shown.fq → is_due s ≡ false
held-not_due s h = elim (Bool-cases (is_due s)) [
  | inr idle ↦ idle
  | inl due ↦
      absurd
        (true≢false (sym ((same_query_iff (held_fq s.held) s.shown.fq).1 h) ∙ (due_parts s due).1))
]

-- The effects of a render whose facet query is that of the request which is held, and that of
-- the render before, abort nothing and send nothing.
pub run_effects-same_query :
    (s : FacetHook) (fq : Text)
    → s.shown.fq ≡ some fq
    → ran_fq s.ran ≡ some fq
    → held_fq s.held ≡ some fq
    → ((run_effects s).requests ≡ s.requests) × ((run_effects s).held ≡ s.held)
unfolding run_effects query_effect fetch_effect
run_effects-same_query s fq e r h =
    rw (ran_fq-same_fq s.ran s.shown fq r e) (elim (Bool-cases (same_inputs s.ran s.shown)) [
      | inl idle ↦ rw idle (refl, refl)
      | inr new ↦ rw (new, held-not_due s (h ∙ sym e)) (refl, refl)
    ])
