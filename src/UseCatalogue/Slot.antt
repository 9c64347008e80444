-- ===== src/UseCatalogue/Slot.antt =====
-- One run of an opened dialog at a time (`running` of web/src/lib/use-catalogue.ts).
use porymcp.Base.{
  ℕ, ◌+◌, ◌*◌, ◌≤◌, ◌<◌, ◌≡◌, refl, sym, ap, subst, ◌∙◌, ◌≢◌, ◌↔◌, ◌⊎◌, inl, inr, Bool, true, false,
  false≢true, true≢false, not, Option, none, some, List, [], ◌∷◌, ◌++◌, arith, eqb, if◌then◌else◌,
  eqb_iff, eqb_refl, Bool-cases, length, All, length-append, All-append, All-middle, All-insert,
  Text,
}
use porymcp.Catalogue.{Member}
use porymcp.DiscoverMany.{Run, settle_call, picker_in_flight, fresh_run, min}
use porymcp.DiscoverMany.Order.{length-middle}
use porymcp.UseCatalogue.{
  Going, CatalogueHook, render, load, key_is, answer, finish, targets, opened, with_run,
  with_answer, as_of, renders, writes, presses, answers, finishes, mounts, steps, Reach, mounted,
}
use porymcp.UseCatalogue.Runs.{start_workers-waiting, settle_call-waiting, min-at_most}

abbrev one_if : Bool → ℕ
one_if b = if b then 1 else 0

-- The unfinished runs that started under a key, and the calls that these have out.
abbrev pub runs_of : ℕ → List Going → ℕ
runs_of key [] = 0
runs_of key (g ∷ gs) = one_if (eqb g.started key) + runs_of key gs

abbrev calls_if : Bool → Going → ℕ
calls_if true g = length g.run.waiting
calls_if false g = 0

abbrev pub calls_of : ℕ → List Going → ℕ
calls_of key [] = 0
calls_of key (g ∷ gs) = calls_if (eqb g.started key) g + calls_of key gs

runs_of-append : (key : ℕ) (a b : List Going) → runs_of key (a ++ b) ≡ runs_of key a + runs_of key b
runs_of-append key [] b = omega arith
runs_of-append key (g ∷ a) b = omega (arith, runs_of-append key a b)

abbrev Small : Going → Type 0
Small g = length g.run.waiting ≤ picker_in_flight

record Held (h : CatalogueHook) : Type 0 where
  one : (key : ℕ) → runs_of key h.runs ≤ 1
  past : (key : ℕ) → h.seen_key < key → runs_of key h.runs ≡ 0
  free : key_is h.running h.seen_key ≡ false → runs_of h.seen_key h.runs ≡ 0
  taken : (key : ℕ) → key_is h.running key ≡ true → runs_of key h.runs ≡ 1
  small : All Small h.runs

runs_of-middle :
    (key : ℕ) (before : List Going) (g : Going) (after : List Going)
    → runs_of key (before ++ (g ∷ after))
      ≡ one_if (eqb g.started key) + runs_of key (before ++ after)
runs_of-middle key before g after =
    omega (arith, runs_of-append key before (g ∷ after), runs_of-append key before after)

one_if-same : {a b : ℕ} → a ≡ b → one_if (eqb a b) ≡ 1
one_if-same {a} e = subst (λ b. one_if (eqb a b) ≡ 1) e (ap one_if (eqb_refl a))

one_if-other : (b : Bool) → b ≡ false → one_if b ≡ 0
one_if-other b e = ap one_if e

calls_if-at_most :
    (b : Bool) (g : Going)
    → length g.run.waiting ≤ picker_in_flight
    → calls_if b g ≤ picker_in_flight * one_if b
calls_if-at_most true g h = omega (arith, h)
calls_if-at_most false g h = omega arith

mounted-Held : (key : ℕ) → Held (mounted key)
mounted-Held key = record {
  one = λ _. omega arith;
  past = λ _ _. refl;
  free = λ _. refl;
  taken = λ _ h. absurd (false≢true h);
  small = tt;
}

render-Held : (key : ℕ) (h : CatalogueHook) → h.seen_key ≤ key → Held h → Held (render key h)
unfolding render
render-Held key h le s = go (Bool-cases (eqb h.seen_key key))
  where
    go : (eqb h.seen_key key ≡ true) ⊎ (eqb h.seen_key key ≡ false) → Held (render key h)
    go (inl same) = rw same s
    go (inr other) = rw other (record {
      one = s.one;
      past = λ k lt. s.past k (omega (arith, lt, le));
      free = λ _. s.past key (ground (arith, le, other, eqb_iff h.seen_key key));
      taken = s.taken;
      small = s.small;
    })

-- What a run that is added adds.
runs_of-last :
    (key : ℕ) (gs : List Going) (g : Going)
    → runs_of key (gs ++ g ∷ []) ≡ runs_of key gs + one_if (eqb g.started key)
runs_of-last key gs g = omega (arith, runs_of-append key gs (g ∷ []))

opened-waiting :
    (h : CatalogueHook) (upstream_id : Text) (members : List Member)
    → length (opened h upstream_id members).run.waiting ≤ picker_in_flight
opened-waiting h upstream_id members =
    let chosen = targets upstream_id members in
    omega (
      arith,
      min-at_most picker_in_flight (length chosen),
      start_workers-waiting (min picker_in_flight (length chosen))
          (record (fresh_run chosen) { stale = not (eqb h.current h.seen_key) }),
    )

-- A key that an equation on the slot rules out.
one_if-apart : (a b : ℕ) → a ≢ b → one_if (eqb a b) ≡ 0
one_if-apart a b n = elim (Bool-cases (eqb a b)) [
  | inl same ↦ absurd (n ((eqb_iff a b).0 same))
  | inr other ↦ one_if-other (eqb a b) other
]

with_run-Held :
    (h : CatalogueHook) (g : Going)
    → g.started ≡ h.seen_key
    → length g.run.waiting ≤ picker_in_flight
    → key_is h.running h.seen_key ≡ false
    → Held h
    → Held (with_run h g)
with_run-Held h g e small idle s = record {
  one = λ k. one k (Bool-cases (eqb g.started k));
  past = λ k lt. omega (
    arith,
    runs_of-last k h.runs g,
    s.past k lt,
    one_if-apart g.started k (λ x. omega (arith, x, e, lt)),
  );
  free =
      λ x. absurd (false≢true (sym x ∙ subst (λ b. eqb g.started b ≡ true) e (eqb_refl g.started)));
  taken = λ k x. taken k ((eqb_iff g.started k).0 x);
  small = All-append Small h.runs (g ∷ []) s.small (small, tt);
}
  where
    here : (k : ℕ) → g.started ≡ k → runs_of k h.runs ≡ 0
    here k x = subst (λ b. runs_of b h.runs ≡ 0) (sym e ∙ x) (s.free idle)

    taken : (k : ℕ) → g.started ≡ k → runs_of k (h.runs ++ g ∷ []) ≡ 1
    taken k x = omega (arith, runs_of-last k h.runs g, here k x, one_if-same x)

    one :
        (k : ℕ)
        → (eqb g.started k ≡ true) ⊎ (eqb g.started k ≡ false)
        → runs_of k (h.runs ++ g ∷ []) ≤ 1
    one k (inl same) = omega (arith, taken k ((eqb_iff g.started k).0 same))
    one k (inr other) = omega (arith, runs_of-last k h.runs g, one_if-other _ other, s.one k)

load-Held :
    (upstream_id : Text) (members : List Member) (h : CatalogueHook)
    → Held h
    → Held (load upstream_id members h)
unfolding load
load-Held upstream_id members h s = elim (Bool-cases (key_is h.running h.seen_key)) [
  | inl busy ↦ rw busy s
  | inr idle ↦ rw idle (
      with_run-Held h (opened h upstream_id members) refl (opened-waiting h upstream_id members)
        idle s)
]

calls_of-Small :
    (key : ℕ) (gs : List Going) → All Small gs → calls_of key gs ≤ picker_in_flight * runs_of key gs
calls_of-Small key [] h = omega arith
calls_of-Small key (g ∷ gs) h =
    omega (arith, calls_of-Small key gs h.1, calls_if-at_most (eqb g.started key) g h.0)

-- A run in the list is replaced by one with no more calls out.
with_answer-Held :
    (before : List Going) (g : Going) (after : List Going) (r s : Run) (h : CatalogueHook)
    → h.runs ≡ before ++ (g ∷ after)
    → length s.waiting ≤ length g.run.waiting
    → Held h
    → Held (with_answer before g after r s h)
with_answer-Held before g after r s h e le k = record {
  one = λ key. omega (arith, same key, k.one key);
  past = λ key lt. same key ∙ k.past key lt;
  free = λ x. same h.seen_key ∙ k.free x;
  taken = λ key x. same key ∙ k.taken key x;
  small = exchanged (All-middle Small before after g (subst (All Small) e k.small));
}
  where
    exchanged :
        Small g × All Small (before ++ after) → All Small (before ++ record g { run = s } ∷ after)
    exchanged (b, rest) =
        All-insert Small before after (record g { run = s }) (omega (arith, b, le)) rest

    same : (key : ℕ) → runs_of key (before ++ record g { run = s } ∷ after) ≡ runs_of key h.runs
    same key =
        runs_of-middle key before (record g { run = s }) after
        ∙ sym (runs_of-middle key before g after)
        ∙ ap (runs_of key) (sym e)

key_is-inj : (r : Option ℕ) (a b : ℕ) → key_is r a ≡ true → key_is r b ≡ true → a ≡ b
key_is-inj none a b h k = absurd (false≢true h)
key_is-inj (some c) a b h k = sym ((eqb_iff c a).0 h) ∙ (eqb_iff c b).0 k

finish-Held :
    (before : List Going) (g : Going) (after : List Going) (h : CatalogueHook)
    → h.runs ≡ before ++ (g ∷ after)
    → Held h
    → Held (finish before g after h)
unfolding finish
finish-Held before g after h e s = record {
  one = λ key. omega (arith, less key, s.one key);
  past = λ key lt. omega (arith, less key, s.past key lt);
  free = free (Bool-cases (key_is h.running g.started));
  taken = λ key. taken key (Bool-cases (key_is h.running g.started));
  small = (All-middle Small before after g (subst (All Small) e s.small)).1;
}
  where
    less :
        (key : ℕ) → runs_of key h.runs ≡ one_if (eqb g.started key) + runs_of key (before ++ after)
    less key = ap (runs_of key) e ∙ runs_of-middle key before g after

    gone : runs_of h.seen_key h.runs ≡ 0 → runs_of h.seen_key (before ++ after) ≡ 0
    gone x = omega (arith, x, less h.seen_key)

    free :
        (key_is h.running g.started ≡ true) ⊎ (key_is h.running g.started ≡ false)
        → key_is (if key_is h.running g.started then none else h.running) h.seen_key ≡ false
        → runs_of h.seen_key (before ++ after) ≡ 0
    free (inr loose) x = gone (s.free (rw loose at x))
    free (inl held) x = elim (Bool-cases (key_is h.running h.seen_key)) [
      | inr other ↦ gone (s.free other)
      | inl same ↦ omega (
        arith,
        less h.seen_key,
        s.one h.seen_key,
        one_if-same (key_is-inj h.running g.started h.seen_key held same),
      )
    ]

    taken :
        (key : ℕ)
        → (key_is h.running g.started ≡ true) ⊎ (key_is h.running g.started ≡ false)
        → key_is (if key_is h.running g.started then none else h.running) key ≡ true
        → runs_of key (before ++ after) ≡ 1
    taken key (inl held) x = absurd (false≢true (rw held at x))
    taken key (inr loose) x =
        let here = (rw loose at x) in
        omega (
          arith,
          less key,
          s.taken key here,
          one_if-apart g.started key
              (λ same. true≢false (sym here ∙ ap (key_is h.running) (sym same) ∙ loose)),
        )

Reach-Held : {h : CatalogueHook} → Reach h → Held h
unfolding answer
Reach-Held (mounts key) = mounted-Held key
Reach-Held (steps {h} p (renders key le)) = render-Held key h le (Reach-Held p)
Reach-Held (steps {h} p writes) =
    let s = Reach-Held p in
    record { one = s.one; past = s.past; free = s.free; taken = s.taken; small = s.small }
Reach-Held (steps {h} p (presses upstream_id members)) =
    load-Held upstream_id members h (Reach-Held p)
Reach-Held (steps {h} p (answers before g after first m last o e w)) =
    with_answer-Held before g after g.run (settle_call m (first ++ last) o (as_of h g)) h e
      (omega (
        arith,
        settle_call-waiting m (first ++ last) o (as_of h g),
        length-middle first last m,
        ap length w,
      ))
      (Reach-Held p)
Reach-Held (steps {h} p (finishes before g after e w)) =
    finish-Held before g after h e (Reach-Held p)

-- Whatever is pressed, rendered and answered, and in whatever order, at most two calls of one
-- opening of the dialog are out.
pub Reach-calls_of :
    (h : CatalogueHook) (key : ℕ) → Reach h → calls_of key h.runs ≤ picker_in_flight
Reach-calls_of h key p =
    let s = Reach-Held p in omega (arith, calls_of-Small key h.runs s.small, s.one key)

added-not : (gs : List Going) (g : Going) → gs ≡ gs ++ g ∷ [] → ⊥
added-not gs g e = omega (arith, ap length e, length-append gs (g ∷ []))

-- A press starts a run exactly when no run of the dialog that is open is left unfinished; any
-- other press is dropped.
pub load-runs_iff :
    (h : CatalogueHook) (upstream_id : Text) (members : List Member)
    → Reach h
    → ((load upstream_id members h).runs ≡ h.runs ++ opened h upstream_id members ∷ [])
      ↔ (runs_of h.seen_key h.runs ≡ 0)
unfolding load
load-runs_iff h upstream_id members p = elim (Bool-cases (key_is h.running h.seen_key)) [
  | inl busy ↦ rw busy (
    (λ e. absurd (added-not h.runs (opened h upstream_id members) e)),
    λ e. absurd (omega (arith, e, (Reach-Held p).taken h.seen_key busy)),
  )
  | inr idle ↦ rw idle ((λ _. (Reach-Held p).free idle), λ _. refl)
]
