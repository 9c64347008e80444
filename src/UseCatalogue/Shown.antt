-- ===== src/UseCatalogue/Shown.antt =====
-- What a dialog shows of its members' catalogues (web/src/lib/use-catalogue.ts).
use porymcp.Base.{
  ◌≡◌, refl, ap, ap₂, ◌∙◌, ◌≢◌, inl, inr, true, not, Option, none, some, List, [], ◌∷◌, ◌++◌, map,
  eqb, if◌then◌else◌, eqb_iff, Bool-cases, length, drop, find, ◌==◌, eq_refl,
}
use porymcp.Catalogue.{Member, MemberCatalogue, idle_member}
use porymcp.DiscoverMany.{Settled, settle_call}
use porymcp.DiscoverMany.Order.{settle_call-stale}
use porymcp.UseCatalogue.{
  Going, CatalogueHook, answer, finish, as_of, put_reports, catalogue_of, entry_of_member,
}

drop-length : {A : Type 0} (xs : List A) → drop (length xs) xs ≡ []
drop-length [] = refl
drop-length (x ∷ xs) = drop-length xs

old_run : (h : CatalogueHook) (g : Going) → h.current ≢ g.started → (as_of h g).stale ≡ true
old_run h g n = elim (Bool-cases (eqb h.current g.started)) [
  | inl same ↦ absurd (n ((eqb_iff h.current g.started).0 same))
  | inr other ↦ ap not other
]

-- An answer for a run that an earlier opening of the dialog started, once the new reset key is
-- in `current`, changes no catalogue and makes no call, and the end of that run leaves the rate
-- line alone.
pub answer-earlier :
    (h : CatalogueHook) (before : List Going) (g : Going) (after : List Going) (m : Member)
    (others : List Member) (o : Settled)
    → h.current ≢ g.started
    → ((answer before g after m others o h).by_id ≡ h.by_id)
      × ((settle_call m others o (as_of h g)).waiting ≡ others)
      × ((settle_call m others o (as_of h g)).asked ≡ g.run.asked)
      × ((finish before g after h).rate_limited ≡ h.rate_limited)
unfolding answer finish put_reports
answer-earlier h before g after m others o n =
    let old = old_run h g n in
    let kept = settle_call-stale m others o (as_of h g) old in
    (
      ap (put_reports h.by_id)
          (ap (λ r. drop (length g.run.shown) r.shown) kept ∙ drop-length g.run.shown),
      ap (λ r. r.waiting) kept,
      ap (λ r. r.asked) kept,
      ap (λ b. if b then h.rate_limited else g.run.rate_limited) old,
    )

-- Whatever was reported, the catalogue that a dialog reads has the members of its target, each
-- once and in their order, with the target's own data.
pub catalogue_of-members :
    (by_id : List MemberCatalogue) (members : List Member)
    → map (λ e. e.member) (catalogue_of by_id members) ≡ members
unfolding catalogue_of idle_member
catalogue_of-members by_id [] = refl
catalogue_of-members by_id (m ∷ ms) =
    ap₂ (◌∷◌) (same (find (λ e. e.upstream_id == m.upstream_id) by_id))
      (catalogue_of-members by_id ms)
  where
    same : (e : Option MemberCatalogue) → (entry_of_member e m).member ≡ m
    same none = refl
    same (some e) = refl

-- A member's last report is the one that is shown.
pub catalogue_of-put_reports :
    (by_id before : List MemberCatalogue) (e : MemberCatalogue)
    → catalogue_of (put_reports by_id (before ++ e ∷ [])) (e.member ∷ []) ≡ e ∷ []
unfolding catalogue_of put_reports
catalogue_of-put_reports by_id [] e = rw (eq_refl e.upstream_id) refl
catalogue_of-put_reports by_id (r ∷ before) e = catalogue_of-put_reports (r ∷ by_id) before e
