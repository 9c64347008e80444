-- ===== src/UpstreamsPage/RowsKept.antt =====
-- What holds of the rows' actions at any time (web/src/app/(app)/upstreams/page.tsx).
use porymcp.Base.{
  ℕ, suc, ◌+◌, ◌≤◌, ◌≡◌, refl, sym, ap, subst, ◌⊎◌, inl, inr, Bool, true, false, Option, none, some,
  List, [], ◌∷◌, ◌++◌, arith, eqb, if◌then◌else◌, eqb_iff, Bool-cases, All, All-weaken, All-append,
  All-middle, is_found, Text,
}
use porymcp.Api.{Upstream, Failure}
use porymcp.OauthConnect.{Url, authorization_url_is_web}
use porymcp.UpstreamsPage.{DiscoveryState, is_gone}
use porymcp.UpstreamsPage.Rows.{
  Rows, RowCall, testing, starting, revoking_row, deleting_row, discover_row, open_tools,
  tested_row, connect, sign_in_started, sign_in_refused, revoke_row, revoked, revoke_refused,
  delete_row, removed, remove_refused, starts_of, without_row_call, Step, Reach, begins, steps,
  opens, refreshes, shuts, tests, connects, signs_in, refuses_sign_in, restores, asks_revoke,
  cancels_revoke, revokes, revoke_answers, revoke_fails, asks_delete, cancels_delete, deletes,
  delete_answers, delete_fails, page_steps,
}

abbrev pub tools_id : Option Upstream → Option Text
tools_id none = none
tools_id (some u) = some u.id

-- The newest discovery that is out is of the row whose Tools dialog is open.
abbrev Fits : ℕ → Option Upstream → RowCall → Type 0
Fits seq tools (testing mine id) = (mine ≤ seq) × (mine ≡ seq → tools_id tools ≡ some id)
Fits seq tools _ = Unit

abbrev one_if : Bool → ℕ
one_if b = if b then 1 else 0

record Sound (r : Rows) : Type 0 where
  newest : All (Fits r.row_seq r.tools) r.row_calls
  held : starts_of r.row_calls ≤ one_if (is_found r.connecting_ref)

starts_of-append : (a b : List RowCall) → starts_of (a ++ b) ≡ starts_of a + starts_of b
starts_of-append [] b = omega arith
starts_of-append (testing mine id ∷ a) b = starts_of-append a b
starts_of-append (starting id forced ∷ a) b = omega (arith, starts_of-append a b)
starts_of-append (revoking_row row ∷ a) b = starts_of-append a b
starts_of-append (deleting_row id ∷ a) b = starts_of-append a b

starts_of-middle :
    (a : List RowCall) (c : RowCall) (b : List RowCall)
    → starts_of (a ++ (c ∷ b)) ≡ starts_of (c ∷ []) + starts_of (a ++ b)
starts_of-middle a (testing mine id) b =
    omega (arith, starts_of-append a (testing mine id ∷ b), starts_of-append a b)
starts_of-middle a (starting id forced) b =
    omega (arith, starts_of-append a (starting id forced ∷ b), starts_of-append a b)
starts_of-middle a (revoking_row row) b =
    omega (arith, starts_of-append a (revoking_row row ∷ b), starts_of-append a b)
starts_of-middle a (deleting_row id) b =
    omega (arith, starts_of-append a (deleting_row id ∷ b), starts_of-append a b)

older :
    (seq : ℕ) (before after : Option Upstream) (calls : List RowCall)
    → All (Fits seq before) calls
    → All (Fits (suc seq) after) calls
older seq before after calls h = All-weaken (Fits seq before) (Fits (suc seq) after) calls one h
  where
    one : (c : RowCall) → Fits seq before c → Fits (suc seq) after c
    one (testing mine id) k = (omega (arith, k.0), λ e. absurd (omega (arith, e, k.0)))
    one (starting id forced) k = tt
    one (revoking_row row) k = tt
    one (deleting_row id) k = tt

discover_row-Sound :
    (u : Upstream) (r : Rows) → r.tools ≡ some u → Sound r → Sound (discover_row u r)
discover_row-Sound u r e k = record {
  newest =
      All-append (Fits (suc r.row_seq) r.tools) r.row_calls (testing (suc r.row_seq) u.id ∷ [])
        (older r.row_seq r.tools r.tools r.row_calls k.newest)
        ((omega arith, λ _. ap tools_id e), tt);
  held = omega (arith, k.held, starts_of-append r.row_calls (testing (suc r.row_seq) u.id ∷ []));
}

open_tools-Sound : (u : Upstream) (r : Rows) → Sound r → Sound (open_tools u r)
open_tools-Sound u r k = record {
  newest =
      All-append (Fits (suc r.row_seq) (some u)) r.row_calls (testing (suc r.row_seq) u.id ∷ [])
        (older r.row_seq r.tools (some u) r.row_calls k.newest) ((omega arith, λ _. refl), tt);
  held = omega (arith, k.held, starts_of-append r.row_calls (testing (suc r.row_seq) u.id ∷ []));
}

-- A request of another kind is sent.
sent-Sound :
    (r : Rows) (c : RowCall)
    → starts_of (c ∷ []) ≡ 0
    → Fits r.row_seq r.tools c
    → Sound r
    → Sound (record r { row_calls = r.row_calls ++ c ∷ [] })
sent-Sound r c no_start fits k = record {
  newest = All-append (Fits r.row_seq r.tools) r.row_calls (c ∷ []) k.newest (fits, tt);
  held = omega (arith, k.held, no_start, starts_of-append r.row_calls (c ∷ []));
}

without_row_call-Sound :
    (before : List RowCall) (c : RowCall) (after : List RowCall) (r : Rows)
    → r.row_calls ≡ before ++ (c ∷ after)
    → Sound r
    → Sound (without_row_call before after r)
without_row_call-Sound before c after r e k = record {
  newest =
      (All-middle (Fits r.row_seq r.tools) before after c
        (subst (All (Fits r.row_seq r.tools)) e k.newest)).1;
  held = omega (arith, k.held, ap starts_of e, starts_of-middle before c after);
}

connect-Sound : (u : Upstream) (r : Rows) → Sound r → Sound (connect u r)
unfolding connect
connect-Sound u r k = elim (Bool-cases (is_found r.connecting_ref)) [
  | inl busy ↦ rw busy k
  | inr idle ↦ rw idle (record {
    newest = All-append (Fits r.row_seq r.tools) r.row_calls (_ ∷ []) k.newest (tt, tt);
    held = omega (arith, none_out idle, starts_of-append r.row_calls (starting u.id _ ∷ []));
  })
]
  where
    none_out : is_found r.connecting_ref ≡ false → starts_of r.row_calls ≡ 0
    none_out idle = omega (arith, subst (λ b. starts_of r.row_calls ≤ one_if b) idle k.held)

-- After the one start that was out has been answered, none is.
started-none :
    (before : List RowCall) (id : Text) (forced : Bool) (after : List RowCall) (r : Rows)
    → r.row_calls ≡ before ++ (starting id forced ∷ after)
    → Sound r
    → starts_of (before ++ after) ≡ 0
started-none before id forced after r e k = omega (
  arith,
  at_most (is_found r.connecting_ref),
  k.held,
  ap starts_of e,
  starts_of-middle before (starting id forced) after,
)
  where
    at_most : (b : Bool) → one_if b ≤ 1
    at_most true = omega arith
    at_most false = omega arith

signed_in-Sound :
    (new_url : Text → Option Url) (url : Text) (r : Rows)
    → starts_of r.row_calls ≡ 0
    → Sound r
    → Sound (sign_in_started new_url url r)
unfolding sign_in_started
signed_in-Sound new_url url r none_out k =
    elim (Bool-cases (authorization_url_is_web new_url url)) [
      | inl web ↦ rw web (record { newest = k.newest; held = k.held })
      | inr other ↦ rw other (record { newest = k.newest; held = omega (arith, none_out) })
    ]

sign_in_refused-Sound :
    (err : Failure) (r : Rows) → starts_of r.row_calls ≡ 0 → Sound r → Sound (sign_in_refused err r)
unfolding sign_in_refused
sign_in_refused-Sound err r none_out k = elim (Bool-cases (is_gone err)) [
  | inl gone ↦ rw gone (record { newest = k.newest; held = omega (arith, none_out) })
  | inr there ↦ rw there (record { newest = k.newest; held = omega (arith, none_out) })
]

revoke_refused-Sound : (err : Failure) (r : Rows) → Sound r → Sound (revoke_refused err r)
unfolding revoke_refused
revoke_refused-Sound err r k = elim (Bool-cases (is_gone err)) [
  | inl gone ↦ rw gone (record { newest = k.newest; held = k.held })
  | inr there ↦ rw there (record { newest = k.newest; held = k.held })
]

remove_refused-Sound : (err : Failure) (r : Rows) → Sound r → Sound (remove_refused err r)
unfolding remove_refused
remove_refused-Sound err r k = elim (Bool-cases (is_gone err)) [
  | inl gone ↦ rw gone (record { newest = k.newest; held = k.held })
  | inr there ↦ rw there (record { newest = k.newest; held = k.held })
]

tested_row-Sound :
    (mine : ℕ) (shown : DiscoveryState) (r : Rows) → Sound r → Sound (tested_row mine shown r)
unfolding tested_row
tested_row-Sound mine shown r k = elim (Bool-cases (eqb r.row_seq mine)) [
  | inl same ↦ rw same (record { newest = k.newest; held = k.held })
  | inr other ↦ rw other (record { newest = k.newest; held = k.held })
]

revoke_row-Sound : (o : Option Upstream) (r : Rows) → Sound r → Sound (revoke_row o r)
revoke_row-Sound none r k = k
revoke_row-Sound (some row) r k =
    let s = sent-Sound r (revoking_row row) refl tt k in record { newest = s.newest; held = s.held }

delete_row-Sound : (o : Option Upstream) (r : Rows) → Sound r → Sound (delete_row o r)
delete_row-Sound none r k = k
delete_row-Sound (some row) r k =
    let s = sent-Sound r (deleting_row row.id) refl tt k in
    record { newest = s.newest; held = s.held }

revoked-Sound :
    (row after : Upstream) (said : Text) (r : Rows) → Sound r → Sound (revoked row after said r)
unfolding revoked
revoked-Sound row after said r k = record { newest = k.newest; held = k.held }

removed-Sound : (id : Text) (r : Rows) → Sound r → Sound (removed id r)
unfolding removed
removed-Sound id r k = record { newest = k.newest; held = k.held }

module _ (new_url : Text → Option Url) where
  Step-Sound : {r s : Rows} → Step new_url r s → Sound r → Sound s
  Step-Sound {r} (opens u) k = open_tools-Sound u r k
  Step-Sound {r} (refreshes u e) k = discover_row-Sound u r e k
  Step-Sound {r} shuts k = record {
    newest = older r.row_seq r.tools none r.row_calls k.newest;
    held = k.held;
  }
  Step-Sound {r} (tests before after mine id shown e) k =
      tested_row-Sound mine shown (without_row_call before after r)
        (without_row_call-Sound before (testing mine id) after r e k)
  Step-Sound {r} (connects u) k = connect-Sound u r k
  Step-Sound {r} (signs_in before after id forced url e) k =
      signed_in-Sound new_url url (without_row_call before after r)
        (started-none before id forced after r e k)
        (without_row_call-Sound before (starting id forced) after r e k)
  Step-Sound {r} (refuses_sign_in before after id forced err e) k =
      sign_in_refused-Sound err (without_row_call before after r)
        (started-none before id forced after r e k)
        (without_row_call-Sound before (starting id forced) after r e k)
  Step-Sound {r} (restores none_out) k = record {
    newest = k.newest;
    held = omega (arith, none_out);
  }
  Step-Sound {r} (asks_revoke u) k = record { newest = k.newest; held = k.held }
  Step-Sound {r} cancels_revoke k = record { newest = k.newest; held = k.held }
  Step-Sound {r} revokes k = revoke_row-Sound r.pending_revoke r k
  Step-Sound {r} (revoke_answers before after row now said e) k =
      revoked-Sound row now said (without_row_call before after r)
        (without_row_call-Sound before (revoking_row row) after r e k)
  Step-Sound {r} (revoke_fails before after row err e) k =
      revoke_refused-Sound err (without_row_call before after r)
        (without_row_call-Sound before (revoking_row row) after r e k)
  Step-Sound {r} (asks_delete u) k = record { newest = k.newest; held = k.held }
  Step-Sound {r} cancels_delete k = record { newest = k.newest; held = k.held }
  Step-Sound {r} deletes k = delete_row-Sound r.pending_delete r k
  Step-Sound {r} (delete_answers before after id e) k =
      removed-Sound id (without_row_call before after r)
        (without_row_call-Sound before (deleting_row id) after r e k)
  Step-Sound {r} (delete_fails before after id err e) k =
      remove_refused-Sound err (without_row_call before after r)
        (without_row_call-Sound before (deleting_row id) after r e k)
  Step-Sound {r} (page_steps page) k = record { newest = k.newest; held = k.held }

  Reach-Sound : {r : Rows} → Reach new_url r → Sound r
  Reach-Sound (begins page) = record { newest = tt; held = omega arith }
  Reach-Sound (steps p s) = Step-Sound s (Reach-Sound p)

  -- Whatever is pressed and answered, and in whatever order, at most one sign-in is being started,
  -- and while one is, a row's Connect does nothing.
  pub Reach-starts_of :
      (r : Rows) (u : Upstream)
      → Reach new_url r
      → (starts_of r.row_calls ≤ 1) × ((starts_of r.row_calls ≡ 0) ⊎ (connect u r ≡ r))
  unfolding connect
  Reach-starts_of r u p = elim (Bool-cases (is_found r.connecting_ref)) [
    | inl busy ↦ (omega (arith, bound busy), rw busy (inr refl))
    | inr idle ↦ (omega (arith, bound idle), inl (omega (arith, bound idle)))
  ]
    where
      bound : {b : Bool} → is_found r.connecting_ref ≡ b → starts_of r.row_calls ≤ one_if b
      bound e = subst (λ b. starts_of r.row_calls ≤ one_if b) e (Reach-Sound p).held

  -- An answer changes the Tools dialog's panel only while the dialog is open on the row that was
  -- asked about; any other answer leaves the panel as it is.
  pub Reach-tested_row :
      (r : Rows) (before after : List RowCall) (mine : ℕ) (id : Text) (shown : DiscoveryState)
      → Reach new_url r
      → r.row_calls ≡ before ++ (testing mine id ∷ after)
      → ((tested_row mine shown r).row_discovery ≡ r.row_discovery) ⊎ (tools_id r.tools ≡ some id)
  unfolding tested_row
  Reach-tested_row r before after mine id shown p e = elim (Bool-cases (eqb r.row_seq mine)) [
    | inr other ↦ rw other (inl refl)
    | inl same ↦ inr (fits.1 (sym ((eqb_iff r.row_seq mine).0 same)))
  ]
    where
      fits : Fits r.row_seq r.tools (testing mine id)
      fits =
          (All-middle (Fits r.row_seq r.tools) before after (testing mine id)
            (subst (All (Fits r.row_seq r.tools)) e (Reach-Sound p).newest)).0
