-- ===== src/GroupsPage/Asked.antt =====
-- Why a request of the groups page is out (save, create, submit and the two Alerts' buttons of
-- web/src/app/(app)/groups/page.tsx).
use porymcp.Base.{
  ℕ, ◌≡◌, refl, sym, subst, ◌∙◌, ◌⊎◌, inl, inr, Bool, true, false, false≢true, not, ◌&&◌, Option,
  none, some, List, [], ◌∷◌, ◌++◌, if◌then◌else◌, Bool-cases, All, All-weaken, All-append,
  All-middle, is_found, text, truthy,
}
use porymcp.Json.{Members}
use porymcp.Api.{Group}
use porymcp.AdminEvent.{entry}
use porymcp.GroupForm.{group_patch_body, group_save_blocked, group_filter_stale, group_create_body}
use porymcp.GroupsPage.{
  GroupsPage, GroupCall, creating, rereading, patching, body_entry, sends_a_filter,
  asks_about_blocking, tell, group_saving_ends, create_group, empties, first_call, save_group_over,
  save_group, stale_read, reread, save_or_create, submit_group, without_group_call, seq_of, Step,
  Reach, steps, opens_create, opens_edit, changes, catalogues, submits, confirms_empty,
  confirms_blocks, cancels_empty, cancels_blocks, closes, lists, fails_list, creates, reads, saves,
  refuses,
}
use porymcp.GroupsPage.Saves.{
  tell-calls, group_saving_ends-calls, group_refused-calls, group_created-calls, group_saved-calls,
  SaveSends, nothing_sent, one_sent, save_group_row-sends,
}
use porymcp.GroupsPage.Alerts.{
  takes_all, filter_of, blocks_all, EmptyAnswered, BlocksAnswered, IsOut, Justified, was_out,
  was_read, let_through, Flags, unanswered, Reach-Flags,
}

-- Why a save sends a request, by the page's own answers.
data Allowed (p : GroupsPage) : GroupCall → Type 0 where
  before_it : (c : GroupCall) → IsOut p.calls c → Allowed p c
  passes :
      (c : GroupCall)
      → (takes_all c ≡ false) ⊎ (p.answered_empty ≡ true)
      → (blocks_all c p ≡ false) ⊎ (p.answered_blocks ≡ true)
      → Allowed p c

IsOut-all : (calls : List GroupCall) → All (IsOut calls) calls
IsOut-all [] = tt
IsOut-all (c ∷ cs) = (inl refl, All-weaken (IsOut cs) (IsOut (c ∷ cs)) cs (λ d. inr) (IsOut-all cs))

before-Allowed : (p : GroupsPage) → All (Allowed p) p.calls
before-Allowed p = All-weaken (IsOut p.calls) (Allowed p) p.calls before_it (IsOut-all p.calls)

one-Allowed : (p : GroupsPage) (c : GroupCall) → Allowed p c → All (Allowed p) (p.calls ++ c ∷ [])
one-Allowed p c a = All-append (Allowed p) p.calls (c ∷ []) (before-Allowed p) (a, tt)

either : (a b c : Bool) → (a && not b && c) ≡ false → ((a && c) ≡ false) ⊎ (b ≡ true)
either a true c h = inr refl
either true false c h = inl h
either false false c h = inl refl

asks-passes :
    (p : GroupsPage) (c : GroupCall)
    → asks_about_blocking (filter_of c p) p ≡ false
    → (blocks_all c p ≡ false) ⊎ (p.answered_blocks ≡ true)
unfolding asks_about_blocking
asks-passes p c h = either (sends_a_filter (filter_of c p)) p.answered_blocks _ h

answer_or_not : (a b : Bool) → (a ≡ true → b ≡ true) → (a ≡ false) ⊎ (b ≡ true)
answer_or_not true b h = inr (h refl)
answer_or_not false b h = inl refl

first_call-Allowed :
    (row : Group) (body : Members) (p : GroupsPage)
    → (empties (entry body (text "upstream_ids")) ≡ true → p.answered_empty ≡ true)
    → asks_about_blocking (entry body (text "tool_filter")) p ≡ false
    → Allowed p (first_call p.dialog_seq row body)
first_call-Allowed row body p e a = by (is_found (entry body (text "tool_filter")))
  where
    by :
        (b : Bool)
        → Allowed p
            (if b then rereading p.dialog_seq row body else patching p.dialog_seq row body none)
    by true = passes _ (answer_or_not _ _ e) (asks-passes p (rereading p.dialog_seq row body) a)
    by false =
        passes _ (answer_or_not _ _ e) (asks-passes p (patching p.dialog_seq row body none) a)

SaveSends-Allowed :
    (row : Group) (body : Members) (p : GroupsPage) (calls : List GroupCall)
    → SaveSends row body p calls
    → All (Allowed p) calls
SaveSends-Allowed row body p _ nothing_sent = before-Allowed p
SaveSends-Allowed row body p _ (one_sent e a) =
    one-Allowed p (first_call p.dialog_seq row body) (first_call-Allowed row body p e a)

save_group_over-Allowed :
    (o : Option Group) (p : GroupsPage) → All (Allowed p) (save_group_over o p).calls
save_group_over-Allowed none p = before-Allowed p
save_group_over-Allowed (some row) p =
    SaveSends-Allowed row (group_patch_body row p.form) p _
      (save_group_row-sends row (group_patch_body row p.form) p)

save_or_create-Allowed : (p : GroupsPage) → All (Allowed p) (save_or_create p).calls
unfolding create_group
save_or_create-Allowed p = elim (Bool-cases (is_found p.editing)) [
  | inl edits ↦ rw edits (save_group_over-Allowed p.editing p)
  | inr adds ↦
      rw adds
        (elim (Bool-cases
          (asks_about_blocking (body_entry (group_create_body p.form) (text "tool_filter")) p)) [
            | inl asks ↦ rw asks (before-Allowed p)
            | inr sends ↦ rw sends (
                one-Allowed p (creating p.dialog_seq)
                  (passes _ (inl refl) (asks-passes p (creating p.dialog_seq) sends)))
          ])
]

blocks_all-same :
    (t p : GroupsPage)
    → t.form ≡ p.form
    → t.catalogue ≡ p.catalogue
    → (c : GroupCall) → blocks_all c t ≡ blocks_all c p
blocks_all-same t p e k (creating mine) = rw (e, k) refl
blocks_all-same t p e k (rereading mine row body) = rw (e, k) refl
blocks_all-same t p e k (patching mine row body fresh) = rw (e, k) refl

-- The save ran on a page that asks for the same, and whose answers count.
carry :
    {p q : GroupsPage} (r : Reach p) (s : Step p q) (t : GroupsPage) (calls : List GroupCall)
    → t.calls ≡ p.calls
    → t.form ≡ p.form
    → t.catalogue ≡ p.catalogue
    → Flags t (EmptyAnswered (steps r s)) (BlocksAnswered (steps r s))
    → All (Allowed t) calls
    → All (Justified r s) calls
carry {p} r s t calls out form listed (f, g) = All-weaken (Allowed t) (Justified r s) calls one
  where
    one : (c : GroupCall) → Allowed t c → Justified r s c
    one c (before_it _ o) = was_out c (subst (λ cs. IsOut cs c) out o)
    one c (passes _ (inl some_left) (inl lets)) =
        let_through c (inl some_left) (inl (sym (blocks_all-same t p form listed c) ∙ lets))
    one c (passes _ (inl some_left) (inr b)) = let_through c (inl some_left) (inr (g b))
    one c (passes _ (inr e) (inl lets)) =
        let_through c (inr (f e)) (inl (sym (blocks_all-same t p form listed c) ∙ lets))
    one c (passes _ (inr e) (inr b)) = let_through c (inr (f e)) (inr (g b))

-- No request was sent.
stays :
    {p q : GroupsPage} (r : Reach p) (s : Step p q) (calls : List GroupCall)
    → calls ≡ p.calls
    → All (Justified r s) calls
stays {p} r s calls e =
    subst (All (Justified r s)) (sym e)
      (All-weaken (IsOut p.calls) (Justified r s) p.calls was_out (IsOut-all p.calls))

-- One was answered.
fewer :
    {p q : GroupsPage} (r : Reach p) (s : Step p q) (before : List GroupCall) (c : GroupCall)
    (after calls : List GroupCall)
    → p.calls ≡ before ++ (c ∷ after)
    → calls ≡ before ++ after
    → All (Justified r s) calls
fewer {p} r s before c after calls e k =
    subst (All (Justified r s)) (sym k)
      (All-middle (Justified r s) before after c
        (subst (All (Justified r s)) e (stays r s p.calls refl))).1

IsOut-middle :
    (before : List GroupCall) (c : GroupCall) (after : List GroupCall)
    → IsOut (before ++ (c ∷ after)) c
IsOut-middle [] c after = inl refl
IsOut-middle (b ∷ bs) c after = inr (IsOut-middle bs c after)

reads-Justified :
    {p q : GroupsPage} (r : Reach p) (s : Step p q) (before after : List GroupCall) (mine : ℕ)
    (row : Group) (body : Members) (fresh : Option Group)
    → p.calls ≡ before ++ (rereading mine row body ∷ after)
    → All (Justified r s) (reread mine row body fresh (without_group_call before after p)).calls
unfolding reread
reads-Justified {p} r s before after mine row body fresh e =
    elim (Bool-cases (stale_read row fresh)) [
      | inl stale ↦ rw stale (
          let t = without_group_call before after p in
          let told = tell group_filter_stale mine t in
          fewer r s before (rereading mine row body) after (group_saving_ends mine told).calls e
            (group_saving_ends-calls mine told ∙ tell-calls group_filter_stale mine t))
      | inr same ↦ rw same (
          All-append (Justified r s) (before ++ after) (patching mine row body fresh ∷ [])
            (fewer r s before (rereading mine row body) after (before ++ after) e refl)
            (
              was_read mine row body fresh (
                  subst (λ cs. IsOut cs (rereading mine row body)) (sym e)
                    (IsOut-middle before (rereading mine row body) after)),
              tt,
            ))
    ]

submits-Justified :
    {p q : GroupsPage} (r : Reach p) (s : Step p q) → All (Justified r s) (submit_group p).calls
unfolding submit_group
submits-Justified {p} r s = elim (Bool-cases (truthy (group_save_blocked p.editing p.form))) [
  | inl blocked ↦ rw blocked (stays r s p.calls refl)
  | inr goes ↦ rw goes (
      carry r s (unanswered p) (save_or_create (unanswered p)).calls refl refl refl
        ((λ k. absurd (false≢true k)), λ k. absurd (false≢true k))
        (save_or_create-Allowed (unanswered p)))
]

-- Whatever is pressed and answered, and in whatever order, a request is out after a step because it
-- was out before, or is the PATCH whose read of the group was out, or is what a save sent: that one
-- does not take every member out, unless "Remove all" was pressed since the last submit, and
-- carries no filter that blocks every tool of a complete catalogue, unless "Save anyway" was. A
-- submit that the form's block stops does not count.
pub Step-Justified : {p q : GroupsPage} (r : Reach p) (s : Step p q) → All (Justified r s) q.calls
Step-Justified {p} r opens_create = stays r opens_create p.calls refl
Step-Justified {p} r (opens_edit g) = stays r (opens_edit g) p.calls refl
Step-Justified {p} r (changes f) = stays r (changes f) p.calls refl
Step-Justified {p} r (catalogues c) = stays r (catalogues c) p.calls refl
Step-Justified {p} r submits = submits-Justified r submits
Step-Justified {p} r confirms_empty =
    let (f, g) = Reach-Flags r in
    let t = record p { confirm_empty = false; answered_empty = true } in
    carry r confirms_empty t (save_group t).calls refl refl refl ((λ k. tt), g)
      (save_group_over-Allowed t.editing t)
Step-Justified {p} r confirms_blocks =
    let (f, g) = Reach-Flags r in
    let t = record p { confirm_blocks = false; answered_blocks = true } in
    carry r confirms_blocks t (save_or_create t).calls refl refl refl (f, λ k. tt)
      (save_or_create-Allowed t)
Step-Justified {p} r cancels_empty = stays r cancels_empty p.calls refl
Step-Justified {p} r cancels_blocks = stays r cancels_blocks p.calls refl
Step-Justified {p} r closes = stays r closes p.calls refl
Step-Justified {p} r (lists groups) = stays r (lists groups) p.calls refl
Step-Justified {p} r (fails_list message) = stays r (fails_list message) p.calls refl
Step-Justified {p} r (creates before after mine e) =
    fewer r (creates before after mine e) before (creating mine) after _ e
      (group_created-calls mine (without_group_call before after p))
Step-Justified {p} r (reads before after mine row body fresh e) =
    reads-Justified r (reads before after mine row body fresh e) before after mine row body fresh e
Step-Justified {p} r (saves before after mine row body fresh saved e) =
    fewer r (saves before after mine row body fresh saved e) before (patching mine row body fresh)
      after _ e (group_saved-calls mine saved (without_group_call before after p))
Step-Justified {p} r (refuses before after call err e) =
    fewer r (refuses before after call err e) before call after _ e
      (group_refused-calls (seq_of call) err (without_group_call before after p))
