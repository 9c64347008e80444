-- ===== src/ToolEntry/Matching.antt =====
-- What an entry and a filter reach, described without the code's splitting and searching
-- (matchToolEntry and filterPermits of web/src/lib/tool-entry.ts).
use porymcp.Base.{
  ◌≡◌, refl, sym, ap, subst, ◌∙◌, ◌≢◌, ◌↔◌, ◌⊎◌, inl, inr, Bool, true, false, false≢true, [], ◌∷◌,
  ◌++◌, arith, if◌then◌else◌, Bool-cases, Text, ◌==◌, starts_with, eq_sound, eq_complete, eq_iff,
  starts_with-append, starts_with_rest,
}
use porymcp.ToolEntry.{tool_separator, split_entry, match_tool_entry, match_split}
use porymcp.ToolEntry.Separator.{
  NoEarlier, scoped_split, split_entry_iff, split_entry_scoped, split_entry_unscoped,
}

-- The entry is `head`, which is not empty, the separator and `rest`, cut at the first separator.
abbrev pub Cut : Text → Text → Text → Type 0
Cut e head rest = (head ≢ []) × (e ≡ head ++ (tool_separator ++ rest)) × NoEarlier head

-- The entry names no member.
abbrev pub Bare : Text → Type 0
Bare e = (head rest : Text) → Cut e head rest → ⊥

-- A tool's own name against what an entry says of it.
abbrev pub Fits : Bool → Text → Text → Type 0
Fits true said name = (more : Text) × (name ≡ said ++ more)
Fits false said name = said ≡ name

-- The entry reaches the tool `name` of the member `slug`.
abbrev pub Reaches : Bool → Text → Text → Text → Type 0
Reaches is_prefix e slug name =
    (e ≢ [])
    × (((rest : Text) × Cut e slug rest × Fits is_prefix rest name)
        ⊎ (Bare e × Fits is_prefix e name))

-- The two kinds of entry.
pub entry_cases :
    (e : Text)
    → ((head : Text) × (rest : Text) × Cut e head rest × (split_entry e ≡ scoped_split head rest))
      ⊎ (Bare e × (split_entry e ≡ record { head = []; rest = e; scoped = false }))
entry_cases e = elim (Bool-cases (split_entry e).scoped) [
  | inl s ↦
      let cut = split_entry_scoped e s in
      inl ((split_entry e).head, (split_entry e).rest, cut, (split_entry_iff e _ _).1 cut)
  | inr s ↦
      let (no_head, whole) = split_entry_unscoped e s in
      inr (
        (λ head rest cut.
            false≢true (sym s ∙ ap (λ x. x.scoped) ((split_entry_iff e head rest).1 cut))),
        λ i. record { head = no_head i; rest = whole i; scoped = s i },
      )
]

-- The head and the rest of a cut are the entry's own.
pub Cut-unique :
    (e head rest head' rest' : Text)
    → Cut e head rest
    → Cut e head' rest'
    → (head ≡ head') × (rest ≡ rest')
Cut-unique e head rest head' rest' c d =
    let same : scoped_split head rest ≡ scoped_split head' rest' =
      sym ((split_entry_iff e head rest).1 c) ∙ (split_entry_iff e head' rest').1 d in
    (ap (λ s. s.head) same, ap (λ s. s.rest) same)

Fits-iff :
    (is_prefix : Bool) (said name : Text)
    → ((if is_prefix then starts_with name said else said == name) ≡ true)
      ↔ Fits is_prefix said name
Fits-iff true said name = (starts_with_rest name said, λ f. rw (f.1) (starts_with-append said f.0))
Fits-iff false said name = eq_iff said name

match_cut :
    (head rest slug name : Text) (is_prefix : Bool)
    → (match_split (scoped_split head rest) slug name is_prefix ≡ true)
      ↔ ((head ≡ slug) × Fits is_prefix rest name)
match_cut head rest slug name is_prefix = (
  λ h. (eq_sound head slug (ground arith), (Fits-iff is_prefix rest name).0 (ground arith)),
  λ k. rw (eq_complete head slug k.0) ((Fits-iff is_prefix rest name).1 k.1),
)

match_tool_entry-Cut :
    (e slug name : Text) (is_prefix : Bool) (head rest : Text)
    → e ≢ []
    → Cut e head rest
    → split_entry e ≡ scoped_split head rest
    → (match_tool_entry e slug name is_prefix ≡ true) ↔ Reaches is_prefix e slug name
unfolding match_tool_entry
match_tool_entry-Cut [] slug name is_prefix head rest some_text cut s = absurd (some_text refl)
match_tool_entry-Cut (c ∷ e) slug name is_prefix head rest some_text cut s =
    let iff = match_cut head rest slug name is_prefix in
    (
      λ h. let (same, fits) = iff.0 (rw s at h) in (some_text, inl (rest, rw same at cut, fits)),
      λ k. rw s (iff.1 (reached k.1)),
    )
  where
    reached :
        (((rest' : Text) × Cut (c ∷ e) slug rest' × Fits is_prefix rest' name)
          ⊎ (Bare (c ∷ e) × Fits is_prefix (c ∷ e) name))
        → (head ≡ slug) × Fits is_prefix rest name
    reached (inl (rest', cut', fits)) =
        let (p, q) = Cut-unique (c ∷ e) head rest slug rest' cut cut' in
        (p, subst (λ r. Fits is_prefix r name) (sym q) fits)
    reached (inr (bare, fits)) = absurd (bare head rest cut)

match_tool_entry-Bare :
    (e slug name : Text) (is_prefix : Bool)
    → e ≢ []
    → Bare e
    → split_entry e ≡ record { head = []; rest = e; scoped = false }
    → (match_tool_entry e slug name is_prefix ≡ true) ↔ Reaches is_prefix e slug name
unfolding match_tool_entry
match_tool_entry-Bare [] slug name is_prefix some_text bare s = absurd (some_text refl)
match_tool_entry-Bare (c ∷ e) slug name is_prefix some_text bare s = (
  λ h. (some_text, inr (bare, (Fits-iff is_prefix (c ∷ e) name).0 (rw s at h))),
  λ k. rw s ((Fits-iff is_prefix (c ∷ e) name).1 (reached k.1)),
)
  where
    reached :
        (((rest' : Text) × Cut (c ∷ e) slug rest' × Fits is_prefix rest' name)
          ⊎ (Bare (c ∷ e) × Fits is_prefix (c ∷ e) name))
        → Fits is_prefix (c ∷ e) name
    reached (inl (rest', cut', fits)) = absurd (bare slug rest' cut')
    reached (inr (_, fits)) = fits

pub match_nil :
    (slug name : Text) (is_prefix : Bool) → match_tool_entry [] slug name is_prefix ≡ false
unfolding match_tool_entry
match_nil slug name is_prefix = refl

-- The matcher decides what an entry reaches: a cut entry the tools of its own member, a bare
-- entry the tools of every member, by the whole name or by its beginning; the empty entry
-- nothing.
pub match_tool_entry_iff :
    (e slug name : Text) (is_prefix : Bool)
    → (match_tool_entry e slug name is_prefix ≡ true) ↔ Reaches is_prefix e slug name
match_tool_entry_iff [] slug name is_prefix =
    (λ h. absurd (false≢true (sym (match_nil slug name is_prefix) ∙ h)), λ k. absurd (k.0 refl))
match_tool_entry_iff (c ∷ e) slug name is_prefix = elim (entry_cases (c ∷ e)) [
  | inl (head, rest, cut, s) ↦
      match_tool_entry-Cut (c ∷ e) slug name is_prefix head rest (λ k. ground arith) cut s
  | inr (bare, s) ↦ match_tool_entry-Bare (c ∷ e) slug name is_prefix (λ k. ground arith) bare s
]
