-- ===== src/UpstreamForm/Credential.antt =====
-- The credential that a PATCH carries (authConfigFrom, credentialTyped and upstreamPatchBody of
-- web/src/lib/upstream-form.ts).
use porymcp.Base.{
  ◌≡◌, refl, sym, ap, subst, ◌∙◌, ◌≢◌, inl, inr, Bool, true, false, false≢true, true≢false, Option,
  none, some, [], ◌∷◌, arith, if◌then◌else◌, Bool-cases, some_inj, is_empty, Text, text, ◌==◌,
  truthy, eq_sound, trim_end, trim_start, trim, trim-trim,
}
use porymcp.UpstreamForm.{
  UpstreamForm, Config, field, lookup, assign, trim_name, sent_config, auth_config_from,
  credential_typed, oauth_fields, header_shaped, query_shaped,
}

-- A text that is not blank is not empty.
trim-truthy : (s : Text) → truthy (trim s) ≡ true → truthy s ≡ true
unfolding trim trim_start trim_end
trim-truthy [] h = h
trim-truthy (u ∷ s) h = refl

-- The kinds of credential that a dialog can send, and the config of each.
pub data Shape (f : UpstreamForm) : Type 0 where
  of_token : f.auth_type ≡ text "bearer" → truthy (trim f.token) ≡ true → Shape f
  of_header : header_shaped f.auth_type ≡ true → truthy (trim f.value) ≡ true → Shape f
  of_param : f.auth_type ≡ text "query" → truthy (trim f.value) ≡ true → Shape f
  of_client : f.auth_type ≡ text "oauth" → truthy (trim f.client_id) ≡ true → Shape f

run_shapes : Unit {0}
unfolding text header_shaped query_shaped
run_shapes = tt

pub typed-Shape : (f : UpstreamForm) → credential_typed f ≡ true → Shape f
unfolding credential_typed query_shaped
typed-Shape f h = elim (Bool-cases (f.auth_type == text "bearer")) [
  | inl e ↦ of_token (eq_sound f.auth_type _ e) (rw e at h)
  | inr b ↦ elim (Bool-cases (header_shaped f.auth_type)) [
    | inl e ↦ of_header e (rw (b, e) at h)
    | inr hs ↦ elim (Bool-cases (f.auth_type == text "query")) [
      | inl e ↦ of_param (eq_sound f.auth_type _ e) (rw (b, hs, e) at h)
      | inr q ↦ elim (Bool-cases (f.auth_type == text "oauth")) [
        | inl e ↦ of_client (eq_sound f.auth_type _ e) (rw (b, hs, q, e) at h)
        | inr o ↦ absurd (false≢true (rw (b, hs, q, o) at h))
      ]
    ]
  ]
]

pub query_one : query_shaped (text "query") ≡ true
unfolding run_shapes
query_one = refl

-- A type with a header is none of the others.
pub header_only :
    (t : Text)
    → header_shaped t ≡ true
    → ((t == text "bearer") ≡ false) × ((t == text "query") ≡ false) × ((t == text "oauth") ≡ false)
unfolding run_shapes
header_only t h = (apart (text "bearer") refl, apart (text "query") refl, apart (text "oauth") refl)
  where
    apart : (o : Text) → header_shaped o ≡ false → (t == o) ≡ false
    apart o k = elim (Bool-cases (t == o)) [
      | inr n ↦ n
      | inl e ↦ absurd (true≢false (sym h ∙ ap header_shaped (eq_sound t o e) ∙ k))
    ]

pub sent_token :
    (f : UpstreamForm)
    → f.auth_type ≡ text "bearer"
    → truthy (trim f.token) ≡ true
    → sent_config f ≡ some (field (text "token") f.token ∷ [])
unfolding sent_config credential_typed auth_config_from oauth_fields trim_name lookup run_shapes
sent_token f e h = rw (e, h, trim-truthy f.token h) refl

pub sent_header :
    (f : UpstreamForm)
    → header_shaped f.auth_type ≡ true
    → truthy (trim f.value) ≡ true
    → sent_config f ≡ (
        if is_empty (trim f.header)
        then none
        else some (field (text "header") (trim f.header) ∷ field (text "value") f.value ∷ []))
unfolding sent_config credential_typed auth_config_from oauth_fields trim_name lookup assign
    run_shapes
sent_header f e h =
    let (b, q, o) = header_only f.auth_type e in
    elim (Bool-cases (is_empty (trim f.header))) [
      | inl blank ↦ rw (b, q, o, e, h, trim-truthy f.value h, blank) refl
      | inr named ↦ rw (b, q, o, e, h, trim-truthy f.value h, named) refl
    ]

pub sent_param :
    (f : UpstreamForm)
    → f.auth_type ≡ text "query"
    → truthy (trim f.value) ≡ true
    → sent_config f ≡ (
        if is_empty (trim f.param)
        then none
        else some (field (text "param") (trim f.param) ∷ field (text "value") f.value ∷ []))
unfolding sent_config credential_typed auth_config_from oauth_fields trim_name lookup assign
    run_shapes
sent_param f e h = elim (Bool-cases (is_empty (trim f.param))) [
  | inl blank ↦ rw (e, h, trim-truthy f.value h, blank) refl
  | inr named ↦ rw (e, h, trim-truthy f.value h, named) refl
]

pub sent_client :
    (f : UpstreamForm)
    → f.auth_type ≡ text "oauth"
    → truthy (trim f.client_id) ≡ true
    → sent_config f
      ≡ some (
          field (text "client_id") (trim f.client_id)
          ∷ (if truthy f.client_secret
              then field (text "client_secret") f.client_secret ∷ []
              else []))
unfolding sent_config credential_typed auth_config_from oauth_fields trim_name lookup run_shapes
sent_client f e h = elim (Bool-cases (truthy f.client_secret)) [
  | inl secret ↦ rw (e, h, secret) refl
  | inr public ↦ rw (e, h, public) refl
]

-- A name that is not there, or is more than white space.
pub data Named : Option Text → Type 0 where
  nameless : Named none
  named : (t : Text) → truthy (trim t) ≡ true → Named (some t)

-- A config that may leave the browser: it is not empty, and a header's or a parameter's name in it
-- is more than white space.
abbrev pub WellNamed : Config → Type 0
WellNamed c = (c ≢ []) × Named (lookup (text "header") c) × Named (lookup (text "param") c)

trimmed : (t : Text) → truthy (trim t) ≡ true → Named (some (trim t))
trimmed t h = named (trim t) (ap truthy (trim-trim t) ∙ h)

if_named :
    (t : Text) {a c : Config}
    → (if is_empty t then none else some a) ≡ some c
    → (truthy t ≡ true) × (a ≡ c)
if_named [] h = cc
if_named (u ∷ t) h = (refl, some_inj h)

Shape-WellNamed : (f : UpstreamForm) (c : Config) → Shape f → sent_config f ≡ some c → WellNamed c
unfolding lookup run_shapes
Shape-WellNamed f c (of_token e h) k =
    subst WellNamed (some_inj (sym (sent_token f e h) ∙ k))
      ((λ z. ground arith), nameless, nameless)
Shape-WellNamed f c (of_header e h) k =
    let (t, same) = if_named (trim f.header) (sym (sent_header f e h) ∙ k) in
    subst WellNamed same ((λ z. ground arith), trimmed f.header t, nameless)
Shape-WellNamed f c (of_param e h) k =
    let (t, same) = if_named (trim f.param) (sym (sent_param f e h) ∙ k) in
    subst WellNamed same ((λ z. ground arith), nameless, trimmed f.param t)
Shape-WellNamed f c (of_client e h) k =
    subst WellNamed (some_inj (sym (sent_client f e h) ∙ k)) (go (truthy f.client_secret))
  where
    go :
        (b : Bool)
        → WellNamed (
            field (text "client_id") (trim f.client_id)
            ∷ (if b then field (text "client_secret") f.client_secret ∷ [] else []))
    go true = ((λ z. ground arith), nameless, nameless)
    go false = ((λ z. ground arith), nameless, nameless)

-- Whatever is typed, a credential that a PATCH carries is not empty, and the name of a header or
-- of a query parameter in it is more than white space.
pub sent_config-WellNamed : (f : UpstreamForm) (c : Config) → sent_config f ≡ some c → WellNamed c
unfolding sent_config
sent_config-WellNamed f c k = elim (Bool-cases (credential_typed f)) [
  | inl on ↦ Shape-WellNamed f c (typed-Shape f on) k
  | inr off ↦ absurd (nothing (rw off at k))
]
  where
    nothing : none ≡ some c → ⊥
    nothing h = cc
