-- ===== src/UpstreamForm/Carried.antt =====
-- What a PATCH says of the credential that was typed (authConfigFrom and credentialTyped of
-- web/src/lib/upstream-form.ts, headerRequired and paramRequired of the dialog).
use porymcp.Base.{
  ◌≡◌, refl, sym, ap, subst, ◌∙◌, inl, inr, Bool, true, false, not, ◌&&◌, ◌||◌, Option, none, some,
  [], ◌∷◌, if◌then◌else◌, Bool-cases, not-true, Text, text, ◌==◌, truthy, trim,
}
use porymcp.UpstreamForm.{
  UpstreamForm, Config, field, lookup, sent_config, credential_typed, header_shaped, query_shaped,
  header_required, param_required,
}
use porymcp.UpstreamForm.Credential.{
  Shape, of_token, of_header, of_param, of_client, typed-Shape, query_one, header_only, sent_token,
  sent_header, sent_param, sent_client,
}
use porymcp.Api.{Upstream}

asked : (a b c : Bool) → a ≡ true → b ≡ true → (if not a then false else b || c) ≡ true
asked a b c h k = rw (h, k) refl

-- A value that is there on a condition.
abbrev when : Bool → Text → Option Text
when b t = if b then some t else none

-- A config that says what was typed: under each key, what its input holds, where the credential
-- is of a kind with that key, and nothing where it is not.
pub record Says (f : UpstreamForm) (c : Config) : Type 0 where
  pub token : lookup (text "token") c ≡ when (f.auth_type == text "bearer") f.token
  pub header : lookup (text "header") c ≡ when (header_shaped f.auth_type) (trim f.header)
  pub param : lookup (text "param") c ≡ when (f.auth_type == text "query") (trim f.param)
  pub value :
      lookup (text "value") c
      ≡ when (header_shaped f.auth_type || f.auth_type == text "query") f.value
  pub client_id :
      lookup (text "client_id") c ≡ when (f.auth_type == text "oauth") (trim f.client_id)
  pub client_secret :
      lookup (text "client_secret") c
      ≡ when (f.auth_type == text "oauth" && truthy f.client_secret) f.client_secret

-- What is sent is there, and says what was typed.
pub data Carries (f : UpstreamForm) : Option Config → Type 0 where
  carries : (c : Config) → Says f c → Carries f (some c)

carried_token :
    (f : UpstreamForm) → f.auth_type ≡ text "bearer" → Says f (field (text "token") f.token ∷ [])
unfolding lookup text header_shaped query_shaped
carried_token f e = record {
  token = rw e refl;
  header = rw e refl;
  param = rw e refl;
  value = rw e refl;
  client_id = rw e refl;
  client_secret = rw e refl;
}

carried_header :
    (f : UpstreamForm)
    → header_shaped f.auth_type ≡ true
    → Says f (field (text "header") (trim f.header) ∷ field (text "value") f.value ∷ [])
unfolding lookup text header_shaped query_shaped
carried_header f e =
    let (b, q, o) = header_only f.auth_type e in
    record {
      token = rw b refl;
      header = rw e refl;
      param = rw q refl;
      value = rw e refl;
      client_id = rw o refl;
      client_secret = rw o refl;
    }

carried_param :
    (f : UpstreamForm)
    → f.auth_type ≡ text "query"
    → Says f (field (text "param") (trim f.param) ∷ field (text "value") f.value ∷ [])
unfolding lookup text header_shaped query_shaped
carried_param f e = record {
  token = rw e refl;
  header = rw e refl;
  param = rw e refl;
  value = rw e refl;
  client_id = rw e refl;
  client_secret = rw e refl;
}

carried_client :
    (f : UpstreamForm)
    → f.auth_type ≡ text "oauth"
    → Says f (
        field (text "client_id") (trim f.client_id)
        ∷ (if truthy f.client_secret
            then field (text "client_secret") f.client_secret ∷ []
            else []))
unfolding lookup text header_shaped query_shaped
carried_client f e = elim (Bool-cases (truthy f.client_secret)) [
  | inl secret ↦ rw secret (record {
    token = rw e refl;
    header = rw e refl;
    param = rw e refl;
    value = rw e refl;
    client_id = rw e refl;
    client_secret = rw (e, secret) refl;
  })
  | inr public ↦ rw public (record {
    token = rw e refl;
    header = rw e refl;
    param = rw e refl;
    value = rw e refl;
    client_id = rw e refl;
    client_secret = rw (e, public) refl;
  })
]

sends : (f : UpstreamForm) {o : Option Config} (c : Config) → o ≡ some c → Says f c → Carries f o
sends f c e s = subst (Carries f) (sym e) (carries c s)

-- A credential that was typed is carried, where the name boxes that the dialog requires are
-- filled, and says under each key what was typed: a token, a value and a client secret as they
-- are, a header's, a parameter's and a client's name trimmed.
pub sent_config-required :
    (before : Option Upstream) (f : UpstreamForm)
    → credential_typed f ≡ true
    → (header_required before f ≡ true → truthy (trim f.header) ≡ true)
    → (param_required before f ≡ true → truthy (trim f.param) ≡ true)
    → Carries f (sent_config f)
unfolding header_required param_required
sent_config-required before f on h p = go (typed-Shape f on)
  where
    go : Shape f → Carries f (sent_config f)
    go (of_token e k) = sends f _ (sent_token f e k) (carried_token f e)
    go (of_client e k) = sends f _ (sent_client f e k) (carried_client f e)
    go (of_header e k) =
        let filled = h (asked (header_shaped f.auth_type) (credential_typed f) _ e on) in
        sends f _ (sent_header f e k ∙ rw (not-true _ filled) refl) (carried_header f e)
    go (of_param e k) =
        let filled = p (
          asked (query_shaped f.auth_type) (credential_typed f) _ (ap query_shaped e ∙ query_one)
            on) in
        sends f _ (sent_param f e k ∙ rw (not-true _ filled) refl) (carried_param f e)
