-- ===== src/UpstreamForm/Tests.antt =====
-- The theorems on the Edit dialog's form at concrete upstreams.
use porymcp.Base.{
  ◌≡◌, refl, ◌⊎◌, true, false≢true, none, some, [], ◌∷◌, text, trim_end, trim_start, trim,
}
use porymcp.Json.Members.{end}
use porymcp.Api.{Upstream}
use porymcp.UpstreamForm.{
  UpstreamForm, Config, field, sent_config, credential_typed, form_from_upstream,
  upstream_patch_body, auth_type_sent, credential_required, header_required, param_required,
  header_shaped, query_shaped,
}
use porymcp.UpstreamForm.Credential.{WellNamed, sent_config-WellNamed}
use porymcp.UpstreamForm.Carried.{Carries, sent_config-required}
use porymcp.UpstreamForm.Untouched.{upstream_patch_body-form_from_upstream}
use porymcp.UpstreamForm.Removal.{credential_required-auth_type}

-- A server with a stored header.
abbrev stored : Upstream
stored = record {
  id = text "1";
  name = text "GitHub";
  slug = text "github";
  description = none;
  kind = text "mcp";
  url = text "https://a.b/mcp";
  transport = text "streamable-http";
  test_path = none;
  auth_type = text "header";
  enabled = true;
  auth_configured = true;
  auth_status = text "ok";
  auth_hint = some (record { header = some (text "X-Key"); param = none });
  oauth = none;
  last_test_at = none;
  last_test_ok = none;
  created_at = [];
  updated_at = [];
}

-- A new value typed for it, and the auth type changed to None.
abbrev typed : UpstreamForm
unfolding form_from_upstream
typed = record (form_from_upstream stored) { value = text "k" }

abbrev removed_form : UpstreamForm
unfolding form_from_upstream
removed_form = record (form_from_upstream stored) { auth_type = text "none" }

abbrev typed_oauth : UpstreamForm
unfolding form_from_upstream
typed_oauth = record (form_from_upstream stored) { auth_type = text "oauth" }

abbrev typed_config : Config
typed_config = field (text "header") (text "X-Key") ∷ field (text "value") (text "k") ∷ []

typed_sent : sent_config typed ≡ some typed_config
unfolding sent_config text trim trim_start trim_end typed
typed_sent = refl

sent_config-WellNamed_example : WellNamed typed_config
sent_config-WellNamed_example = sent_config-WellNamed typed typed_config typed_sent

sent_config-required_example : Carries typed (sent_config typed)
unfolding credential_typed text trim trim_start trim_end typed header_required param_required
    header_shaped query_shaped
sent_config-required_example =
    sent_config-required (some stored) typed refl (λ h. refl) (λ h. absurd (false≢true h))

upstream_patch_body-form_from_upstream_example :
    upstream_patch_body stored (form_from_upstream stored) ≡ end
unfolding text trim trim_start trim_end
upstream_patch_body-form_from_upstream_example =
    upstream_patch_body-form_from_upstream stored refl refl refl

credential_required-auth_type_example :
    (typed_oauth.auth_type ≡ text "none") ⊎ (typed_oauth.auth_type ≡ text "oauth")
unfolding credential_required auth_type_sent text typed_oauth
credential_required-auth_type_example = credential_required-auth_type stored typed_oauth refl refl
