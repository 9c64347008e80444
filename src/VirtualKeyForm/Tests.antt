-- ===== src/VirtualKeyForm/Tests.antt =====
-- The key form's theorems at concrete inputs.
use porymcp.Base.{◌≡◌, refl, none, some, [], ◌∷◌, text, trim}
use porymcp.Json.Members.{end}
use porymcp.Api.{VirtualKey}
use porymcp.VirtualKeyForm.{
  KeyForm, virtual_key_patch_body, form_from_virtual_key, blank_virtual_key_form,
}
use porymcp.VirtualKeyForm.Untouched.{virtual_key_patch_body-form_from_virtual_key}

abbrev key_one : VirtualKey
key_one = record {
  id = [];
  name = text "CI";
  key_prefix = [];
  target_type = text "group";
  target_id = [];
  rate_limit = some 60;
  expires_at = none;
  status = [];
  last_used_at = none;
  created_at = [];
  api_key = none;
  proxy_url = none;
  tool_allowlist = some (text "docs__find" ∷ []);
  tool_denylist = none;
  lists_malformed = none;
  http_methods = some [];
  http_methods_malformed = none;
  endpoints = [];
}

abbrev bare_key_form : KeyForm
bare_key_form = record blank_virtual_key_form { tool_allowlist = text "find" ∷ [] }

abbrev key_two : VirtualKey
key_two = record key_one { tool_denylist = some (text "put" ∷ []) }

key_name_trimmed : trim key_one.name ≡ key_one.name
unfolding trim text
key_name_trimmed = refl

virtual_key_patch_body-form_from_virtual_key_example :
    virtual_key_patch_body key_one (form_from_virtual_key key_one) ≡ end
virtual_key_patch_body-form_from_virtual_key_example =
    virtual_key_patch_body-form_from_virtual_key key_one key_name_trimmed
