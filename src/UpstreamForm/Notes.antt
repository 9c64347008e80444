-- ===== src/UpstreamForm/Notes.antt =====
-- What the Edit upstream dialog says beside its fields (web/src/lib/upstream-form.ts).
use porymcp.Base.{
  Bool, true, false, not, ◌&&◌, ◌||◌, Option, none, some, [], ◌++◌, if◌then◌else◌, is_empty,
  or_else, Text, text, ◌==◌, truthy, trim,
}
use porymcp.Api.{Upstream}
use porymcp.UpstreamAuth.{
  AuthFields, AuthTone, broken, held, idle, auth_state, connect_label, expiry_text,
}
use porymcp.UpstreamForm.{
  UpstreamForm, header_shaped, query_shaped, hint_header, hint_param, credential_required,
  auth_type_label,
}

abbrev fields_of : Upstream → AuthFields
fields_of u = record { auth_type = some u.auth_type; auth_status = u.auth_status; oauth = u.oauth }

unfoldable pub credential_name_suffix : Text → Text
credential_name_suffix auth_type =
    if header_shaped auth_type
    then text " The header name is stored with it, so enter that too."
    else if query_shaped auth_type
    then text " The parameter name is stored with it, so enter that too."
    else []

in_menu : Text → Text → Text → Text
in_menu start item rest = start ++ (text " Choose " ++ (item ++ rest))

unfoldable pub tone_sentence : AuthTone → Option Text → Text → Text
unfolding in_menu
tone_sentence idle expires item =
    in_menu (text "Not connected.") item
      (text " in the upstream's Actions menu to sign in to the vendor.")
tone_sentence held expires item =
    in_menu
      (text "The vendor refused to renew the access token, or it lapsed with no refresh token.")
      item (text " in the upstream's Actions menu to sign in again.")
tone_sentence broken expires item =
    text
      "The stored token cannot be read with the current encryption key. Restore the key it was saved under, or choose "
    ++ (item ++ text " in the upstream's Actions menu to sign in again.")
tone_sentence _ (some at) item =
    in_menu
      (text
        "Connected. The vendor issued no refresh token, so the connection ends at the time shown in the table.")
      item (text " in the upstream's Actions menu after that.")
tone_sentence _ none item = text "Connected. PoryMCP renews the access token before it expires."

unfoldable pub oauth_description : Upstream → Text
unfolding tone_sentence
oauth_description before =
    let state = auth_state (fields_of before) in
    tone_sentence state.tone state.expires_at (connect_label before.oauth)

abbrev is_broken : AuthTone → Bool
is_broken broken = true
is_broken _ = false

keep_sentence : Text → Text → Text
keep_sentence name noun =
    if is_empty name
    then text "Leave blank to keep the stored credential. A value here replaces it."
    else text "Leave blank to keep the stored credential. It currently sends the "
      ++ (name ++ (text " " ++ (noun ++ text ". A value here replaces it.")))

-- `header ?? param`
abbrev hint_name : Option Text → Option Text → Text
hint_name (some h) p = h
hint_name none p = or_else p []

unfoldable pub credential_help : Upstream → UpstreamForm → Text
unfolding oauth_description credential_name_suffix keep_sentence
credential_help before f =
    let header = hint_header before.auth_hint in
    if f.auth_type == text "oauth"
    then oauth_description before
    else if is_broken (auth_state (fields_of before)).tone
    then (if before.auth_status == text "undecryptable"
        then text
            "The stored credential cannot be read with the current encryption key. Enter it again, or restore the key it was saved under. Until then this upstream cannot authenticate."
        else text
            "No usable credential is stored for this auth type. Enter one, or this upstream cannot authenticate.")
      ++ credential_name_suffix f.auth_type
    else keep_sentence (hint_name header (hint_param before.auth_hint))
        (if truthy (or_else header []) then text "header" else text "query parameter")

unfoldable pub edit_credential_description : Upstream → UpstreamForm → Text
unfolding credential_help
edit_credential_description before f =
    if f.auth_type == text "oauth" && not (before.auth_type == text "oauth")
    then if before.auth_configured
      then text "Saving removes the stored credential. Connect the upstream after saving."
      else text "Connect the upstream after saving."
    else if credential_required before f
    then if not (f.auth_type == before.auth_type)
      then if before.auth_type == text "none"
        then text "Enter the credential for " ++ (auth_type_label f.auth_type ++ text ".")
        else text "Changing the auth type changes what PoryMCP sends. Enter the credential for "
          ++ (auth_type_label f.auth_type ++ text " to save.")
      else if query_shaped f.auth_type
      then text
          "The parameter name is stored inside the credential. Enter the value again to change the name."
      else text
          "The header name is stored inside the credential. Enter the value again to change the name."
    else credential_help before f

unfoldable pub url_changed : Option Upstream → UpstreamForm → Bool
url_changed none f = false
url_changed (some before) f =
    not (trim f.url == before.url)
    && before.auth_status == text "ok"
    && not (before.auth_type == text "oauth")

unfoldable pub url_change_description : Option Upstream → UpstreamForm → Option Text
url_change_description none f = none
url_change_description (some before) f =
    if trim f.url == before.url
    then none
    else if before.auth_type == text "oauth"
    then if not before.auth_configured
      then none
      else if truthy (expiry_text before.oauth)
      then some (text "Saving a new URL disconnects this upstream. Connect it again afterwards.")
      else some (
          text
            "Saving a new URL removes the stored client ID. Enter it again if the new address needs it.")
    else if before.auth_status == text "ok"
    then some (text "PoryMCP sends the stored credential to the new address from the next request.")
    else none

unfoldable pub remove_credential_description : Option Upstream → UpstreamForm → Option Text
remove_credential_description none f = none
remove_credential_description (some before) f =
    if before.auth_type == text "none" || not before.auth_configured
    then none
    else if not (f.auth_type == text "none")
    then none
    else some (
        text
          "Saving removes the stored credential. It cannot be recovered. Switching back later means entering it again.")

unfoldable pub clear_stored_description : Option Upstream → UpstreamForm → Option Text
clear_stored_description none f = none
clear_stored_description (some before) f =
    if not (before.auth_type == text "none") || not before.auth_configured
    then none
    else if not (f.auth_type == text "none")
    then none
    else some (
        text
          "A value is still stored for this upstream and is not sent, because the auth type is None. Saving with this ticked removes it.")
