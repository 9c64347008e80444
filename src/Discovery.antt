-- ===== src/Discovery.antt =====
-- The discovery panel's checks and lines (web/src/lib/discovery.ts); the sentence of a failed
-- discovery is in Api/Errors.antt. `new_url` is the browser's `new URL`.
use porymcp.Base.{
  Bool, false, not, ◌&&◌, ◌||◌, Option, none, some, [], ◌∷◌, ◌++◌, if◌then◌else◌, is_empty, or_else,
  Text, text, ◌==◌, truthy, or_text, trim, includes,
}
use porymcp.Api.{Discovery}
use porymcp.OauthConnect.{Url, is_web}

abbrev pub is_loopback : Text → Bool
is_loopback hostname =
    includes (text "localhost" ∷ text "127.0.0.1" ∷ text "[::1]" ∷ [])
      (if hostname == text "::1" then text "[::1]" else hostname)

abbrev pub plain_http_note : Text
plain_http_note = text "This upstream uses plain http, so the credential travels unencrypted."

abbrev host_or_empty : Option Url → Text
host_or_empty none = []
host_or_empty (some u) = u.host

abbrev plain_and_remote : Option Url → Bool
plain_and_remote none = false
plain_and_remote (some u) = u.protocol == text "http:" && not (is_loopback u.hostname)

module _ (new_url : Text → Option Url) where
  unfoldable pub discoverable : Text → Bool
  discoverable url = is_web (new_url (trim url))

  unfoldable pub host_of : Text → Text
  host_of url = host_or_empty (new_url (trim url))

  unfoldable pub plain_http_credential : Text → Text → Bool
  plain_http_credential url auth_type =
      if is_empty auth_type || auth_type == text "none"
      then false
      else plain_and_remote (new_url (trim url))

abbrev pub spoken_how : Text → Text
spoken_how era = if era == text "modern" then text "stateless" else text "handshake"

unfoldable pub protocol_summary : Discovery → Text
protocol_summary result =
    let version = or_else result.protocol_version [] in
    let era = or_else result.era [] in
    if is_empty era
    then version
    else if truthy version
    then version ++ text ", " ++ spoken_how era
    else spoken_how era ++ text ", no version agreed"

unfoldable pub probe_request_line : Option Text → Text
probe_request_line test_path = text "GET " ++ or_text (or_else test_path []) (text "/")
