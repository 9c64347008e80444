-- ===== src/Api/Errors.antt =====
-- One sentence for a failed request (requestErrorMessage of web/src/lib/api.ts, editErrorMessage
-- of web/src/lib/edit-error.ts, discoveryErrorMessage of web/src/lib/discovery.ts,
-- connectErrorMessage of web/src/lib/oauth-connect.ts, listErrorMessage of
-- web/src/lib/logs-view.ts).
use porymcp.Base.{
  ℕ, ◌≡◌, refl, Bool, true, false, ◌&&◌, ◌||◌, Option, none, some, ◌++◌, eqb, if◌then◌else◌, Text,
  text, ◌==◌, truthy, decimal,
}
use porymcp.Api.{ApiError, Failure, api_error, unreachable}

abbrev seconds : ℕ → Text
seconds n = if eqb n 1 then text "second" else text "seconds"

retry_sentence : Text → Text → Option ℕ → Text
retry_sentence start without_number none = without_number
retry_sentence start without_number (some n) =
    start ++ (decimal n ++ (text " " ++ (seconds n ++ text ".")))

api_error_message : ApiError → Text
unfolding retry_sentence
api_error_message e =
    if eqb e.status 429
    then retry_sentence (text "Too many requests. Try again in ")
        (text "Too many requests. Try again in a minute.") e.retry_after_seconds
    else if eqb e.status 401
    then text "This browser session is no longer signed in. Reload the page to sign in again."
    else e.message

unfoldable pub request_error_message : Failure → Text
unfolding api_error_message
request_error_message (api_error e) = api_error_message e
request_error_message unreachable =
    text "Could not reach PoryMCP. Check that the server is still running."

unfoldable pub discovery_error_message : Failure → Text
unfolding retry_sentence
discovery_error_message (api_error e) =
    if eqb e.status 429
    then retry_sentence (text "Too many discovery requests. Try again in ")
        (text "Too many discovery requests. Try again shortly.") e.retry_after_seconds
    else request_error_message (api_error e)
discovery_error_message unreachable = request_error_message unreachable

unfoldable pub connect_error_message : Failure → Text
connect_error_message (api_error e) =
    if eqb e.status 404
    then text "This upstream no longer exists. The list has been reloaded."
    else if eqb e.status 400 || eqb e.status 502
    then e.message
    else discovery_error_message (api_error e)
connect_error_message unreachable = discovery_error_message unreachable

pub data EditResource : Type 0 where
  upstream group virtual_key : EditResource

pub data EditAction : Type 0 where
  save delete load : EditAction

abbrev resource_name : EditResource → Text
resource_name upstream = text "upstream"
resource_name group = text "group"
resource_name virtual_key = text "virtual key"

abbrev still_used : EditResource → Text → Text
still_used upstream message =
    text "This upstream is still used by a group or a virtual key. Remove it there first."
still_used group message =
    text "This group is still targeted by a virtual key. Delete that key first."
still_used virtual_key message = message

abbrev is_delete : EditAction → Bool
is_delete delete = true
is_delete _ = false

unfoldable pub edit_error_message : Failure → EditResource → EditAction → Text
edit_error_message (api_error e) resource action =
    if eqb e.status 404
    then text "This "
      ++ (resource_name resource
          ++ text " no longer exists. Close this dialog to see the current list.")
    else if eqb e.status 409 && is_delete action
    then still_used resource e.message
    else request_error_message (api_error e)
edit_error_message unreachable resource action = request_error_message unreachable

-- The server's text for a read that its deadline stopped.
abbrev pub log_read_timeout : Text
log_read_timeout = text "log query took too long"

unfoldable pub list_error_message : Failure → Text → Text
list_error_message (api_error e) slow =
    if eqb e.status 503 && e.message == log_read_timeout
    then slow
    else request_error_message (api_error e)
list_error_message unreachable slow = request_error_message unreachable

-- What is said of a 429 is never the empty text.
pub discovery_error_message-truthy :
    (e : ApiError) → eqb e.status 429 ≡ true → truthy (discovery_error_message (api_error e)) ≡ true
unfolding discovery_error_message retry_sentence text
discovery_error_message-truthy e h = rw h (go e.retry_after_seconds)
  where
    go :
        (n : Option ℕ)
        → truthy (
            retry_sentence
              (text "Too many discovery requests. Try again in ")
              (text "Too many discovery requests. Try again shortly.")
              n)
          ≡ true
    go none = refl
    go (some n) = refl
