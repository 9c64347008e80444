-- ===== src/AdminEvent/Tests.antt =====
-- A row of the Admin events table.
use porymcp.Base.{◌≡◌, refl, true, false≢true, [], text, join}
use porymcp.Json.{Json}
use porymcp.Json.Json.{null, bool, str}
use porymcp.Json.Members.{end, member}
use porymcp.AdminEvent.{AdminEvent, changed_text, changed_parts, strings, unknown_keys}
use porymcp.AdminEvent.Details.{changed_text-Alike}

abbrev event_with : Json → AdminEvent
event_with v = record {
  id = [];
  timestamp = [];
  actor = text "admin";
  action = text "upstream.create";
  resource_type = [];
  resource_id = text "1";
  resource_name = text "GitHub";
  details = member (text "slug") (str (text "github")) (member (text "region") v end);
  request_id = [];
  remote_addr = [];
}

shown : changed_text (event_with null) ≡ text "slug github, region"
unfolding changed_text text join changed_parts strings unknown_keys
shown = refl

changed_text-Alike_example : changed_text (event_with null) ≡ changed_text (event_with (bool true))
unfolding text
changed_text-Alike_example =
    changed_text-Alike (event_with null) (event_with (bool true)) refl
      (refl, (λ h. refl), (refl, (λ h. absurd (false≢true h)), tt))
