-- ===== src/UpstreamsPage/Tests.antt =====
-- The Add dialog opened, a name typed, and the connection discovered.
use porymcp.Base.{
  ◌≤◌, ◌≡◌, refl, ◌⊎◌, true, false, Option, none, some, [], Text, text, trim_end, trim_start, trim,
}
use porymcp.Api.{Upstream, Discovery, unreachable}
use porymcp.Api.Errors.{edit_error_message, upstream, save}
use porymcp.UpstreamsPage.{
  UpstreamsPage, fresh_page, open_add, on_field_change, discover_form, text_patch, name, created,
  create_refused, patch_saved, Reach, starts, steps, adds, types, submit, submits, creating,
}
use porymcp.UpstreamsPage.Patches.{Follows}
use porymcp.UpstreamsPage.Kept.{Reach-Follows}
use porymcp.OauthConnect.{Url}
use porymcp.UpstreamsPage.Rows
use porymcp.UpstreamsPage.Rows.{
  Rows, fresh_rows, open_tools, connect, tested_row, found_tools, starts_of, begins, opens,
  connects,
}
use porymcp.UpstreamsPage.RowsKept.{tools_id, Reach-starts_of, Reach-tested_row}
use porymcp.UpstreamsPage.Seqs.{is_create}
use porymcp.UpstreamsPage.Late.{dialog_of, opens_add, now, and_then, dialog_of-late}
use porymcp.UpstreamForm.{client_secret_alone}

abbrev adding : UpstreamsPage
adding = open_add (fresh_page [] none)

abbrev named : UpstreamsPage
named = on_field_change (text_patch name (text "GitHub")) adding

named-Reach : Reach named
named-Reach = steps (steps (starts [] none) adds) (types name (text "GitHub"))

Reach-Follows_example : Follows named.form
unfolding open_add on_field_change text
Reach-Follows_example = Reach-Follows named named-Reach refl refl refl

abbrev asking : UpstreamsPage
asking = discover_form named

abbrev nothing_found : Discovery
nothing_found = record {
  ok = true;
  kind = text "mcp";
  http_status = none;
  latency_ms = 5;
  protocol_version = none;
  era = none;
  supported_versions = none;
  capabilities = none;
  slug = none;
  tool_count = 0;
  tools = none;
  truncated = false;
  unnameable_tools = none;
  error = none;
  upstream_message = none;
}

abbrev a_row : Upstream
a_row = record {
  id = text "1";
  name = text "GitHub";
  slug = text "github";
  description = none;
  kind = text "mcp";
  url = text "https://a.b/mcp";
  transport = text "streamable-http";
  test_path = none;
  auth_type = text "header";
  enabled = true;
  auth_configured = true;
  auth_status = text "ok";
  auth_hint = some (record { header = some (text "X-Key"); param = none });
  oauth = none;
  last_test_at = none;
  last_test_ok = none;
  created_at = [];
  updated_at = [];
}

-- A create sent, the dialog opened again, and a name typed in it before the answer.
abbrev sent_off : UpstreamsPage
sent_off = submit named

abbrev opened_again : UpstreamsPage
opened_again = open_add sent_off

abbrev typed_again : UpstreamsPage
typed_again = on_field_change (text_patch name (text "GitLab")) opened_again

sent_off-Reach : Reach sent_off
sent_off-Reach = steps named-Reach submits

dialog_of-late_example :
    (dialog_of (created 1 typed_again) ≡ dialog_of typed_again)
    × (dialog_of (create_refused 1 unreachable typed_again) ≡ dialog_of typed_again)
    × (dialog_of (patch_saved 1 a_row typed_again) ≡ dialog_of typed_again)
    × ((create_refused 1 unreachable typed_again).error
        ≡ edit_error_message unreachable upstream save)
unfolding open_add on_field_change text submit client_secret_alone trim trim_start trim_end
    porymcp.UpstreamsPage.create
dialog_of-late_example =
    dialog_of-late sent_off opened_again typed_again [] [] (creating 1) 1 unreachable a_row
      sent_off-Reach refl (is_create 1) opens_add (and_then now (types name (text "GitLab")))

-- A row's tools opened, and its Connect pressed.
abbrev no_url : Text → Option Url
no_url t = none

abbrev on_tools : Rows
on_tools = open_tools a_row (fresh_rows (fresh_page [] none))

on_tools-Reach : porymcp.UpstreamsPage.Rows.Reach no_url on_tools
on_tools-Reach = porymcp.UpstreamsPage.Rows.steps (begins (fresh_page [] none)) (opens a_row)

Reach-tested_row_example :
    ((tested_row 1 (found_tools nothing_found) on_tools).row_discovery ≡ on_tools.row_discovery)
    ⊎ (tools_id on_tools.tools ≡ some (text "1"))
Reach-tested_row_example =
    Reach-tested_row no_url on_tools [] [] 1 (text "1") (found_tools nothing_found) on_tools-Reach
      refl

abbrev signing_in : Rows
signing_in = connect a_row on_tools

Reach-starts_of_example :
    (starts_of signing_in.row_calls ≤ 1)
    × ((starts_of signing_in.row_calls ≡ 0) ⊎ (connect a_row signing_in ≡ signing_in))
Reach-starts_of_example =
    Reach-starts_of no_url signing_in a_row
      (porymcp.UpstreamsPage.Rows.steps on_tools-Reach (connects a_row))
