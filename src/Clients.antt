-- ===== src/Clients.antt =====
-- The configuration snippets for MCP clients (web/src/lib/clients.ts).
pub mod Keys
pub mod Entries
mod Tests
use porymcp.Base.{
  ℕ, zero, suc, ◌+◌, ◌-◌, ◌*◌, ◌/◌, ◌%◌, ◌≤◌, ◌<◌, String, ◌≡◌, refl, sym, ap, ap₂, subst, ◌∙◌, ◌≢◌,
  ◌↔◌, ◌⊎◌, inl, inr, Bool, true, false, false≢true, true≢false, not, ◌&&◌, ◌||◌, Option, none,
  some, List, [], ◌∷◌, ◌++◌, map, append-nil, append_assoc, arith, ltb, leb, eqb, if◌then◌else◌,
  eqb_iff, eqb_refl, Bool-cases, Option-cases, Bool-eq, and_parts, or_cases, or_right, not-true,
  or_false, some_inj, not-false, length, take, drop, any, all, filter, find, is_empty, All, or_else,
  length-append, take-append_length, drop-append_length, any-append, any-filter, any_ext,
  All-weaken, All-append, All-middle, All-both, Exists, any_iff, all_iff, is_found, find-any, Text,
  text, ◌==◌, starts_with, join, truthy, or_text, eq_sound, eq_refl, eq_complete, eq_iff,
  starts_with-append, starts_with_rest, trim_end, trim_start, trim, includes, Distinct, SubsetOf,
  SameSet, includes-append, any_of_includes, all_of_includes, all_intro, any_witness, any-SameSet,
  without, includes-without, Distinct-without, length-without, length-SubsetOf, SameSet-of_length,
  digits_onto, decimal,
}
use porymcp.Json.{Json, Items, Members, stringify, quote}
use porymcp.Json.Json.{str, arr, obj, bool}
use porymcp.Json.Items.{nil, cons}
use porymcp.Json.Members.{end, member}
use porymcp.ToolFilter.{lower}
use porymcp.SlugPreview.{collapse}
use porymcp.Clients.Entries.{Entry, from_entries, pretty}

pub data ClientKind : Type 0 where
  claude_code cursor codex opencode gemini curl : ClientKind

pub record SnippetServer : Type 0 where
  pub name : Text
  pub url : Text
  pub kind : Option Text
  pub test_path : Option Text

abbrev pub http_curl_hint : Text
http_curl_hint =
    text
      "Replace the path after /api/ with any path the API serves. An SDK takes this endpoint as its base URL and the key as its API key. Send the key as a bearer token or in X-Api-Key."

unfoldable pub is_http : SnippetServer → Bool
is_http s = or_else s.kind [] == text "http"

abbrev pub client_label : ClientKind → Text
client_label claude_code = text "Claude Code"
client_label cursor = text "Cursor"
client_label codex = text "Codex"
client_label opencode = text "OpenCode"
client_label gemini = text "Gemini CLI"
client_label curl = text "curl"

-- `.replace(/^-|-$/g, '')`
abbrev drop_dash : Text → Text
drop_dash [] = []
drop_dash (c ∷ s) = if eqb c b'-' then s else c ∷ s

drop_last_dash : Text → Text
drop_last_dash [] = []
drop_last_dash (c ∷ []) = if eqb c b'-' then [] else c ∷ []
drop_last_dash (c ∷ d ∷ s) = c ∷ drop_last_dash (d ∷ s)

unfoldable pub slug_name : Text → Text
unfolding drop_last_dash
slug_name name =
    or_text (drop_last_dash (drop_dash (collapse b'-' false (lower name)))) (text "porymcp")

-- `.replace(/-/g, '_')`
unfoldable pub dashes_to_unders : Text → Text
dashes_to_unders s = map (λ c. if eqb c b'-' then b'_' else c) s

unfoldable pub suffixed : Text → ℕ → Text
suffixed base n = base ++ (b'_' ∷ decimal n)

-- The loop over n in `tomlKeys`.
unfoldable pub pick_key : ℕ → ℕ → List Text → Text → Text → Text
unfolding suffixed
pick_key zero n used base key = key
pick_key (suc fuel) n used base key =
    let rest = pick_key fuel (suc n) used base (suffixed base n) in
    if includes used key then rest else key

-- As many rounds as there are keys in use are enough: the key that is then left is free.
unfoldable pub toml_key : List Text → Text → Text
unfolding pick_key
toml_key used base = pick_key (length used) 2 used base base

unfoldable pub toml_keys_from : List Text → List SnippetServer → List Text
unfolding toml_key dashes_to_unders
toml_keys_from used [] = []
toml_keys_from used (s ∷ servers) =
    let key = toml_key used (dashes_to_unders s.name) in key ∷ toml_keys_from (key ∷ used) servers

unfoldable pub toml_keys : List SnippetServer → List Text
unfolding toml_keys_from
toml_keys servers = toml_keys_from [] servers

abbrev newline : Text
newline = 10 ∷ []

bearer : Text → Text
bearer api_key = text "Bearer " ++ api_key

auth_header : Text → Text
unfolding bearer
auth_header api_key = text "Authorization: " ++ bearer api_key

headers_member : Text → Members
unfolding bearer
headers_member api_key =
    member (text "headers") (obj (member (text "Authorization") (str (bearer api_key)) end)) end

claude_line : Text → SnippetServer → Text
unfolding auth_header
claude_line api_key s =
    text "claude mcp add --transport http "
    ++ (s.name
        ++ (text " " ++ (s.url ++ (text " --header \"" ++ (auth_header api_key ++ text "\"")))))

entry_of : (SnippetServer → Members) → SnippetServer → Entry
entry_of body s = record { key = s.name; value = obj (body s) }

codex_tables : List Text → List SnippetServer → List Text
codex_tables [] servers = []
codex_tables (k ∷ ks) [] = []
codex_tables (k ∷ ks) (s ∷ servers) =
    join newline (
      (text "[mcp_servers." ++ (k ++ text "]"))
      ∷ (text "url = \"" ++ (s.url ++ text "\""))
      ∷ text "bearer_token_env_var = \"PORYMCP_KEY\""
      ∷ [])
    ∷ codex_tables ks servers

abbrev label_line : Bool → SnippetServer → List Text
label_line true s = (text "# " ++ s.name) ∷ []
label_line false s = []

curl_mcp : Text → Bool → SnippetServer → Text
unfolding auth_header
curl_mcp api_key labelled s = join newline (
    label_line labelled s
    ++ (text "curl -sS -X POST " ++ (s.url ++ text " \\"))
      ∷ (text "  -H \"" ++ (auth_header api_key ++ text "\" \\"))
      ∷ text "  -H \"Content-Type: application/json\" \\"
      ∷ text "  -H \"Accept: application/json, text/event-stream\" \\"
      ∷ text "  -d '{\"jsonrpc\":\"2.0\",\"id\":1,\"method\":\"tools/list\",\"params\":{}}'"
      ∷ [])

abbrev drop_slash : Text → Text
drop_slash [] = []
drop_slash (c ∷ s) = if eqb c b'/' then s else c ∷ s

curl_http : Text → Bool → SnippetServer → Text
unfolding auth_header
curl_http api_key labelled s = join newline (
    label_line labelled s
    ++ (text "curl -sS '" ++ (s.url ++ (drop_slash (or_else s.test_path []) ++ text "' \\")))
      ∷ (text "  -H \"" ++ (auth_header api_key ++ text "\""))
      ∷ [])

-- The snippet over the MCP entries and the HTTP entries.
unfoldable pub snippet_for : ClientKind → List SnippetServer → List SnippetServer → Text → Text
unfolding claude_line entry_of headers_member codex_tables curl_mcp curl_http toml_keys
snippet_for claude_code servers apis api_key = join newline (map (claude_line api_key) servers)
snippet_for cursor servers apis api_key = pretty (
    obj (
      member (text "mcpServers")
        (obj (
          from_entries
            (map (entry_of λ s. member (text "url") (str s.url) (headers_member api_key)) servers)))
        end))
snippet_for codex servers apis api_key = join newline (
    text "# In the shell that launches Codex:"
    ∷ (text "export PORYMCP_KEY='" ++ (api_key ++ text "'"))
    ∷ []
    ∷ text "# ~/.codex/config.toml"
    ∷ join (newline ++ newline) (codex_tables (toml_keys servers) servers)
    ∷ [])
snippet_for opencode servers apis api_key = pretty (
    obj (
      member (text "$schema") (str (text "https://opencode.ai/config.json")) (
        member (text "mcp")
          (obj (
            from_entries (
              map
                (entry_of λ s. member (text "type") (str (text "remote")) (
                  member (text "url") (str s.url)
                    (member (text "oauth") (bool false) (headers_member api_key))))
                servers)))
          end)))
snippet_for gemini servers apis api_key = pretty (
    obj (
      member (text "mcpServers")
        (obj (
          from_entries (
            map (entry_of λ s. member (text "httpUrl") (str s.url) (headers_member api_key))
              servers)))
        end))
snippet_for curl servers apis api_key =
    let labelled = ltb 1 (length servers + length apis) in
    join (newline ++ newline)
      (map (curl_mcp api_key labelled) servers ++ map (curl_http api_key labelled) apis)

abbrev pub is_curl : ClientKind → Bool
is_curl curl = true
is_curl _ = false

unfoldable pub client_snippet : ClientKind → List SnippetServer → Text → Text
unfolding snippet_for is_http
client_snippet kind all api_key =
    let servers = filter (λ s. not (is_http s)) all in
    let apis = filter is_http all in
    if not (is_curl kind) && is_empty servers
    then []
    else if is_curl kind && is_empty all
    then []
    else snippet_for kind servers apis api_key

-- `shape.mcp ?? !shape.http`
abbrev has_mcp : Option Bool → Option Bool → Bool
has_mcp none http = not (or_else http false)
has_mcp (some b) http = b

unfoldable pub client_hint : ClientKind → Option Bool → Option Bool → Text
client_hint curl mcp http = join (text " ") (
    (if has_mcp mcp http then text "Sanity-check the proxy before wiring a client." ∷ [] else [])
    ++ (if or_else http false then http_curl_hint ∷ [] else []))
client_hint claude_code mcp http =
    text "Run in a terminal, then /mcp inside Claude Code. Add -s user for every project."
client_hint cursor mcp http =
    text
      "Merge into .cursor/mcp.json in the project (or your Cursor user MCP config), then reload MCP."
client_hint codex mcp http =
    text "Add to ~/.codex/config.toml and export PORYMCP_KEY in the shell that launches Codex."
client_hint opencode mcp http =
    text "Merge into opencode.json. oauth must be false so OpenCode does not start an OAuth flow."
client_hint gemini mcp http = text "Merge into Gemini CLI settings.json (mcpServers)."
