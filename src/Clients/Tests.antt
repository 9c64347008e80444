-- ===== src/Clients/Tests.antt =====
-- Runs of the snippets, and the keys' theorem at concrete servers.
use porymcp.Base.{String, ◌≡◌, refl, none, List, [], ◌∷◌, length, text, Distinct, decimal}
use porymcp.ToolFilter.{lower}
use porymcp.Clients.{SnippetServer, toml_keys, slug_name, client_snippet, cursor}
use porymcp.Clients.Entries.{from_entries, pretty}
use porymcp.Clients.Keys.{toml_keys-Distinct}

abbrev named : String → SnippetServer
named n = record { name = text n; url = text "http://h/"; kind = none; test_path = none }

abbrev colliding : List SnippetServer
colliding = named "github-mcp" ∷ named "github_mcp" ∷ named "github_mcp_2" ∷ []

colliding_keys :
    toml_keys colliding ≡ text "github_mcp" ∷ text "github_mcp_2" ∷ text "github_mcp_2_2" ∷ []
unfolding toml_keys text decimal
colliding_keys = refl

names : (slug_name (text "My Key!") ≡ text "my-key") × (slug_name (text "--") ≡ text "porymcp")
unfolding slug_name text lower porymcp.SlugPreview.collapse
names = (refl, refl)

cursor_snippet :
    client_snippet cursor (named "docs" ∷ []) (text "k")
    ≡ text
        "{\n  \"mcpServers\": {\n    \"docs\": {\n      \"url\": \"http://h/\",\n      \"headers\": {\n        \"Authorization\": \"Bearer k\"\n      }\n    }\n  }\n}"
unfolding client_snippet text from_entries pretty porymcp.Json.stringify
cursor_snippet = refl

toml_keys-Distinct_example :
    Distinct (toml_keys colliding) × (length (toml_keys colliding) ≡ length colliding)
toml_keys-Distinct_example = toml_keys-Distinct colliding
