-- ===== src/PolicyView/Tests.antt =====
-- A key whose HTTP API left its group.
use porymcp.Base.{◌≡◌, refl, true, false, none, [], ◌∷◌, text}
use porymcp.PolicyView.{PolicyView, http, visible_blocks, count_at}
use porymcp.PolicyView.Blocks.{draws}

abbrev left : PolicyView
left = record {
  virtual_key_id = text "k";
  status = text "active";
  target_type = text "group";
  target_slug = [];
  target_kinds = text "mcp" ∷ [];
  order = [];
  key_denylist = none;
  key_allowlist = none;
  lists_malformed = false;
  group_tool_filter = none;
  http_methods = none;
  http_methods_malformed = false;
  egress = record { allow_loopback = false; deny_private = false };
  blocked = record {
    since = [];
    until = [];
    by_rule = record { id = text "http_methods"; count = 2 } ∷ [];
    upstream_address_denied = 0;
    upstream_address_denied_by_class = [];
  };
}

still_drawn : draws (visible_blocks left) http ≡ true
unfolding text visible_blocks count_at
still_drawn = refl
