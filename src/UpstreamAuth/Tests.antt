-- ===== src/UpstreamAuth/Tests.antt =====
-- The Auth cell's theorem at a concrete upstream.
use porymcp.Base.{none, some, text}
use porymcp.UpstreamAuth.{AuthFields}

abbrev lost_key : AuthFields
lost_key = record {
  auth_type = some (text "bearer");
  auth_status = text "undecryptable";
  oauth = none;
}
