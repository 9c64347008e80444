-- ===== src/OauthConnect/Tests.antt =====
-- Choices of two upstreams, one of them ticked.
use porymcp.Base.{true, false, Option, none, some, List, [], ◌∷◌, if◌then◌else◌, Text, text, ◌==◌}
use porymcp.Json.{Json, stringify}
use porymcp.Json.Json.{obj}
use porymcp.OauthConnect.{Storage, Choice, kept_choices}

abbrev tab : Storage
tab = record { stored = none; refuses_read = false; refuses_write = false }

abbrev two : List Choice
two = record { id = text "a"; ticked = true } ∷ record { id = text "b"; ticked = false } ∷ []

-- A reader of the one text that is stored.
abbrev read_one : Text → Option Json
unfolding kept_choices
read_one raw =
    if raw == stringify (obj (kept_choices two)) then some (obj (kept_choices two)) else none
