-- ===== src/UpstreamTest/Tests.antt =====
-- Labels at the edges of the ladder.
use porymcp.Base.{◌≡◌, refl, text, decimal}
use porymcp.UpstreamTest.{rung, ago_text, just_now, ago_of, hours}
use porymcp.UpstreamTest.Ladder.{IsTrueOf, rung-IsTrueOf}

edges :
    (rung 44999 ≡ just_now)
    × (ago_text (rung 3570000) ≡ text "1h ago")
    × (ago_text (rung 3569999) ≡ text "59m ago")
unfolding rung ago_text text decimal
edges = (refl, refl, refl)

rung-IsTrueOf_example : IsTrueOf 3570000 (ago_of 1 hours)
unfolding rung
rung-IsTrueOf_example = rung-IsTrueOf 3570000
