-- ===== src/DiscoverMany/Tests.antt =====
-- A press on three members, and its theorems on that run.
use porymcp.Base.{◌≤◌, ◌<◌, ◌≡◌, refl, true, false, none, some, List, [], ◌∷◌, ◌++◌, length, Text}
use porymcp.Api.{Discovery, ApiError, api_error}
use porymcp.Api.Errors.{discovery_error_message-truthy}
use porymcp.Catalogue.{Member}
use porymcp.DiscoverMany.{
  Run, answered, refused, next_call, turn, report, settle_call, start_workers, discover_members,
  picker_in_flight, settles, Reach, pressed, steps, Later, now, later,
}
use porymcp.DiscoverMany.Order.{Reach-in_order, Reach-all_asked}
use porymcp.DiscoverMany.Stops.{work, settle_call-work, report-rate_limited}

abbrev a_member : Text → Member
a_member id = record {
  upstream_id = id;
  slug = id;
  name = id;
  enabled = true;
  transport = [];
  kind = [];
}

abbrev ma : Member
ma = a_member (b'a' ∷ [])

abbrev mb : Member
mb = a_member (b'b' ∷ [])

abbrev mc : Member
mc = a_member (b'c' ∷ [])

abbrev three : List Member
three = ma ∷ mb ∷ mc ∷ []

abbrev no_tools : Discovery
no_tools = record {
  ok = true;
  kind = [];
  http_status = none;
  latency_ms = 1;
  protocol_version = none;
  era = none;
  supported_versions = none;
  capabilities = none;
  slug = none;
  tool_count = 0;
  tools = none;
  truncated = false;
  unnameable_tools = none;
  error = none;
  upstream_message = none;
}

abbrev after_b : Run
after_b = settle_call mb (ma ∷ []) (answered no_tools) (discover_members three)

abbrev after_c : Run
after_c = settle_call mc (ma ∷ []) (answered no_tools) after_b

abbrev after_a : Run
after_a = settle_call ma [] (answered no_tools) after_c

-- The second member answers first, then the third, whose call began with that answer.
all_answered : Reach three after_a
unfolding discover_members start_workers turn next_call settle_call report
all_answered =
    steps
      (steps (steps pressed (settles (ma ∷ []) mb [] (answered no_tools) refl))
        (settles (ma ∷ []) mc [] (answered no_tools) refl))
      (settles [] ma [] (answered no_tools) refl)

at_the_end : (after_a.waiting ≡ []) × (after_a.rate_limited ≡ []) × (after_a.stale ≡ false)
unfolding discover_members start_workers turn next_call settle_call report
at_the_end = (refl, refl, refl)

first_two : (discover_members three).waiting ≡ ma ∷ mb ∷ []
unfolding discover_members start_workers turn next_call
first_two = refl

Reach-in_order_example :
    (after_a.asked ++ after_a.rest ≡ three) × (length after_a.waiting ≤ picker_in_flight)
Reach-in_order_example = Reach-in_order three after_a all_answered

Reach-all_asked_example : after_a.asked ≡ three
Reach-all_asked_example =
    Reach-all_asked three after_a all_answered at_the_end.0 at_the_end.1 at_the_end.2

settle_call-work_example :
    work (settle_call mb ((ma ∷ []) ++ []) (answered no_tools) (discover_members three))
    < work (discover_members three)
settle_call-work_example =
    settle_call-work (discover_members three) (ma ∷ []) mb [] (answered no_tools) first_two

abbrev too_many : ApiError
too_many = record { status = 429; message = []; retry_after_seconds = some 5 }

abbrev limited : Run
limited = settle_call mb ((ma ∷ []) ++ []) (refused (api_error too_many)) (discover_members three)

abbrev limited_later : Run
limited_later = settle_call ma [] (answered no_tools) limited

a_answers : Later limited limited_later
unfolding discover_members start_workers turn next_call settle_call report
a_answers =
    later now (
      settles [] ma [] (answered no_tools) (rw (discovery_error_message-truthy too_many refl) refl))

report-rate_limited_example : limited_later.asked ≡ (discover_members three).asked
report-rate_limited_example =
    report-rate_limited (discover_members three) limited_later (ma ∷ []) mb [] too_many first_two
      refl a_answers

abbrev gone : Run
gone = record (discover_members three) { stale = true }

abbrev gone_later : Run
gone_later = settle_call mb (ma ∷ []) (answered no_tools) gone

late_answer : Later gone gone_later
late_answer = later now (settles (ma ∷ []) mb [] (answered no_tools) first_two)
