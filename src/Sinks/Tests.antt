-- ===== src/Sinks/Tests.antt =====
-- The witnesses of the properties of sinks, at one sink of high stakes.
use agent_connector_sdk.Base.{
  ℕ, ◌+◌, String, ◌≡◌, refl, true, false, none, some, List, [], ◌∷◌, str_eq, if◌then◌else◌, ok,
}
use agent_connector_sdk.Sinks.{
  Proposal, fields, other, Sink, WritebackResult, register_sink, get_sink, stamp_proposals_as_of,
}
use agent_connector_sdk.Sinks.Run.{Ports, Request, run_writeback}
use agent_connector_sdk.Sinks.Run.Gate.{AllGated, run_writeback-IsGated}
use agent_connector_sdk.Sinks.Records.{get_sink-register_sink, stamp_proposals_as_of_once}

abbrev as_is : String → String
as_is text = text

abbrev egeria : Sink
egeria = record { domain = "egeria"; enable_flag = "EGERIA_WRITES"; risk_tier = "high_stakes" }

abbrev nothing : WritebackResult String
nothing = record {
  target = "egeria";
  created = 0;
  enriched = 0;
  relations_written = 0;
  retired = 0;
  skipped = 0;
  errors = 0;
  proposals = [];
}

-- The world counts the calls; every flag is set.
abbrev ports : Ports ℕ String
ports = record {
  setting = λ flag calls. true;
  execute = λ sink as_of grant dry_run calls.
      (ok (record { result = nothing; failure = none; evidence = "" }), calls + 1);
}

abbrev request : Request ℕ String String
request = record {
  target = "egeria";
  dry_run = false;
  as_of = none;
  approved = true;
  preflight = some (λ target sink calls. (ok none, calls + 1));
  enqueue = none;
}

run_writeback-IsGated_example :
    AllGated as_is as_is ports
      (λ names. names)
      request
      (("egeria", egeria) ∷ [])
      0
      (run_writeback as_is as_is ports
        (λ names. names)
        request
        (("egeria", egeria) ∷ [])
        (record { world = 0; executions = [] })).1.executions
run_writeback-IsGated_example =
    run_writeback-IsGated as_is as_is ports (λ names. names) request (("egeria", egeria) ∷ []) 0

get_sink-register_sink_example :
    get_sink as_is as_is "egeria" (("egeria", egeria) ∷ [])
    ≡ (if str_eq "egeria" "egeria" then some egeria else get_sink as_is as_is "egeria" [])
unfolding register_sink
get_sink-register_sink_example =
    get_sink-register_sink as_is as_is egeria [] (("egeria", egeria) ∷ []) "egeria" refl

abbrev proposals : List (Proposal String)
proposals = fields none "a" ∷ other "b" ∷ []

stamp_proposals_as_of_once_example :
    stamp_proposals_as_of (stamp_proposals_as_of proposals (some "2024")) (some "2025")
    ≡ stamp_proposals_as_of proposals (some "2024")
stamp_proposals_as_of_once_example = stamp_proposals_as_of_once proposals "2024" (some "2025") refl
