-- ===== src/Sinks/Records.antt =====
-- The registry of sinks and the stamps on proposals of scion_sdk/writeback_sinks/core.py.
use agent_connector_sdk.Base.{
  String, ◌≡◌, refl, arith, false, Bool-cases, inl, inr, Option, none, some, List, [], ◌∷◌, map,
  str_eq, if◌then◌else◌, ok,
}
use agent_connector_sdk.Base.Dict.{Dict, insert, get-insert}
use agent_connector_sdk.Sinks.{
  Proposal, fields, other, Sink, register_sink, get_sink, stamped, stamp_proposals_as_of,
}

-- After a sink was registered, a target finds it if its normal form is the sink's domain, letter for
-- letter, and finds what it found before if not.
pub get_sink-register_sink :
    (strip normalize : String → String) (sink : Sink) (sinks sinks' : Dict Sink) (target : String)
    → register_sink strip normalize sink sinks ≡ ok sinks'
    → get_sink strip normalize target sinks' ≡ (
        if str_eq sink.domain (normalize target)
        then some sink
        else get_sink strip normalize target sinks)
unfolding register_sink get_sink
get_sink-register_sink strip normalize sink sinks sinks' target registered =
    let same : sinks' ≡ insert sink.domain sink sinks = ground arith in rw (same, get-insert) refl

map-stamped :
    {J : Type 0} (first second : String) (proposals : List (Proposal J))
    → map (stamped second) (map (stamped first) proposals) ≡ map (stamped first) proposals
map-stamped first second [] = refl
map-stamped first second (fields none content ∷ proposals) =
    rw (map-stamped first second proposals) refl
map-stamped first second (fields (some as_of) content ∷ proposals) =
    rw (map-stamped first second proposals) refl
map-stamped first second (other content ∷ proposals) = rw (map-stamped first second proposals) refl

-- Proposals that bear the time of one pass keep it in every later pass, whatever its time is.
pub stamp_proposals_as_of_once :
    {J : Type 0} (proposals : List (Proposal J)) (first : String) (second : Option String)
    → str_eq first "" ≡ false
    → stamp_proposals_as_of (stamp_proposals_as_of proposals (some first)) second
      ≡ stamp_proposals_as_of proposals (some first)
unfolding stamp_proposals_as_of
stamp_proposals_as_of_once proposals first none timed = refl
stamp_proposals_as_of_once proposals first (some second) timed =
    elim (Bool-cases (str_eq second "")) [
      | inl e ↦ rw e refl
      | inr e ↦ rw (e, timed) (map-stamped first second proposals)
    ]
