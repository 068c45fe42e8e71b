-- ===== src/Sinks.antt =====
-- scion_sdk/writeback_sinks/core.py: the one entry to the write-back of a target system.
-- This file has its records and the registry of sinks; Sinks/Run has `run_writeback`. `J` is the
-- content of proposals.
pub mod Run
pub mod Records
mod Tests
use Prim.Native.String.{◌++◌ as concat}
use agent_connector_sdk.Base.{
  bind, ℕ, ◌+◌, String, Bool, true, false, not, ◌&&◌, ◌||◌, Option, none, some, List, [], ◌∷◌, ◌++◌,
  map, str_eq, if◌then◌else◌, Result, ok, err, Action, pure, raise, lift, require, ◌>>=◌, ◌>>◌,
}
use agent_connector_sdk.Base.Dict.{Dict, get, insert}

-- An exception by its message: a WriteBackError, or any other.
pub data Failure : Type 0 where
  writeback_error other_error : String → Failure

-- A proposal is a dict, with its `as_of` if it has one, or another value.
pub data Proposal (J : Type 0) : Type 0 where
  fields : Option String → J → Proposal J
  other : J → Proposal J

pub record WritebackResult (J : Type 0) : Type 0 where
  pub target : String
  pub created : ℕ
  pub enriched : ℕ
  pub relations_written : ℕ
  pub retired : ℕ
  pub skipped : ℕ
  pub errors : ℕ
  pub proposals : List (Proposal J)

-- `WritebackResult.merge`
unfoldable pub merge : {J : Type 0} → WritebackResult J → WritebackResult J → WritebackResult J
merge left right = record {
  target = left.target;
  created = left.created + right.created;
  enriched = left.enriched + right.enriched;
  relations_written = left.relations_written + right.relations_written;
  retired = left.retired + right.retired;
  skipped = left.skipped + right.skipped;
  errors = left.errors + right.errors;
  proposals = left.proposals ++ right.proposals;
}

-- What `run_writeback` reads of a sink; its own `run` is behind `execute`.
pub record Sink : Type 0 where
  pub domain : String
  pub enable_flag : String
  pub risk_tier : String

pub record SinkGrant : Type 0 where
  pub target : String
  pub enable_flag : String
  pub write_enabled : Bool
  pub risk_tier : String
  pub approved : Bool

-- `GovernedOutcome`, with its evidence and the message of its failure.
pub record GovernedOutcome (J : Type 0) : Type 0 where
  pub result : WritebackResult J
  pub failure : Option String
  pub evidence : J

-- `as_of` of a proposal that has none.
abbrev pub stamped : {J : Type 0} → String → Proposal J → Proposal J
stamped as_of (fields none content) = fields (some as_of) content
stamped as_of proposal = proposal

-- `_stamp_proposals_as_of`
unfoldable pub stamp_proposals_as_of :
    {J : Type 0} → List (Proposal J) → Option String → List (Proposal J)
stamp_proposals_as_of proposals none = proposals
stamp_proposals_as_of proposals (some as_of) =
    if str_eq as_of "" then proposals else map (stamped as_of) proposals

-- `result.proposals = _stamp_proposals_as_of(result.proposals, ctx.as_of)`
abbrev pub with_stamps : {J : Type 0} → WritebackResult J → Option String → WritebackResult J
with_stamps result as_of = record result {
  proposals = stamp_proposals_as_of result.proposals as_of;
}

-- `strip` is `str.strip`, and `normalize` lowers a text and strips it.
module _ (strip normalize : String → String) where
  -- `_require_identifier`
  abbrev pub require_identifier : String → String → Result Failure (Unit {0})
  require_identifier value field_name =
      require (not (str_eq (strip value) ""))
        (other_error (concat field_name " must be a non-empty identifier"))

  -- `register_sink`
  unfoldable pub register_sink : Sink → Dict Sink → Result Failure (Dict Sink)
  register_sink sink sinks = bind (require_identifier sink.domain "sink.domain") λ _.
      bind (require_identifier sink.enable_flag "sink.enable_flag")
        λ _. ok (insert sink.domain sink sinks)

  unfoldable pub get_sink : String → Dict Sink → Option Sink
  get_sink target sinks = get (normalize target) sinks
