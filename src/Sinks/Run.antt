-- ===== src/Sinks/Run.antt =====
-- `run_writeback` of scion_sdk/writeback_sinks/core.py: it looks the sink up, and refuses, previews,
-- queues or executes. The execution of one sink call, `execute_governed` of governed.py, is a port.
-- `W` is the world of the ports, `J` the content of proposals and evidence, and `B` a manifest of
-- the caller's preflight hook.
pub mod Gate
use agent_connector_sdk.Base.{
  String, Bool, true, false, not, ◌&&◌, Option, none, some, List, [], ◌∷◌, ◌++◌, str_eq,
  if◌then◌else◌, Result, ok, err, Action, pure, lift, ◌>>=◌, ◌>>◌,
}
use agent_connector_sdk.Base.Dict.{Dict, keys}
use agent_connector_sdk.Sinks.{
  Failure, writeback_error, other_error, Proposal, WritebackResult, Sink, SinkGrant,
  GovernedOutcome, with_stamps, require_identifier, get_sink,
}

-- The settings and `execute_governed`, which may call the sink.
pub record Ports (W J : Type 0) : Type 0 where
  pub setting : String → W → Bool
  pub execute :
      Sink
      → Option String
      → SinkGrant
      → (dry_run : Bool) → W
      → Result Failure (GovernedOutcome J) × W

-- A call of `run_writeback` with the keys of `ops` that it reads.
pub record Request (W J B : Type 0) : Type 0 where
  pub target : String
  pub dry_run : Bool
  pub as_of : Option String
  pub approved : Bool
  pub preflight : Option (String → Sink → Action W Failure (Option B))
  pub enqueue : Option (String → List (Proposal J) → Action W Failure String)

-- The manifests, by their status and reason.
pub data Manifest (J B : Type 0) : Type 0 where
  unknown_target : List String → Manifest J B
  not_enabled no_queue : Manifest J B
  blocked : B → Manifest J B
  refused : String → Manifest J B
  crashed : String → Manifest J B
  queued : WritebackResult J → (proposal_id : String) → (as_of : Option String) → J → Manifest J B
  completed :
      WritebackResult J → (dry_run : Bool) → SinkGrant → (as_of : Option String) → J → Manifest J B
  failed :
      WritebackResult J
      → (dry_run : Bool) → SinkGrant
      → (as_of : Option String) → J
      → (error : String) → Manifest J B

-- A call of `execute_governed`.
pub record Execution : Type 0 where
  pub sink : Sink
  pub grant : SinkGrant
  pub dry_run : Bool

-- The executions so far, in order; the code does not keep them.
pub record State (W : Type 0) : Type 0 where
  pub world : W
  pub executions : List Execution

abbrev pub Job : Type 0 → Type 0 → Type 0
Job W A = Action (State W) Failure A

module _ {W J B : Type 0} (strip normalize : String → String) (ports : Ports W J)
    (sorted : List String → List String) (request : Request W J B) where
  -- A callable of the caller's.
  in_world : {A : Type 0} → Action W Failure A → Job W A
  in_world action s = let (r, w) = action s.world in (r, record s { world = w })

  hooked : Sink → Option (String → Sink → Action W Failure (Option B)) → Job W (Option B)
  unfolding in_world
  hooked sink none = pure none
  hooked sink (some hook) = in_world (hook request.target sink)

  -- `_backfeed_preflight`
  unfoldable pub backfeed_preflight : Sink → Job W (Option B)
  unfolding hooked
  backfeed_preflight sink = hooked sink request.preflight

  -- `SinkGrant(...)`, and the identifiers that it refuses if they are blank.
  abbrev pub grant_of : Sink → Bool → SinkGrant
  grant_of sink write_enabled = record {
    target = sink.domain;
    enable_flag = sink.enable_flag;
    write_enabled = write_enabled;
    risk_tier = sink.risk_tier;
    approved = request.approved;
  }

  unfoldable pub require_grant : Sink → Job W (Unit {0})
  require_grant sink =
      lift (require_identifier strip normalize sink.domain "target")
      >> lift (require_identifier strip normalize sink.enable_flag "enable_flag")

  -- `execute_governed` under the handlers of `_governed_call`: a failure becomes a manifest, which
  -- the rest of the method returns.
  handled :
      (GovernedOutcome J → Job W (Manifest J B))
      → Result Failure (GovernedOutcome J)
      → Job W (Manifest J B)
  handled next (ok outcome) = next outcome
  handled next (err (writeback_error message)) = pure (refused message)
  handled next (err (other_error message)) = pure (crashed message)

  unfoldable pub governed_call :
      Sink → SinkGrant → Bool → (GovernedOutcome J → Job W (Manifest J B)) → Job W (Manifest J B)
  unfolding handled
  governed_call sink grant dry_run next s =
      let (r, w) = ports.execute sink request.as_of grant dry_run s.world in
      let execution : Execution = record { sink = sink; grant = grant; dry_run = dry_run } in
      handled next r (record { world = w; executions = s.executions ++ (execution ∷ []) })

  enqueued :
      GovernedOutcome J
      → Option (String → List (Proposal J) → Action W Failure String)
      → Job W (Manifest J B)
  unfolding in_world
  enqueued outcome none = pure no_queue
  enqueued outcome (some enqueue) =
      let preview = with_stamps outcome.result request.as_of in
      in_world (enqueue request.target preview.proposals) >>= λ proposal_id.
      pure (queued preview proposal_id request.as_of outcome.evidence)

  -- `_queue_high_stakes`
  unfoldable pub queue_high_stakes : Sink → SinkGrant → Job W (Manifest J B)
  unfolding governed_call enqueued
  queue_high_stakes sink grant =
      governed_call sink grant true λ outcome. enqueued outcome request.enqueue

  completion : SinkGrant → GovernedOutcome J → Manifest J B
  completion grant outcome =
      let result = with_stamps outcome.result request.as_of in
      elim outcome.failure [
        | none ↦ completed result request.dry_run grant request.as_of outcome.evidence
        | some message ↦ failed result request.dry_run grant request.as_of outcome.evidence message
      ]

  -- `_governed_manifest`
  unfoldable pub governed_manifest : Sink → SinkGrant → Job W (Manifest J B)
  unfolding governed_call completion
  governed_manifest sink grant =
      governed_call sink grant request.dry_run λ outcome. pure (completion grant outcome)

  -- A live request to a high-stakes sink without an approval is queued.
  unfoldable pub dispatch : Sink → SinkGrant → Job W (Manifest J B)
  unfolding queue_high_stakes governed_manifest
  dispatch sink grant =
      if str_eq grant.risk_tier "high_stakes" && (not request.dry_run && not grant.approved)
      then queue_high_stakes sink grant
      else governed_manifest sink grant

  granted : Sink → Bool → Option B → Job W (Manifest J B)
  unfolding require_grant dispatch
  granted sink write_enabled (some manifest) = pure (blocked manifest)
  granted sink write_enabled none =
      require_grant sink >> dispatch sink (grant_of sink write_enabled)

  -- The rest of `run_writeback` for a sink that was found.
  unfoldable pub write_to : Sink → Job W (Manifest J B)
  unfolding backfeed_preflight granted
  write_to sink s =
      let write_enabled = ports.setting sink.enable_flag s.world in
      if not request.dry_run && not write_enabled
      then (ok not_enabled, s)
      else (backfeed_preflight sink >>= granted sink write_enabled) s

  write_if_found : List String → Option Sink → Job W (Manifest J B)
  unfolding write_to
  write_if_found available none = pure (unknown_target available)
  write_if_found available (some sink) = write_to sink

  unfoldable pub run_writeback : Dict Sink → Job W (Manifest J B)
  unfolding get_sink write_if_found
  run_writeback sinks =
      write_if_found (sorted (keys sinks)) (get_sink strip normalize request.target sinks)
