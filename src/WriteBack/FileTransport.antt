-- ===== src/WriteBack/FileTransport.antt =====
-- scion_sdk/writeback/durable_transport.py: `FileWriteBackTransport`, whose two JSON files are what
-- `Disk` has. Each write replaces a file in one step; `apply` writes both, one after the other.
pub mod Writes
use agent_connector_sdk.Base.{
  String, Option, none, some, List, [], ◌∷◌, str_eq, Result, ok, err, or_raise, require, Action,
  pure, raise, lift, ◌>>=◌, ◌>>◌,
}
use agent_connector_sdk.Base.Dict.{Dict, get, insert, update}
use Prim.Native.String.{◌++◌ as concat}
use agent_connector_sdk.WriteBack.Contract.{
  SourceChangeSet, EffectStatus, WriteBackAttempt, ReconciliationObservation, SourceSnapshot,
  DryRunObservation, Error, version_conflict, missing_entity, Contract,
}
use agent_connector_sdk.WriteBack.Common.{
  digest, preview_observation, check_prior_effect, applied_attempt, reconciliation_observation,
}

pub record Disk (J : Type 0) : Type 0 where
  pub entities : Dict (SourceSnapshot J)
  pub effects : Dict WriteBackAttempt

-- The files as they are, and as they were before each write, the newest first: where the process
-- stops, it leaves one of these. The code does not keep the earlier ones.
pub record Files (J : Type 0) : Type 0 where
  pub disk : Disk J
  pub earlier : List (Disk J)

-- The files that a process finds when it starts.
abbrev pub reopened : {J : Type 0} → Disk J → Files J
reopened disk = record { disk = disk; earlier = [] }

-- `_write_json_atomic`: one file is replaced.
abbrev pub written : {J : Type 0} → Disk J → Files J → Files J
written disk f = record { disk = disk; earlier = f.disk ∷ f.earlier }

abbrev pub Method : Type 0 → Type 0 → Type 0
Method J A = Action (Files J) Error A

module _ {J : Type 0} where
  -- A snapshot of a file has no observation of its own.
  abbrev pub stored : String → Dict J → SourceSnapshot J
  stored source_version fields = record {
    source_version = source_version;
    fields = fields;
    observation = [];
  }

  unfoldable pub seed : String → String → Dict J → Method J (Unit {0})
  seed entity_id source_version fields f =
      let entities = insert entity_id (stored source_version fields) f.disk.entities in
      (ok tt, written (record f.disk { entities = entities }) f)

  -- `_snapshot`, which raises KeyError for an entity that was never seeded.
  unfoldable pub snapshot : String → Method J (SourceSnapshot J)
  snapshot entity_id f = (or_raise (get entity_id f.disk.entities) missing_entity, f)

  unfoldable pub read_current : SourceChangeSet J → Method J (SourceSnapshot J)
  unfolding snapshot
  read_current change_set = snapshot change_set.entity_id

  -- The last write of `apply`.
  unfoldable pub record_effect : String → WriteBackAttempt → Method J (Unit {0})
  record_effect key effect f =
      (ok tt, written (record f.disk { effects = insert key effect f.disk.effects }) f)

module _ {J : Type 0} (contract : Contract J) where
  open contract use {json_object, json_text}

  unfoldable pub preview : SourceChangeSet J → SourceSnapshot J → Method J (DryRunObservation J)
  preview change_set current f = (ok (preview_observation contract change_set current), f)

  unfoldable pub prior_effect : SourceChangeSet J → Method J (Option WriteBackAttempt)
  prior_effect change_set f = elim (get change_set.idempotency_key f.disk.effects) [
    | none ↦ (ok none, f)
    | some effect ↦ elim (check_prior_effect contract effect change_set) [
      | err e ↦ (err e, f)
      | ok found ↦ (ok (some found), f)
    ]
  ]

  abbrev pub next_version : SourceSnapshot J → String
  next_version current = concat current.source_version "+1"

  abbrev pub patched : SourceChangeSet J → SourceSnapshot J → Dict J
  patched change_set current = update current.fields change_set.desired_patch

  -- The attempt that `apply` returns.
  unfoldable pub attempt_of : SourceChangeSet J → SourceSnapshot J → WriteBackAttempt
  attempt_of change_set current =
      applied_attempt contract change_set current.source_version (next_version current) (
        digest contract (
          json_object (
            ("fields", json_object (patched change_set current))
            ∷ ("v", json_text (next_version current))
            ∷ [])))

  unfoldable pub apply : SourceChangeSet J → String → Method J WriteBackAttempt
  unfolding snapshot seed record_effect
  apply change_set expected_version = do
    current ← snapshot change_set.entity_id
    lift (require (str_eq current.source_version expected_version) version_conflict)
    seed change_set.entity_id (next_version current) (patched change_set current)
    record_effect change_set.idempotency_key (attempt_of change_set current)
    pure (attempt_of change_set current)

  abbrev effect_status : Option WriteBackAttempt → EffectStatus
  effect_status none = EffectStatus.no_effect
  effect_status (some _) = EffectStatus.applied

  unfoldable pub reconcile : SourceChangeSet J → Method J ReconciliationObservation
  unfolding snapshot
  reconcile change_set f =
      (snapshot change_set.entity_id >>= λ current. pure (
          reconciliation_observation contract change_set current
            (effect_status (get change_set.idempotency_key f.disk.effects))))
        f
