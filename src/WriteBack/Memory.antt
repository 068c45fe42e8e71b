-- ===== src/WriteBack/Memory.antt =====
-- scion_sdk/writeback/memory.py: `InMemoryWriteBackTransport`, whose methods read and change a
-- `Memory` and may raise.
pub mod Effects
use Prim.Native.String.{◌++◌ as concat}
use agent_connector_sdk.Base.{
  ℕ, ◌+◌, String, Option, none, some, not, str_eq, if◌then◌else◌, Result, ok, err, Action, pure,
  lift, raise, ◌>>=◌, ◌>>◌, or_raise, require, [],
}
use agent_connector_sdk.Base.Dict.{Dict, get, insert, remove, update}
use agent_connector_sdk.WriteBack.Contract.{
  SourceChangeSet, SourceSnapshot, DryRunObservation, WriteBackAttempt, ReconciliationObservation,
  EffectStatus, Error, uncertain, version_conflict, idempotency_conflict, missing_entity, Contract,
}
use agent_connector_sdk.WriteBack.Common.{
  digest, snapshot_json, preview_observation, check_prior_effect, applied_attempt,
  reconciliation_observation,
}

pub data FixtureUncertainty : Type 0 where
  before_effect after_effect unresolved : FixtureUncertainty

pub record Memory (J : Type 0) : Type 0 where
  pub entities : Dict (SourceSnapshot J)
  pub effects : Dict WriteBackAttempt
  pub attempts : ℕ
  pub uncertainty : Dict FixtureUncertainty

abbrev pub Method : Type 0 → Type 0 → Type 0
Method J A = Action (Memory J) Error A

module _ {J : Type 0} where
  unfoldable pub seed : String → String → Dict J → Method J (Unit {0})
  seed entity_id source_version fields m = (
    ok tt,
    record m {
      entities =
          insert entity_id
            (record { source_version = source_version; fields = fields; observation = [] })
            m.entities;
    },
  )

  unfoldable pub inject_uncertainty : String → FixtureUncertainty → Method J (Unit {0})
  inject_uncertainty key outcome m =
      (ok tt, record m { uncertainty = insert key outcome m.uncertainty })

  unfoldable pub read_current : SourceChangeSet J → Method J (SourceSnapshot J)
  read_current change_set m = (or_raise (get change_set.entity_id m.entities) missing_entity, m)

  clear_uncertainty : String → Method J (Unit {0})
  clear_uncertainty key m = (ok tt, record m { uncertainty = remove key m.uncertainty })

  count_attempt : Method J (Unit {0})
  count_attempt m = (ok tt, record m { attempts = m.attempts + 1 })

module _ {J : Type 0} (contract : Contract J) where
  unfoldable pub preview : SourceChangeSet J → SourceSnapshot J → Method J (DryRunObservation J)
  preview change_set current m = (ok (preview_observation contract change_set current), m)

  unfoldable pub prior_effect : SourceChangeSet J → Method J (Option WriteBackAttempt)
  prior_effect change_set m = elim (get change_set.idempotency_key m.effects) [
    | none ↦ (ok none, m)
    | some effect ↦ elim (check_prior_effect contract effect change_set) [
      | err e ↦ (err e, m)
      | ok found ↦ (ok (some found), m)
    ]
  ]

  -- The snapshot that a commit leaves.
  unfoldable pub committed : SourceChangeSet J → SourceSnapshot J → SourceSnapshot J
  committed change_set current = record {
    source_version = concat current.source_version "+1";
    fields = update current.fields change_set.desired_patch;
    observation = [];
  }

  unfoldable pub commit : SourceChangeSet J → SourceSnapshot J → Method J WriteBackAttempt
  unfolding committed
  commit change_set current m =
      let snapshot = committed change_set current in
      let observation =
        applied_attempt contract change_set current.source_version snapshot.source_version
          (digest contract (snapshot_json contract snapshot)) in
      (
        ok observation,
        record m {
          entities = insert change_set.entity_id snapshot m.entities;
          effects = insert change_set.idempotency_key observation m.effects;
        },
      )

  -- `apply` once no acknowledgement is lost before the effect.
  compare_and_commit : SourceChangeSet J → String → Method J WriteBackAttempt
  unfolding read_current commit
  compare_and_commit change_set expected_version = do
    current ← read_current change_set
    lift (require (str_eq current.source_version expected_version) version_conflict)
    commit change_set current

  apply_under : Option FixtureUncertainty → SourceChangeSet J → String → Method J WriteBackAttempt
  unfolding compare_and_commit clear_uncertainty
  apply_under (some before_effect) change_set expected_version = do
    clear_uncertainty change_set.idempotency_key
    raise uncertain
  apply_under (some unresolved) change_set expected_version = raise uncertain
  apply_under (some after_effect) change_set expected_version = do
    compare_and_commit change_set expected_version
    clear_uncertainty change_set.idempotency_key
    raise uncertain
  apply_under none change_set expected_version = compare_and_commit change_set expected_version

  unfoldable pub apply : SourceChangeSet J → String → Method J WriteBackAttempt
  unfolding apply_under count_attempt
  apply change_set expected_version m =
      (count_attempt
          >> apply_under (get change_set.idempotency_key m.uncertainty) change_set expected_version)
        m

  -- The status that the recorded effect proves.
  recorded_status : Option WriteBackAttempt → SourceChangeSet J → Result Error EffectStatus
  recorded_status none change_set = ok EffectStatus.no_effect
  recorded_status (some effect) change_set =
      if str_eq effect.change_set_digest change_set.change_set_digest
      then ok EffectStatus.applied
      else err idempotency_conflict

  observe : SourceChangeSet J → EffectStatus → Method J ReconciliationObservation
  unfolding read_current
  observe change_set status = do
    current ← read_current change_set
    pure (reconciliation_observation contract change_set current status)

  reconcile_under :
      Option FixtureUncertainty → SourceChangeSet J → Method J ReconciliationObservation
  unfolding observe recorded_status clear_uncertainty
  reconcile_under (some unresolved) change_set m =
      observe change_set EffectStatus.outcome_uncertain m
  reconcile_under _ change_set m =
      (do
        status ← lift (recorded_status (get change_set.idempotency_key m.effects) change_set)
        clear_uncertainty change_set.idempotency_key
        observe change_set status)
        m

  unfoldable pub reconcile : SourceChangeSet J → Method J ReconciliationObservation
  unfolding reconcile_under
  reconcile change_set m =
      reconcile_under (get change_set.idempotency_key m.uncertainty) change_set m
