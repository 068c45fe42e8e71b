-- ===== src/WriteBack/Common.antt =====
-- scion_sdk/writeback/_transport_common.py: the records that the reference transports return.
-- The proofs that these pass the checks of the service are in the module below.
pub mod Bound
use Prim.Native.String.{◌++◌ as concat}
use agent_connector_sdk.Base.{
  String, Bool, true, false, not, ◌&&◌, Option, none, some, List, [], ◌∷◌, str_eq, if◌then◌else◌,
  Result, ok, err,
}
use agent_connector_sdk.Base.Dict.{Dict, get, insert, update}
use agent_connector_sdk.WriteBack.Contract.{
  SourceChangeSet, SourceSnapshot, DryRunObservation, WriteBackAttempt, ReconciliationObservation,
  Kind, Outcome, EffectStatus, Error, idempotency_conflict, Contract,
}
use agent_connector_sdk.WriteBack.Validation.{scoped, is_no_effect}

pub status_value : EffectStatus → String
status_value EffectStatus.applied = "applied"
status_value EffectStatus.no_effect = "no_effect"
status_value EffectStatus.outcome_uncertain = "outcome_uncertain"

module _ {J : Type 0} (contract : Contract J) where
  open contract use {patch_digest, json_eq, json_null, json_text, json_object, dumps, sha256_hex}

  unfoldable pub digest : J → String
  digest value = sha256_hex (dumps value)

  -- `SourceSnapshot.model_dump()`
  unfoldable pub snapshot_json : SourceSnapshot J → J
  snapshot_json snapshot = json_object (
      ("source_version", json_text snapshot.source_version)
      ∷ ("fields", json_object snapshot.fields)
      ∷ ("observation", json_object snapshot.observation)
      ∷ [])

  -- `d[name]` of a dict that has the name.
  value_at : String → Dict J → J
  value_at name fields = elim (get name fields) [ none ↦ json_null | some v ↦ v ]

  unfoldable pub changed_fields : List String → Dict J → Dict J → List String
  unfolding value_at
  changed_fields [] before after = []
  changed_fields (name ∷ scope) before after =
      let rest = changed_fields scope before after in
      if json_eq (value_at name before) (value_at name after) then rest else name ∷ rest

  unfoldable pub preview_observation : SourceChangeSet J → SourceSnapshot J → DryRunObservation J
  unfolding changed_fields scoped
  preview_observation change_set current =
      let before = scoped contract change_set.field_scope current.fields in
      let after = update before change_set.desired_patch in
      record {
        change_set_digest = change_set.change_set_digest;
        source_version = current.source_version;
        desired_patch_digest = patch_digest change_set;
        changed_fields = changed_fields change_set.field_scope before after;
        before = before;
        after = after;
      }

  -- The recorded effect, if it is that of the change set.
  unfoldable pub check_prior_effect :
      WriteBackAttempt → SourceChangeSet J → Result Error WriteBackAttempt
  check_prior_effect effect change_set =
      if str_eq effect.change_set_digest change_set.change_set_digest
        && str_eq effect.applied_field_digest (patch_digest change_set)
      then ok effect
      else err idempotency_conflict

  unfoldable pub applied_attempt : SourceChangeSet J → String → String → String → WriteBackAttempt
  unfolding digest
  applied_attempt change_set pre_version post_version observation_digest = record {
    tenant_id = change_set.tenant_id;
    change_set_id = change_set.change_set_id;
    change_set_digest = change_set.change_set_digest;
    idempotency_key = change_set.idempotency_key;
    kind = Kind.apply;
    input_digest = change_set.authorization.input_digest;
    output_digest = change_set.authorization.output_digest;
    pre_source_version = pre_version;
    post_source_version = post_version;
    applied_field_digest = patch_digest change_set;
    outcome = Outcome.applied;
    effect_status = EffectStatus.applied;
    connector_observation_digest = observation_digest;
    provenance_digest = digest (json_object change_set.field_provenance);
  }

  unfoldable pub reconciliation_observation :
      SourceChangeSet J → SourceSnapshot J → EffectStatus → ReconciliationObservation
  unfolding digest snapshot_json status_value
  reconciliation_observation change_set current status = record {
    tenant_id = change_set.tenant_id;
    change_set_id = change_set.change_set_id;
    change_set_digest = change_set.change_set_digest;
    idempotency_key = change_set.idempotency_key;
    observed_source_version = current.source_version;
    effect_status = status;
    retry_allowed = is_no_effect status;
    evidence_digest = digest (
        json_object (
          ("effect_status", json_text (status_value status))
          ∷ ("source_version", json_text current.source_version)
          ∷ []));
    connector_observation_digest = digest (snapshot_json current);
    provenance_digest = digest (json_object change_set.field_provenance);
  }
