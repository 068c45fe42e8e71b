-- ===== src/WriteBack/Validation.antt =====
-- scion_sdk/writeback/validation.py and dry_run_binding.py: the binding checks, each of which
-- returns or raises.
use agent_connector_sdk.Base.{
  String, Bool, true, false, not, ◌&&◌, Option, none, some, List, [], ◌∷◌, ◌++◌, length, ◌==◌,
  contains, same_set, str_eq, if◌then◌else◌, Result, ok, err, require, bind, or_raise,
}
use agent_connector_sdk.Base.Dict.{Dict, get, insert}
use agent_connector_sdk.WriteBack.Contract.{
  Decision, SourceChangeSet, Kind, Outcome, EffectStatus, WriteBackAttempt,
  ReconciliationObservation, SourceSnapshot, DryRunObservation, Error, validation, denied,
  port_error, version_conflict, Contract,
}

abbrev pub is_apply : Kind → Bool
is_apply Kind.apply = true
is_apply Kind.dry_run = false

abbrev pub is_applied_outcome : Outcome → Bool
is_applied_outcome Outcome.applied = true
is_applied_outcome _ = false

abbrev pub is_applied : EffectStatus → Bool
is_applied EffectStatus.applied = true
is_applied _ = false

abbrev pub is_uncertain : EffectStatus → Bool
is_uncertain EffectStatus.outcome_uncertain = true
is_uncertain _ = false

abbrev pub is_no_effect : EffectStatus → Bool
is_no_effect EffectStatus.no_effect = true
is_no_effect _ = false

module _ {J : Type 0} where
  -- Reject a stale optimistic source version.
  unfoldable pub require_base : SourceChangeSet J → SourceSnapshot J → Result Error (Unit {0})
  require_base change_set current =
      require (str_eq current.source_version change_set.base_source_version) version_conflict

  abbrev reconciliation_identity : SourceChangeSet J → ReconciliationObservation → Bool
  reconciliation_identity change_set result =
      str_eq result.tenant_id change_set.tenant_id
      && str_eq result.change_set_id change_set.change_set_id
      && str_eq result.change_set_digest change_set.change_set_digest
      && str_eq result.idempotency_key change_set.idempotency_key

  unfoldable pub require_reconciliation :
      SourceChangeSet J → ReconciliationObservation → Result Error (Unit {0})
  require_reconciliation change_set result =
      if not (reconciliation_identity change_set result)
      then err validation
      else if is_applied result.effect_status && result.retry_allowed
      then err validation
      else if is_uncertain result.effect_status && result.retry_allowed
      then err validation
      else if is_no_effect result.effect_status && not result.retry_allowed
      then err validation
      else ok tt

-- The expected encodings of the scoped fields, and the fields that the patch changes.
pub record ExpectedPreview : Type 0 where
  pub before : String
  pub after : String
  pub changed : List String

abbrev add_to_set : String → List String → List String
add_to_set x xs = if contains x xs then xs else xs ++ x ∷ []

module _ {J : Type 0} (contract : Contract J) where
  open contract use {patch_digest, canonical_digest, decision_eq, json_null, json_object, encode}

  -- Require the verifier's exact decision.
  unfoldable pub require_authorized : SourceChangeSet J → Decision J → Result Error (Unit {0})
  require_authorized change_set decision =
      require (decision.authorized && decision_eq decision change_set.authorization) denied

  unfoldable pub effect_matches : SourceChangeSet J → WriteBackAttempt → Bool
  effect_matches change_set result =
      str_eq result.tenant_id change_set.tenant_id
      && str_eq result.change_set_id change_set.change_set_id
      && str_eq result.change_set_digest change_set.change_set_digest
      && str_eq result.idempotency_key change_set.idempotency_key
      && str_eq result.input_digest change_set.authorization.input_digest
      && str_eq result.output_digest change_set.authorization.output_digest
      && str_eq result.applied_field_digest (patch_digest change_set)
      && is_apply result.kind
      && is_applied_outcome result.outcome
      && is_applied result.effect_status

  -- Require an applied attempt bound to the exact change set.
  unfoldable pub require_effect : SourceChangeSet J → WriteBackAttempt → Result Error (Unit {0})
  unfolding effect_matches
  require_effect change_set result = require (effect_matches change_set result) validation

  or_null : Option J → J
  or_null none = json_null
  or_null (some v) = v

  scoped_into : Dict J → List String → Dict J → Dict J
  unfolding or_null
  scoped_into acc [] fields = acc
  scoped_into acc (name ∷ scope) fields =
      scoped_into (insert name (or_null (get name fields)) acc) scope fields

  -- `{name: fields.get(name) for name in scope}`
  unfoldable pub scoped : List String → Dict J → Dict J
  unfolding scoped_into
  scoped = scoped_into []

  encode_or_raise : J → Result Error String
  encode_or_raise value = or_raise (encode value) validation

  -- The set of the scoped names whose encoding the patch changes.
  changed_names : List String → Dict J → Dict J → List String → Result Error (List String)
  unfolding encode_or_raise or_null
  changed_names [] before after acc = ok acc
  changed_names (name ∷ scope) before after acc =
      bind (encode_or_raise (or_null (get name before))) λ old.
        bind (or_raise (get name after) port_error) λ value. bind (encode_or_raise value) λ new.
          changed_names scope before after (if str_eq old new then acc else add_to_set name acc)

  -- What an honest transport preview must report.
  unfoldable pub expected_preview :
      SourceChangeSet J → SourceSnapshot J → Result Error ExpectedPreview
  unfolding scoped changed_names encode_or_raise
  expected_preview change_set current =
      let before = scoped change_set.field_scope current.fields in
      let after = change_set.desired_patch in
      bind (changed_names change_set.field_scope before after []) λ changed.
        bind (encode_or_raise (json_object before)) λ encoded_before.
          bind (encode_or_raise (json_object after)) λ encoded_after.
            ok (record { before = encoded_before; after = encoded_after; changed = changed })

  unfoldable pub preview_matches :
      SourceChangeSet J → SourceSnapshot J → ExpectedPreview → DryRunObservation J → Bool → Bool
  preview_matches change_set current expected result matches =
      str_eq result.change_set_digest change_set.change_set_digest
      && str_eq result.desired_patch_digest (patch_digest change_set)
      && str_eq change_set.change_set_digest (canonical_digest change_set)
      && str_eq result.source_version current.source_version
      && matches
      && length result.changed_fields == length expected.changed
      && same_set result.changed_fields expected.changed

  -- `_encode(before) == expected.before and _encode(after) == expected.after`
  unfoldable pub encodings_match : ExpectedPreview → DryRunObservation J → Result Error Bool
  unfolding encode_or_raise
  encodings_match expected result = bind (encode_or_raise (json_object result.before)) λ before.
      let after =
        bind (encode_or_raise (json_object result.after))
          λ after. ok (str_eq after expected.after) in
      if str_eq before expected.before then after else ok false

  -- Refuse a transport preview that is not exactly what is expected.
  unfoldable pub require_preview_binding :
      SourceChangeSet J
      → SourceSnapshot J
      → ExpectedPreview
      → DryRunObservation J
      → Result Error (Unit {0})
  unfolding preview_matches encodings_match
  require_preview_binding change_set current expected result =
      bind (encodings_match expected result)
        λ matches. require (preview_matches change_set current expected result matches) validation
