-- ===== src/WriteBack/Governed.antt =====
-- scion_sdk/writeback/service.py: `GovernedWriteBack`. Values are copied when they are passed, so
-- `model_copy(deep=True)` is the identity; nobody changes a change set while a call is running.
pub mod Trace
pub mod Guard
pub mod Once
pub mod Unresolved
pub mod Answers
pub mod Reconciled
use agent_connector_sdk.Base.{
  ℕ, String, true, false, not, ◌&&◌, Bool, Option, none, some, ◌∷◌, leb, same_set, is_distinct,
  str_eq, if◌then◌else◌, Result, ok, err, require, pure, lift, and_then, ◌>>=◌, ◌>>◌,
}
use agent_connector_sdk.Base.Dict.{get, has, insert, remove, keys}
use agent_connector_sdk.WriteBack.Contract.{
  Decision, SourceChangeSet, Kind, Outcome, EffectStatus, WriteBackAttempt,
  ReconciliationObservation, SourceSnapshot, DryRunObservation, AuditReservation, Error, validation,
  expired, audit_unavailable, reconciliation_required, wallet_refused, uncertain, Contract,
}
use agent_connector_sdk.WriteBack.Validation.{
  require_base, require_authorized, require_effect, require_reconciliation, expected_preview,
  require_preview_binding, is_uncertain,
}
use agent_connector_sdk.WriteBack.Ports.{
  WalletProofResult, Call, Ports, clock_read, verified, proved, reserved, read, previewed, prior,
  prepared, effect, reconciled, Run, query,
}
use Prim.Native.String.{◌++◌ as concat}

module _ {J : Type 0} (contract : Contract J) where
  open contract use {patch_digest, canonical_digest, dumps, json_object, sha256_hex, is_blank}

  -- The binding that `_require_bound_reservation` wants.
  unfoldable pub is_bound : SourceChangeSet J → AuditReservation → Bool
  is_bound change_set reservation =
      not (is_blank reservation.reservation_id)
      && str_eq reservation.effect_key change_set.idempotency_key
      && str_eq reservation.change_set_digest change_set.change_set_digest

  unfoldable pub require_bound_reservation :
      SourceChangeSet J → Option AuditReservation → Result Error AuditReservation
  unfolding is_bound
  require_bound_reservation change_set none = err audit_unavailable
  require_bound_reservation change_set (some reservation) =
      if is_bound change_set reservation then ok reservation else err audit_unavailable

  -- Patch and provenance must exactly match the field scope.
  unfoldable pub scope_matches : SourceChangeSet J → Bool
  scope_matches change_set =
      is_distinct change_set.field_scope
      && same_set change_set.field_scope (keys change_set.desired_patch)
      && same_set change_set.field_scope (keys change_set.field_provenance)

  -- `_uncertain`: the attempt that stands for an effect that may have happened.
  unfoldable pub uncertain_attempt : SourceChangeSet J → String → WriteBackAttempt
  uncertain_attempt change_set version = record {
    tenant_id = change_set.tenant_id;
    change_set_id = change_set.change_set_id;
    change_set_digest = change_set.change_set_digest;
    idempotency_key = change_set.idempotency_key;
    kind = Kind.apply;
    input_digest = change_set.authorization.input_digest;
    output_digest = change_set.authorization.output_digest;
    pre_source_version = version;
    post_source_version = version;
    applied_field_digest = patch_digest change_set;
    outcome = Outcome.outcome_uncertain;
    effect_status = EffectStatus.outcome_uncertain;
    connector_observation_digest =
        sha256_hex
          (concat change_set.idempotency_key (concat ":" (concat version ":outcome_uncertain")));
    provenance_digest = sha256_hex (dumps (json_object change_set.field_provenance));
  }

module _ {W J : Type 0} (contract : Contract J) (ports : Ports W J) where
  open contract use {canonical_digest}

  read_clock : Run W J ℕ
  read_clock s =
      let (now, w) = ports.clock_ms s.world in
      (ok now, record s { world = w; history = clock_read now ∷ s.history })

  unfoldable pub validate : SourceChangeSet J → Run W J (Unit {0})
  unfolding read_clock scope_matches
  validate change_set = do
    lift (require (str_eq change_set.change_set_digest (canonical_digest change_set)) validation)
    now ← read_clock
    lift (require (not (leb change_set.expires_at_ms now)) expired)
    lift (require (scope_matches contract change_set) validation)

  unfoldable pub verify : SourceChangeSet J → Run W J (Decision J)
  unfolding query
  verify change_set = query (ports.verify change_set) (verified change_set)

  unfoldable pub authorize : SourceChangeSet J → Run W J (Unit {0})
  unfolding validate verify
  authorize change_set = do
    validate change_set
    decision ← verify change_set
    validate change_set
    lift (require_authorized contract change_set decision)

  unfoldable pub require_reconciled : SourceChangeSet J → Run W J (Unit {0})
  require_reconciled change_set s =
      (require (not (has change_set.idempotency_key s.unresolved)) reconciliation_required, s)

  -- Any exception of the gate refuses the proof.
  unfoldable pub proof_outcome : Result Error (Option WalletProofResult) → Result Error (Unit {0})
  proof_outcome (err e) = err (wallet_refused "verification_unavailable")
  proof_outcome (ok none) = err (wallet_refused "missing_signature")
  proof_outcome (ok (some result)) =
      if result.is_verified then ok tt else err (wallet_refused result.reason)

  -- With no gate there is nothing to prove.
  proof_by :
      Option (SourceChangeSet J → Call W (Option WalletProofResult))
      → SourceChangeSet J
      → Run W J (Unit {0})
  proof_by none change_set s = (ok tt, s)
  proof_by (some gate) change_set s =
      let (result, s') = query (gate change_set) (proved change_set) s in (proof_outcome result, s')

  unfoldable pub require_wallet_proof : SourceChangeSet J → Run W J (Unit {0})
  unfolding proof_by proof_outcome query
  require_wallet_proof = proof_by ports.proof_gate

  -- A transport without the protocol prepares nothing.
  prepare_by :
      Option (SourceChangeSet J → Call W (Unit {0})) → SourceChangeSet J → Run W J (Unit {0})
  prepare_by none change_set s = (ok tt, s)
  prepare_by (some call) change_set s = query (call change_set) (prepared change_set) s

  unfoldable pub prepare : SourceChangeSet J → Run W J (Unit {0})
  unfolding prepare_by query
  prepare = prepare_by ports.prepare_writeback

  -- The call of the transport that changes the source.
  unfoldable pub source_call :
      SourceChangeSet J → String → AuditReservation → Call W WriteBackAttempt
  source_call change_set version reservation = elim ports.apply_reserved [
    | none ↦ ports.apply change_set version
    | some call ↦ call change_set version reservation
  ]

  unfoldable pub run_effect :
      SourceChangeSet J → SourceSnapshot J → AuditReservation → Run W J WriteBackAttempt
  unfolding source_call query
  run_effect change_set current reservation = do
    result ←
        query (source_call change_set current.source_version reservation)
          (effect change_set current.source_version reservation)
    lift (require_effect contract change_set result)
    pure result

  -- `except OutcomeUncertainError`
  unfoldable pub or_uncertain :
      SourceChangeSet J → String → Run W J WriteBackAttempt → Run W J WriteBackAttempt
  or_uncertain change_set version body s =
      let (r, s') = body s in
      elim r [
        | err uncertain ↦ (
          ok (uncertain_attempt contract change_set version),
          record s' {
            unresolved =
                insert change_set.idempotency_key change_set.change_set_digest s'.unresolved;
          },
        )
        | other ↦ (other, s')
      ]

  -- `apply` from the read of the current version on: no prior effect was found.
  unfoldable pub mutate : SourceChangeSet J → Run W J WriteBackAttempt
  unfolding run_effect or_uncertain verify validate query
  mutate change_set = do
    current ← query (ports.read_current change_set) (read change_set)
    lift (require_base change_set current)
    decision ← verify change_set
    lift (require_authorized contract change_set decision)
    answer ← query (ports.reserve change_set) (reserved change_set)
    reservation ← lift (require_bound_reservation contract change_set answer)
    validate change_set
    latest ← verify change_set
    validate change_set
    lift (require_authorized contract change_set latest)
    or_uncertain change_set current.source_version (run_effect change_set current reservation)

  -- A prior effect is returned, not repeated.
  unfoldable pub settle : SourceChangeSet J → Option WriteBackAttempt → Run W J WriteBackAttempt
  unfolding authorize mutate
  settle change_set (some attempt) = do
    authorize change_set
    lift (require_effect contract change_set attempt)
    pure attempt
  settle change_set none = mutate change_set

  unfoldable pub apply : SourceChangeSet J → Run W J WriteBackAttempt
  unfolding validate require_reconciled authorize require_wallet_proof prepare settle query
  apply change_set = do
    validate change_set
    require_reconciled change_set
    authorize change_set
    require_wallet_proof change_set
    prepare change_set
    found ← query (ports.prior_effect change_set) (prior change_set)
    settle change_set found

  unfoldable pub current_version : SourceChangeSet J → Run W J (SourceSnapshot J)
  unfolding validate query
  current_version change_set = do
    validate change_set
    query (ports.read_current change_set) (read change_set)

  unfoldable pub dry_run : SourceChangeSet J → Run W J (DryRunObservation J)
  unfolding validate query
  dry_run change_set = do
    validate change_set
    current ← query (ports.read_current change_set) (read change_set)
    lift (require_base change_set current)
    expected ← lift (expected_preview contract change_set current)
    result ← query (ports.preview change_set current) (previewed change_set)
    lift (require_preview_binding contract change_set current expected result)
    pure result

  -- The key may be bound to another uncertain change set.
  unfoldable pub require_same_binding : SourceChangeSet J → Run W J (Unit {0})
  require_same_binding change_set s = elim (get change_set.idempotency_key s.unresolved) [
    | none ↦ (ok tt, s)
    | some bound ↦ (require (str_eq bound change_set.change_set_digest) reconciliation_required, s)
  ]

  -- Only an outcome that is no longer uncertain frees the key.
  unfoldable pub release :
      SourceChangeSet J → ReconciliationObservation → Run W J ReconciliationObservation
  release change_set result s =
      if is_uncertain result.effect_status
      then (ok result, s)
      else (ok result, record s { unresolved = remove change_set.idempotency_key s.unresolved })

  unfoldable pub reconcile : SourceChangeSet J → Run W J ReconciliationObservation
  unfolding validate require_same_binding release query
  reconcile change_set = do
    validate change_set
    require_same_binding change_set
    result ← query (ports.reconcile change_set) (reconciled change_set)
    lift (require_reconciliation change_set result)
    release change_set result
