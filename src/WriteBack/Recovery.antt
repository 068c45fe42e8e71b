-- ===== src/WriteBack/Recovery.antt =====
-- scion_sdk/writeback/recovery.py: the source-effect state that the durable receipts prove. The
-- receipts are those of the package `epistemic_graph`, with the fields that are read here.
pub mod Replay
use agent_connector_sdk.Base.{
  ℕ, zero, suc, ◌+◌, String, Bool, true, false, not, ◌&&◌, ◌||◌, Option, none, some, List, [], ◌∷◌,
  ltb, ◌==◌, str_eq, if◌then◌else◌, Result, ok, err, require, bind,
}
use agent_connector_sdk.WriteBack.Contract.{
  Decision, SourceChangeSet, Kind, Outcome, EffectStatus, Error, persistence, Contract,
}
use agent_connector_sdk.WriteBack.Validation.{is_apply, is_no_effect}

-- The fields that both kinds of receipt have.
pub record Receipt (J : Type 0) : Type 0 where
  pub sequence : ℕ
  pub tenant_id : String
  pub change_set_id : String
  pub change_set_digest : String
  pub idempotency_key : String
  pub authorization : Decision J
  pub policy_digest : String
  pub effect_status : EffectStatus

pub data ReceiptRecord (J : Type 0) : Type 0 where
  attempt :
      Receipt J
      → (kind : Kind) → (outcome : Outcome)
      → (input_digest output_digest applied_field_digest : String) → ReceiptRecord J
  reconciliation : Receipt J → (retry_allowed : Bool) → ReceiptRecord J

abbrev pub receipt : {J : Type 0} → ReceiptRecord J → Receipt J
receipt (attempt r _ _ _ _ _) = r
receipt (reconciliation r _) = r

pub record ReceiptPage (J : Type 0) : Type 0 where
  pub receipts : List (ReceiptRecord J)
  pub next_sequence : Option ℕ

-- `_ReceiptRecoveryState`
pub data RecoveryState : Type 0 where
  fresh retryable uncertain_effect applied_effect : RecoveryState

-- `_ATTEMPT_STATES`
abbrev pub attempt_state : Outcome → EffectStatus → Option RecoveryState
attempt_state Outcome.applied EffectStatus.applied = some applied_effect
attempt_state Outcome.outcome_uncertain EffectStatus.outcome_uncertain = some uncertain_effect
attempt_state _ _ = none

-- `_RECONCILIATION_STATES`
abbrev pub reconciliation_state : EffectStatus → RecoveryState
reconciliation_state EffectStatus.no_effect = retryable
reconciliation_state EffectStatus.applied = applied_effect
reconciliation_state EffectStatus.outcome_uncertain = uncertain_effect

abbrev pub is_applied_effect : RecoveryState → Bool
is_applied_effect applied_effect = true
is_applied_effect _ = false

module _ {J : Type 0} (contract : Contract J) (change_set : SourceChangeSet J) where
  open contract use {patch_digest, decision_eq}

  abbrev identity_matches : Receipt J → Bool
  identity_matches r =
      str_eq r.tenant_id change_set.tenant_id
      && str_eq r.change_set_id change_set.change_set_id
      && str_eq r.change_set_digest change_set.change_set_digest
      && str_eq r.idempotency_key change_set.idempotency_key

  -- `_require_receipt_identity`
  unfoldable pub require_receipt_identity : Receipt J → Result Error (Unit {0})
  require_receipt_identity r = require (identity_matches r) persistence

  unfoldable pub attempt_binding :
      Receipt J → Kind → (input_digest output_digest applied_field_digest : String) → Bool
  attempt_binding r kind input_digest output_digest applied_field_digest =
      decision_eq r.authorization change_set.authorization
      && str_eq r.policy_digest change_set.policy_digest
      && str_eq input_digest change_set.authorization.input_digest
      && str_eq output_digest change_set.authorization.output_digest
      && str_eq applied_field_digest (patch_digest change_set)
      && is_apply kind

  -- `_require_reconciliation_receipt`
  unfoldable pub reconciliation_binding : Receipt J → Bool → Bool
  reconciliation_binding r retry_allowed =
      let retry_forbidden = not (is_no_effect r.effect_status) in
      decision_eq r.authorization change_set.authorization
      && str_eq r.policy_digest change_set.policy_digest
      && (not retry_forbidden || not retry_allowed)
      && (not (is_no_effect r.effect_status) || retry_allowed)

  -- `_require_attempt_receipt` and the look-up of the state, which the check makes safe.
  bound_state : Bool → Option RecoveryState → Result Error RecoveryState
  bound_state true (some state) = ok state
  bound_state _ _ = err persistence

  unfoldable pub record_state : ReceiptRecord J → Result Error RecoveryState
  unfolding require_receipt_identity attempt_binding reconciliation_binding bound_state
  record_state (attempt r kind outcome input_digest output_digest applied_field_digest) =
      bind (require_receipt_identity r) λ _.
        bound_state (attempt_binding r kind input_digest output_digest applied_field_digest)
          (attempt_state outcome r.effect_status)
  record_state (reconciliation r retry_allowed) = bind (require_receipt_identity r) λ _.
      bind (require (reconciliation_binding r retry_allowed) persistence)
        λ _. ok (reconciliation_state r.effect_status)

  -- An applied effect is never reversed.
  unfoldable pub advance : RecoveryState → RecoveryState → Result Error RecoveryState
  advance state next_state =
      if is_applied_effect state && not (is_applied_effect next_state)
      then err persistence
      else ok next_state

  unfoldable pub consume_record :
      ReceiptRecord J → RecoveryState × ℕ → Result Error (RecoveryState × ℕ)
  unfolding record_state advance
  consume_record item (state, last_sequence) =
      bind (require (ltb last_sequence (receipt item).sequence) persistence) λ _.
        bind (record_state item) λ next_state.
          bind (advance state next_state) λ state'. ok (state', (receipt item).sequence)

  -- `_consume_page`
  unfoldable pub consume_page :
      List (ReceiptRecord J) → RecoveryState × ℕ → Result Error (RecoveryState × ℕ)
  consume_page [] acc = ok acc
  consume_page (item ∷ items) acc = bind (consume_record item acc) (consume_page items)

  -- The `while True` of `_receipt_recovery_state`, over a ledger that pages its receipts. Each round
  -- but the last consumes a receipt, so rounds more than the receipts are enough.
  module _ (page_of : Option ℕ → Result Error (ReceiptPage J)) where
    abbrev pub Loop : Type 0
    Loop = Option ℕ → RecoveryState × ℕ → Option (Result Error RecoveryState)

    -- The end of a round: the last page, a continuation that is not bound to the page, or more.
    unfoldable pub after_page :
        Loop
        → List (ReceiptRecord J)
        → Option ℕ
        → RecoveryState × ℕ
        → Option (Result Error RecoveryState)
    after_page rest receipts none acc = some (ok acc.0)
    after_page rest [] (some next) acc = some (err persistence)
    after_page rest (_ ∷ _) (some next) acc = elim (next == acc.1) [
      | true ↦ rest (some next) acc
      | false ↦ some (err persistence)
    ]

    unfoldable pub with_consumed :
        Loop
        → ReceiptPage J
        → Result Error (RecoveryState × ℕ)
        → Option (Result Error RecoveryState)
    unfolding after_page
    with_consumed rest page (err e) = some (err e)
    with_consumed rest page (ok acc) = after_page rest page.receipts page.next_sequence acc

    unfoldable pub read_page :
        Loop
        → Result Error (ReceiptPage J)
        → RecoveryState × ℕ
        → Option (Result Error RecoveryState)
    unfolding with_consumed
    read_page rest (err e) acc = some (err e)
    read_page rest (ok page) acc = with_consumed rest page (consume_page page.receipts acc)

    unfoldable pub replay : ℕ → Loop
    unfolding read_page
    replay zero after acc = none
    replay (suc fuel) after acc = read_page (replay fuel) (page_of after) acc

    -- `_receipt_recovery_state`
    unfoldable pub receipt_recovery_state : ℕ → Option (Result Error RecoveryState)
    unfolding replay consume_page consume_record
    receipt_recovery_state fuel = replay fuel none (fresh, 0)
