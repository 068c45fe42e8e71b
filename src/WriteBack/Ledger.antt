-- ===== src/WriteBack/Ledger.antt =====
-- scion_sdk/writeback/durable_ledger.py, `FileWriteBackLedger`, and `receipt_page` of
-- _transport_common.py. The two files hold what `File` has; a write of one is atomic.
pub mod Paging
use agent_connector_sdk.Base.{
  ℕ, suc, ◌+◌, String, Bool, true, false, not, ◌&&◌, Option, none, some, List, [], ◌∷◌, ◌++◌,
  length, take, ltb, str_eq, if◌then◌else◌, Result, ok, err, Action, lift, pure, ◌>>=◌, or_raise,
  bind, require,
}
use agent_connector_sdk.WriteBack.Contract.{
  SourceChangeSet, WriteBackAttempt, ReconciliationObservation, Error, persistence, port_error,
  Contract,
}
use agent_connector_sdk.WriteBack.Recovery.{
  Receipt, ReceiptRecord, attempt, reconciliation, receipt, ReceiptPage,
}

pub record File (J : Type 0) : Type 0 where
  pub change_set : Option (SourceChangeSet J)
  pub receipts : List (ReceiptRecord J)

abbrev pub Method : Type 0 → Type 0 → Type 0
Method J A = Action (File J) Error A

-- `after_sequence or 0`
abbrev pub after_or_zero : Option ℕ → ℕ
after_or_zero none = 0
after_or_zero (some after) = after

module _ {J : Type 0} where
  -- `[record for record in records if record.receipt.sequence > after]`
  pub receipts_after : ℕ → List (ReceiptRecord J) → List (ReceiptRecord J)
  receipts_after after [] = []
  receipts_after after (item ∷ items) =
      let rest = receipts_after after items in
      if ltb after (receipt item).sequence then item ∷ rest else rest

  -- `selected[-1].receipt.sequence`, which raises where nothing is selected.
  last_sequence : List (ReceiptRecord J) → Result Error ℕ
  last_sequence [] = err port_error
  last_sequence (item ∷ []) = ok (receipt item).sequence
  last_sequence (item ∷ next ∷ items) = last_sequence (next ∷ items)

  -- An ordered page of the receipts strictly after a sequence number.
  unfoldable pub receipt_page : List (ReceiptRecord J) → ℕ → Option ℕ → Result Error (ReceiptPage J)
  unfolding receipts_after last_sequence
  receipt_page records limit after_sequence =
      let remaining = receipts_after (after_or_zero after_sequence) records in
      let selected = take limit remaining in
      if ltb limit (length remaining)
      then bind (last_sequence selected)
          (λ last. ok (record { receipts = selected; next_sequence = some last }))
      else ok (record { receipts = selected; next_sequence = none })

  existing_change_set : Method J (SourceChangeSet J)
  existing_change_set f = (or_raise f.change_set persistence, f)

  append_receipt : ReceiptRecord J → Method J (ReceiptRecord J)
  append_receipt item f = (ok item, record f { receipts = f.receipts ++ item ∷ [] })

  next_number : Method J ℕ
  next_number f = (ok (length f.receipts + 1), f)

  unfoldable pub record_attempt : WriteBackAttempt → Method J (ReceiptRecord J)
  unfolding existing_change_set append_receipt next_number
  record_attempt made = do
    change_set ← existing_change_set
    number ← next_number
    append_receipt (
        attempt
          (record {
            sequence = number;
            tenant_id = made.tenant_id;
            change_set_id = made.change_set_id;
            change_set_digest = made.change_set_digest;
            idempotency_key = made.idempotency_key;
            authorization = change_set.authorization;
            policy_digest = change_set.policy_digest;
            effect_status = made.effect_status;
          })
          made.kind made.outcome made.input_digest made.output_digest made.applied_field_digest)

  unfoldable pub record_reconciliation : ReconciliationObservation → Method J (ReceiptRecord J)
  unfolding existing_change_set append_receipt next_number
  record_reconciliation observation = do
    change_set ← existing_change_set
    number ← next_number
    append_receipt (
        reconciliation
          (record {
            sequence = number;
            tenant_id = observation.tenant_id;
            change_set_id = observation.change_set_id;
            change_set_digest = observation.change_set_digest;
            idempotency_key = observation.idempotency_key;
            authorization = change_set.authorization;
            policy_digest = change_set.policy_digest;
            effect_status = observation.effect_status;
          })
          observation.retry_allowed)

  unfoldable pub receipts : Option ℕ → ℕ → Method J (ReceiptPage J)
  unfolding existing_change_set
  receipts after_sequence limit f = (
    bind (or_raise f.change_set persistence) (λ _. receipt_page f.receipts limit after_sequence),
    f,
  )

  unfoldable pub get : String → String → Method J (Option (SourceChangeSet J))
  get tenant_id change_set_id f = elim f.change_set [
    | none ↦ (ok none, f)
    | some found ↦
        if str_eq found.tenant_id tenant_id && str_eq found.change_set_id change_set_id
        then (ok (some found), f)
        else (ok none, f)
  ]

module _ {J : Type 0} (contract : Contract J) where
  -- Create, or find again, the one change set of the file.
  unfoldable pub create : SourceChangeSet J → Method J (SourceChangeSet J)
  create change_set f = elim f.change_set [
    | none ↦ (ok change_set, record f { change_set = some change_set })
    | some existing ↦
        if contract.change_set_eq existing change_set
        then (ok change_set, f)
        else (err persistence, f)
  ]
