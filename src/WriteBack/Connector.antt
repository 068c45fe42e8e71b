-- ===== src/WriteBack/Connector.antt =====
-- scion_sdk/writeback/connector.py, `DurableWritableConnector`, over the file ledger, and inflight.py.
-- Its state outlives a process only in `file` and in the world of the ports.
pub mod Restart
use agent_connector_sdk.Base.{
  ℕ, suc, ◌+◌, String, Bool, true, false, not, ◌&&◌, ◌||◌, Option, none, some, List, [], ◌∷◌,
  length, str_eq, if◌then◌else◌, Result, ok, err, Action, lift, pure, raise, ◌>>=◌, ◌>>◌, require,
}
use agent_connector_sdk.WriteBack.Contract.{
  SourceChangeSet, SourceSnapshot, DryRunObservation, WriteBackAttempt, ReconciliationObservation,
  Error, validation, persistence, reconciliation_required, in_flight, port_error, Contract,
}
use agent_connector_sdk.WriteBack.Validation.{require_effect}
use agent_connector_sdk.WriteBack.Ports.{Ports, State, Run, query, prior}
use agent_connector_sdk.WriteBack.Governed
use agent_connector_sdk.WriteBack.Recovery.{
  RecoveryState, fresh, retryable, uncertain_effect, applied_effect, ReceiptPage,
  receipt_recovery_state,
}
use agent_connector_sdk.WriteBack.Ledger
use agent_connector_sdk.WriteBack.Ledger.{File}

pub record Connector (W J : Type 0) : Type 0 where
  pub connector_id : String
  pub governed : State W J
  pub file : File J
  pub claims : List (String × String)

abbrev pub Job : Type 0 → Type 0 → Type 0 → Type 0
Job W J A = Action (Connector W J) Error A

-- `_RECEIPT_PAGE_LIMIT`
abbrev pub receipt_page_limit : ℕ
receipt_page_limit = 256

abbrev pub same_claim : String × String → String × String → Bool
same_claim (tenant, key) (tenant', key') = str_eq tenant tenant' && str_eq key key'

abbrev pub is_claimed : String × String → List (String × String) → Bool
is_claimed claim [] = false
is_claimed claim (other ∷ claims) = same_claim other claim || is_claimed claim claims

abbrev pub unclaim : String × String → List (String × String) → List (String × String)
unclaim claim [] = []
unclaim claim (other ∷ claims) =
    let rest = unclaim claim claims in if same_claim other claim then rest else other ∷ rest

module _ {W J : Type 0} where
  -- A call of the governed service, and one of the ledger.
  unfoldable pub with_governed : {A : Type 0} → Run W J A → Job W J A
  with_governed run c = let (r, s) = run c.governed in (r, record c { governed = s })

  unfoldable pub with_file : {A : Type 0} → Ledger.Method J A → Job W J A
  with_file method c = let (r, f) = method c.file in (r, record c { file = f })

  -- `_InFlight.claim`: refuse an overlap, and give the key back however the body ends.
  unfoldable pub claim : {A : Type 0} → SourceChangeSet J → Job W J A → Job W J A
  claim change_set body c =
      let key : String × String = (change_set.tenant_id, change_set.idempotency_key) in
      if is_claimed key c.claims
      then (err in_flight, c)
      else let (r, c') = body (record c { claims = key ∷ c.claims }) in
        (r, record c' { claims = unclaim key c'.claims })

  unfoldable pub require_connector : SourceChangeSet J → Job W J (Unit {0})
  require_connector change_set c =
      (require (str_eq change_set.connector_id c.connector_id) validation, c)

module _ {W J : Type 0} (contract : Contract J) (ports : Ports W J) where
  open contract use {canonical_digest, change_set_eq}

  unfoldable pub authoritative_of :
      SourceChangeSet J → Option (SourceChangeSet J) → Result Error (SourceChangeSet J)
  authoritative_of change_set none = err persistence
  authoritative_of change_set (some durable) =
      if change_set_eq durable change_set
        && str_eq durable.change_set_digest (canonical_digest durable)
      then ok durable
      else err persistence

  -- `_authoritative`: the durable change set, which must be the given one.
  unfoldable pub authoritative : SourceChangeSet J → Job W J (SourceChangeSet J)
  unfolding require_connector authoritative_of with_file
  authoritative change_set = do
    require_connector change_set
    found ← with_file (Ledger.get change_set.tenant_id change_set.change_set_id)
    lift (authoritative_of change_set found)

  -- The pages of the ledger as it stands.
  abbrev pub pages_of : File J → Option ℕ → Result Error (ReceiptPage J)
  pages_of file after = (Ledger.receipts after receipt_page_limit file).0

  or_stuck : Option (Result Error RecoveryState) → Result Error RecoveryState
  or_stuck none = err port_error
  or_stuck (some r) = r

  -- `_receipt_recovery_state` of the ledger: one page more than there are receipts is enough.
  unfoldable pub recovered_state : SourceChangeSet J → File J → Result Error RecoveryState
  unfolding or_stuck
  recovered_state durable file =
      or_stuck (receipt_recovery_state contract durable (pages_of file) (length file.receipts + 1))

  unfoldable pub recover : SourceChangeSet J → Job W J RecoveryState
  recover durable c = (recovered_state durable c.file, c)

  unfoldable pub register : SourceChangeSet J → Job W J (SourceChangeSet J)
  unfolding require_connector with_file
  register change_set = do
    require_connector change_set
    created ← with_file (Ledger.create contract change_set)
    lift (require (change_set_eq created change_set) persistence)
    pure created

  unfoldable pub current_version : SourceChangeSet J → Job W J (SourceSnapshot J)
  unfolding authoritative with_governed
  current_version change_set = do
    durable ← authoritative change_set
    with_governed (Governed.current_version contract ports durable)

  unfoldable pub dry_run : SourceChangeSet J → Job W J (DryRunObservation J)
  unfolding authoritative with_governed
  dry_run change_set = do
    durable ← authoritative change_set
    with_governed (Governed.dry_run contract ports durable)

  -- A durable applied receipt must have an effect at the source, which is returned.
  found_effect : SourceChangeSet J → Option WriteBackAttempt → Job W J WriteBackAttempt
  unfolding with_governed
  found_effect durable none = raise persistence
  found_effect durable (some attempt) = do
    with_governed (Governed.authorize contract ports durable)
    lift (require_effect contract durable attempt)
    pure attempt

  -- `_apply` for each recovered state.
  apply_from : SourceChangeSet J → RecoveryState → Job W J WriteBackAttempt
  unfolding found_effect with_governed with_file
  apply_from durable uncertain_effect = raise reconciliation_required
  apply_from durable applied_effect = do
    attempt ← with_governed (query (ports.prior_effect durable) (prior durable))
    found_effect durable attempt
  apply_from durable _ = do
    attempt ← with_governed (Governed.apply contract ports durable)
    with_file (Ledger.record_attempt attempt)
    pure attempt

  apply_durable : SourceChangeSet J → Job W J WriteBackAttempt
  unfolding authoritative recover apply_from with_governed
  apply_durable change_set = do
    durable ← authoritative change_set
    with_governed (Governed.authorize contract ports durable)
    state ← recover durable
    apply_from durable state

  unfoldable pub apply : SourceChangeSet J → Job W J WriteBackAttempt
  unfolding claim apply_durable
  apply change_set = claim change_set (apply_durable change_set)

  -- `_reconcile` for each recovered state.
  reconcile_from : SourceChangeSet J → RecoveryState → Job W J ReconciliationObservation
  unfolding with_governed with_file
  reconcile_from durable uncertain_effect = do
    observation ← with_governed (Governed.reconcile contract ports durable)
    with_file (Ledger.record_reconciliation observation)
    pure observation
  reconcile_from durable _ = raise reconciliation_required

  reconcile_durable : SourceChangeSet J → Job W J ReconciliationObservation
  unfolding authoritative recover reconcile_from
  reconcile_durable change_set = do
    durable ← authoritative change_set
    state ← recover durable
    reconcile_from durable state

  unfoldable pub reconcile : SourceChangeSet J → Job W J ReconciliationObservation
  unfolding claim reconcile_durable
  reconcile change_set = claim change_set (reconcile_durable change_set)
