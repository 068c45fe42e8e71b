-- ===== src/WriteBack/Tests.antt =====
-- The witnesses of write-back's properties, at a change set that raises a limit, with the in-memory
-- transport of memory.py as the source.
use agent_connector_sdk.Base.{
  ℕ, ◌+◌, ◌≤◌, String, ◌≡◌, ◌↔◌, refl, ap, subst, Bool, true, false, none, some, List, [], ◌∷◌,
  arith, str_eq, foldl, Result, ok, err, inl, inr, ◌&&◌, eq_iff, ◌>>=◌, Bool-cases,
}
use native.Mathlib.Decide.{ℕ_discrete}
use agent_connector_sdk.Base.Dict.{get}
use agent_connector_sdk.WriteBack.Contract.{
  Decision, SourceChangeSet, Kind, Outcome, EffectStatus, WriteBackAttempt,
  ReconciliationObservation, SourceSnapshot, Error, version_conflict, uncertain, Contract,
}
use agent_connector_sdk.WriteBack.Ports.{Ports, State, query}
use agent_connector_sdk.WriteBack.Memory
use agent_connector_sdk.WriteBack.Memory.{Memory, FixtureUncertainty, after_effect}
use agent_connector_sdk.WriteBack.Memory.Effects.{
  new_attempt, new_snapshot, apply_once, lost_snapshot, lost_status, reconcile-apply_lost,
}
use agent_connector_sdk.WriteBack.FileTransport
use agent_connector_sdk.WriteBack.FileTransport.{Disk, Files, reopened, attempt_of}
use agent_connector_sdk.WriteBack.FileTransport.Writes.{
  after_patch, apply_completes, reconcile-interrupted,
}
use agent_connector_sdk.WriteBack.Common.{
  applied_attempt, digest, snapshot_json, reconciliation_observation,
}
use agent_connector_sdk.WriteBack.Validation.{
  require_base, require_authorized, require_effect, effect_matches, require_reconciliation,
}
use agent_connector_sdk.WriteBack.Governed.Answers.{Answers, apply-eq-ok}
use agent_connector_sdk.WriteBack.Governed.Reconciled.{Reconciles, reconcile-eq-ok}
use agent_connector_sdk.WriteBack.Recovery.{
  Receipt, ReceiptRecord, attempt, reconciliation, ReceiptPage, RecoveryState, applied_effect,
  require_receipt_identity, attempt_binding, reconciliation_binding, record_state, advance,
  consume_record, consume_page, after_page, with_consumed, read_page, replay,
  receipt_recovery_state,
}
use agent_connector_sdk.WriteBack.Recovery.Replay.{AllWithin, receipt_recovery_state_total}
use agent_connector_sdk.WriteBack.Ledger
use agent_connector_sdk.WriteBack.Ledger.{receipt_page, File}
use agent_connector_sdk.WriteBack.Ledger.Paging.{receipt_recovery_state-pages}
use agent_connector_sdk.WriteBack.Connector
use agent_connector_sdk.WriteBack.Connector.{Connector, recovered_state}
use agent_connector_sdk.WriteBack.Connector.Restart.{apply-settled}
use agent_connector_sdk.WriteBack.Governed
use agent_connector_sdk.WriteBack.Governed.{
  validate, scope_matches, require_reconciled, settle, mutate, verify, authorize, is_bound,
  require_bound_reservation, run_effect, or_uncertain, source_call, prepare, require_wallet_proof,
  require_same_binding, release,
}
use agent_connector_sdk.WriteBack.Governed.Guard.{
  Request, apply_request, dry_run_request, reconcile_request, serve, IsGoverned,
  serve_all-IsGoverned,
}
use agent_connector_sdk.WriteBack.Governed.Once.{effects, applies, effects-serve_all-le}
use agent_connector_sdk.WriteBack.Governed.Unresolved.{effects_for, serve_all-unresolved}

String-discrete : Discrete String
String-discrete a b = elim (Bool-cases (str_eq a b)) [
  | inl e ↦ yes ((eq_iff a b).0 e)
  | inr e ↦ no (λ same. absurd (ground (arith, eq_iff a b)))
]

SourceChangeSet-discrete : Discrete (SourceChangeSet String)
SourceChangeSet-discrete = hlevel (String-discrete, ℕ_discrete)

abbrev change_set_eq : SourceChangeSet String → SourceChangeSet String → Bool
change_set_eq a b = elim (SourceChangeSet-discrete a b) [ yes _ ↦ true | no _ ↦ false ]

change_set_eq_iff : (a b : SourceChangeSet String) → (change_set_eq a b ≡ true) ↔ (a ≡ b)
change_set_eq_iff a b =
    elim (SourceChangeSet-discrete a b)
      as (λ d. (elim d as (λ _. Bool) [ yes _ ↦ true | no _ ↦ false ] ≡ true) ↔ (a ≡ b)) [
        | yes e ↦ (λ _. e, λ _. refl)
        | no n ↦ (λ h. absurd (ground arith), λ e. absurd (n e))
      ]

abbrev same_bool : Bool → Bool → Bool
same_bool true b = b
same_bool false true = false
same_bool false false = true

abbrev decision_eq : Decision String → Decision String → Bool
decision_eq a b =
    same_bool a.authorized b.authorized
    && str_eq a.input_digest b.input_digest
    && str_eq a.output_digest b.output_digest
    && str_eq a.claims b.claims

decision_eq_iff : (a b : Decision String) → (decision_eq a b ≡ true) ↔ (a ≡ b)
decision_eq_iff a b = ground (
  arith,
  eq_iff a.input_digest b.input_digest,
  eq_iff a.output_digest b.output_digest,
  eq_iff a.claims b.claims,
)

abbrev contract : Contract String
contract = record {
  canonical_digest = λ cs. cs.change_set_id;
  patch_digest = λ cs. "patch";
  decision_eq = decision_eq;
  decision_eq_iff = decision_eq_iff;
  change_set_eq = change_set_eq;
  change_set_eq_iff = change_set_eq_iff;
  json_eq = str_eq;
  json_null = "null";
  json_text = λ text. text;
  json_object = λ fields. "object";
  dumps = λ text. text;
  encode = some;
  sha256_hex = λ text. text;
  is_blank = λ text. str_eq text "";
}

abbrev approval : Decision String
approval = record {
  authorized = true;
  input_digest = "in";
  output_digest = "out";
  claims = "reviewer";
}

abbrev raise_limit : SourceChangeSet String
raise_limit = record {
  tenant_id = "t";
  change_set_id = "c1";
  change_set_digest = "c1";
  idempotency_key = "k";
  connector_id = "crm";
  entity_id = "account";
  base_source_version = "1";
  policy_digest = "p";
  expires_at_ms = 10;
  field_scope = "limit" ∷ [];
  desired_patch = ("limit", "20") ∷ [];
  field_provenance = ("limit", "ticket") ∷ [];
  authorization = approval;
}

abbrev account : SourceSnapshot String
account = record { source_version = "1"; fields = ("limit", "10") ∷ []; observation = [] }

abbrev source : Memory String
source = record {
  entities = ("account", account) ∷ [];
  effects = [];
  attempts = 0;
  uncertainty = [];
}

abbrev ports : Ports (Memory String) String
ports = record {
  clock_ms = λ m. (1, m);
  verify = λ cs m. (ok cs.authorization, m);
  proof_gate = none;
  reserve = λ cs m. (
    ok (
        some (record {
          reservation_id = "r";
          effect_key = cs.idempotency_key;
          change_set_digest = cs.change_set_digest;
        })),
    m,
  );
  read_current = Memory.read_current;
  preview = Memory.preview contract;
  prior_effect = Memory.prior_effect contract;
  apply = Memory.apply contract;
  reconcile = Memory.reconcile contract;
  prepare_writeback = none;
  apply_reserved = none;
}

abbrev idle : State (Memory String) String
idle = record { unresolved = []; world = source; history = [] }

abbrev requests : List (Request String)
requests =
    apply_request raise_limit
    ∷ apply_request raise_limit
    ∷ dry_run_request raise_limit
    ∷ reconcile_request raise_limit
    ∷ []

serve_all-IsGoverned_example :
    IsGoverned contract (foldl (serve contract ports) idle requests).history
serve_all-IsGoverned_example = serve_all-IsGoverned contract ports requests idle tt

effects-serve_all-le_example :
    effects (foldl (serve contract ports) idle requests).history
    ≤ effects {J = String} [] + applies requests
effects-serve_all-le_example = effects-serve_all-le contract ports requests idle

abbrev uncertain_state : State (Memory String) String
uncertain_state = record idle { unresolved = ("k", "c1") ∷ [] }

abbrev patient_requests : List (Request String)
patient_requests = apply_request raise_limit ∷ dry_run_request raise_limit ∷ []

serve_all-unresolved_example :
    let s = foldl (serve contract ports) uncertain_state patient_requests in
    (get "k" s.unresolved ≡ some "c1")
    × (effects_for "k" s.history ≡ effects_for {J = String} "k" [])
serve_all-unresolved_example =
    serve_all-unresolved contract ports "k" "c1" patient_requests uncertain_state refl tt

apply_once_example :
    let (r, m) = Memory.apply contract raise_limit "1" source in
    (r ≡ ok (new_attempt contract raise_limit source account refl))
    × (effect_matches contract raise_limit (new_attempt contract raise_limit source account refl)
        ≡ true)
    × (get "account" m.entities ≡ some (new_snapshot contract raise_limit source account refl))
    × ((Memory.prior_effect contract raise_limit m).0
        ≡ ok (some (new_attempt contract raise_limit source account refl)))
    × ((Memory.apply contract raise_limit "1" m).0 ≡ err version_conflict)
apply_once_example = apply_once contract raise_limit source account refl refl

abbrev lossy : Memory String
lossy = record source { uncertainty = ("k", after_effect) ∷ [] }

reconcile-apply_lost_example :
    let (r, m) = Memory.apply contract raise_limit "1" lossy in
    (r ≡ err uncertain)
    × (get "account" m.entities
        ≡ some (lost_snapshot contract raise_limit lossy account refl after_effect))
    × ((Memory.reconcile contract raise_limit m).0
        ≡ ok (
            reconciliation_observation contract raise_limit
              (lost_snapshot contract raise_limit lossy account refl after_effect)
              (lost_status contract raise_limit lossy account refl after_effect)))
reconcile-apply_lost_example =
    reconcile-apply_lost contract raise_limit lossy account refl after_effect refl refl

abbrev settled_attempt : WriteBackAttempt
settled_attempt = new_attempt contract raise_limit source account refl

apply-eq-ok_example :
    Answers contract ports raise_limit settled_attempt
      (Governed.apply contract ports raise_limit idle).1
unfolding Governed.apply validate scope_matches require_reconciled settle mutate verify authorize
    require_bound_reservation is_bound run_effect or_uncertain source_call prepare
    require_wallet_proof require_base require_authorized require_effect effect_matches query
    Memory.apply Memory.prior_effect Memory.read_current Memory.commit Memory.committed
    applied_attempt digest snapshot_json ◌>>=◌
apply-eq-ok_example = apply-eq-ok contract ports raise_limit idle settled_attempt refl

abbrev observed : ReconciliationObservation
observed = reconciliation_observation contract raise_limit account EffectStatus.no_effect

reconcile-eq-ok_example :
    Reconciles contract ports raise_limit uncertain_state.unresolved observed
      (Governed.reconcile contract ports raise_limit uncertain_state).1
unfolding Governed.reconcile validate scope_matches require_same_binding release
    require_reconciliation query Memory.reconcile reconciliation_observation digest snapshot_json
    ◌>>=◌
reconcile-eq-ok_example = reconcile-eq-ok contract ports raise_limit uncertain_state observed refl

abbrev proof_of : EffectStatus → ℕ → Receipt String
proof_of status sequence = record {
  sequence = sequence;
  tenant_id = "t";
  change_set_id = "c1";
  change_set_digest = "c1";
  idempotency_key = "k";
  authorization = approval;
  policy_digest = "p";
  effect_status = status;
}

abbrev receipts : List (ReceiptRecord String)
receipts =
    attempt (proof_of EffectStatus.outcome_uncertain 1) Kind.apply Outcome.outcome_uncertain "in"
      "out" "patch"
    ∷ reconciliation (proof_of EffectStatus.applied 2) false
    ∷ []

receipt_recovery_state-pages_example :
    receipt_recovery_state contract raise_limit (receipt_page receipts 1) 3
    ≡ some (ok applied_effect)
unfolding consume_page consume_record record_state require_receipt_identity attempt_binding
    reconciliation_binding advance
receipt_recovery_state-pages_example =
    receipt_recovery_state-pages contract raise_limit receipts (refl, (refl, tt)) 0 3 (omega arith)

receipt_recovery_state_total_example :
    (r : Result Error RecoveryState) × (receipt_recovery_state contract raise_limit
        (λ after. ok (record { receipts = receipts; next_sequence = none }))
        3
      ≡ some r)
receipt_recovery_state_total_example =
    receipt_recovery_state_total contract raise_limit
      (λ after. ok (record { receipts = receipts; next_sequence = none })) 2
      (λ after page same.
        subst (AllWithin 2)
          (ap (λ (r : Result Error (ReceiptPage String)). elim r [ ok p ↦ p.receipts | err _ ↦ [] ])
            same)
          (omega arith, (omega arith, tt)))
      3 (omega arith)

abbrev restarted : Connector (Memory String) String
restarted = record {
  connector_id = "crm";
  governed = idle;
  file = record { change_set = some raise_limit; receipts = receipts };
  claims = [];
}

apply-settled_example :
    let c = (Connector.apply contract ports raise_limit restarted).1 in
    (effects c.governed.history ≡ effects {J = String} []) × (c.file ≡ restarted.file)
unfolding recovered_state receipt_recovery_state replay read_page after_page with_consumed
    receipt_page consume_page consume_record record_state require_receipt_identity attempt_binding
    reconciliation_binding advance Ledger.receipts
apply-settled_example = apply-settled contract ports raise_limit restarted applied_effect refl refl

abbrev files : Files String
files = record {
  disk = record { entities = ("account", account) ∷ []; effects = [] };
  earlier = [];
}

abbrev patched_account : SourceSnapshot String
patched_account = after_patch contract raise_limit files account refl

apply_completes_example :
    let (r, f) = FileTransport.apply contract raise_limit "1" files in
    (r ≡ ok (attempt_of contract raise_limit account))
    × (effect_matches contract raise_limit (attempt_of contract raise_limit account) ≡ true)
    × ((FileTransport.prior_effect contract raise_limit f).0
        ≡ ok (some (attempt_of contract raise_limit account)))
    × ((FileTransport.reconcile contract raise_limit f).0
        ≡ ok (reconciliation_observation contract raise_limit patched_account EffectStatus.applied))
    × ((FileTransport.apply contract raise_limit "1" f).0 ≡ err version_conflict)
apply_completes_example = apply_completes contract raise_limit files account refl

reconcile-interrupted_example :
    let (_, f) = FileTransport.apply contract raise_limit "1" files in
    (between : Disk String) × (f.earlier ≡ between ∷ files.disk ∷ [])
    × (get "account" between.entities ≡ some patched_account)
    × ((FileTransport.reconcile contract raise_limit (reopened between)).0
        ≡ ok (
            reconciliation_observation contract raise_limit patched_account EffectStatus.no_effect))
reconcile-interrupted_example = reconcile-interrupted contract raise_limit files account refl refl
