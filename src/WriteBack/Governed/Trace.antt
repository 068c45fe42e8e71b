-- ===== src/WriteBack/Governed/Trace.antt =====
-- What an operation of `GovernedWriteBack` leaves in the history, in particular its effects.
use agent_connector_sdk.Base.{
  ◌≡◌, refl, Bool, true, false, Option, none, some, List, ◌∷◌, Result, Option-cases, Bool-cases,
  inl, inr, ◌>>=◌, Keeps, keeps_rules, Keeps-lift, Keeps-bind,
}
use agent_connector_sdk.WriteBack.Contract.{
  SourceChangeSet, WriteBackAttempt, ReconciliationObservation, SourceSnapshot, AuditReservation,
  Error, Contract,
}
use agent_connector_sdk.Base.Dict.{get, remove}
use agent_connector_sdk.WriteBack.Validation.{is_uncertain}
use agent_connector_sdk.WriteBack.Ports.{
  WalletProofResult, Call, Ports, Event, verified, reserved, read, previewed, prior, prepared,
  effect, reconciled, State, query,
}
use agent_connector_sdk.WriteBack.Governed.{
  read_clock, validate, verify, authorize, require_reconciled, proof_by, require_wallet_proof,
  prepare_by, prepare, run_effect, or_uncertain, mutate, settle, apply, current_version, dry_run,
  require_same_binding, release, reconcile,
}

abbrev pub is_effect : {J : Type 0} → Event J → Bool
is_effect (effect _ _ _ _) = true
is_effect _ = false

-- A property of histories that events other than effects keep.
pub record IgnoresQueries {J : Type 0} (P : List (Event J) → Type 0) : Type 0 where
  pub extend :
      (event : Event J) (past : List (Event J))
      → is_effect event ≡ false
      → P past
      → P (event ∷ past)

abbrev pub On : {W J : Type 0} → (List (Event J) → Type 0) → State W J → Type 0
On P s = P s.history

-- A property of states that calls other than effects keep.
pub record Stable {W J : Type 0} (P : State W J → Type 0) : Type 0 where
  pub query :
      (event : Event J) (w : W) (s : State W J)
      → is_effect event ≡ false
      → P s
      → P (record s { world = w; history = event ∷ s.history })

pub On-Stable :
    {W J : Type 0} {P : List (Event J) → Type 0} → IgnoresQueries P → Stable (On {W = W} P)
On-Stable ignores = record { query = λ event w s quiet h. ignores.extend event s.history quiet h }

module _ {W J : Type 0} (contract : Contract J) (ports : Ports W J) {P : State W J → Type 0}
    (stable : Stable P) where
  pub query-Keeps :
      {A : Type 0} (call : Call W A) (event : Result Error A → Event J)
      → ((r : Result Error A) → is_effect (event r) ≡ false)
      → Keeps P (query call event)
  unfolding query
  query-Keeps call event quiet = record {
    at = λ s h. stable.query _ (call s.world).1 s (quiet (call s.world).0) h;
  }

  read_clock-Keeps : Keeps P (read_clock contract ports)
  unfolding read_clock
  read_clock-Keeps = record { at = λ s h. stable.query _ (ports.clock_ms s.world).1 s refl h }

  pub validate-Keeps : (cs : SourceChangeSet J) → Keeps P (validate contract ports cs)
  unfolding validate
  validate-Keeps cs = search (keeps_rules, read_clock-Keeps)

  pub verify-Keeps : (cs : SourceChangeSet J) → Keeps P (verify contract ports cs)
  unfolding verify
  verify-Keeps cs = query-Keeps _ (verified cs) (λ _. refl)

  pub authorize-Keeps : (cs : SourceChangeSet J) → Keeps P (authorize contract ports cs)
  unfolding authorize
  authorize-Keeps cs = search (keeps_rules, validate-Keeps, verify-Keeps)

  pub require_reconciled-Keeps :
      (cs : SourceChangeSet J) → Keeps P (require_reconciled contract ports cs)
  unfolding require_reconciled
  require_reconciled-Keeps cs = record { at = λ s h. h }

  proof_by-Keeps :
      (gate : Option (SourceChangeSet J → Call W (Option WalletProofResult)))
      (cs : SourceChangeSet J)
      → Keeps P (proof_by contract ports gate cs)
  unfolding proof_by query
  proof_by-Keeps none cs = record { at = λ s h. h }
  proof_by-Keeps (some gate) cs = record { at = λ s h. stable.query _ (gate cs s.world).1 s refl h }

  pub require_wallet_proof-Keeps :
      (cs : SourceChangeSet J) → Keeps P (require_wallet_proof contract ports cs)
  unfolding require_wallet_proof
  require_wallet_proof-Keeps cs = proof_by-Keeps ports.proof_gate cs

  prepare_by-Keeps :
      (call : Option (SourceChangeSet J → Call W (Unit {0}))) (cs : SourceChangeSet J)
      → Keeps P (prepare_by contract ports call cs)
  unfolding prepare_by
  prepare_by-Keeps none cs = record { at = λ s h. h }
  prepare_by-Keeps (some call) cs = record {
    at = (query-Keeps (call cs) (prepared cs) (λ _. refl)).at;
  }

  pub prepare-Keeps : (cs : SourceChangeSet J) → Keeps P (prepare contract ports cs)
  unfolding prepare
  prepare-Keeps cs = prepare_by-Keeps ports.prepare_writeback cs

  pub current_version-Keeps : (cs : SourceChangeSet J) → Keeps P (current_version contract ports cs)
  unfolding current_version
  current_version-Keeps cs =
      Keeps-bind _ _ (validate-Keeps cs) (λ _. query-Keeps _ (read cs) (λ _. refl))

  pub dry_run-Keeps : (cs : SourceChangeSet J) → Keeps P (dry_run contract ports cs)
  unfolding dry_run
  dry_run-Keeps cs = Keeps-bind _ _ (validate-Keeps cs) λ _.
      Keeps-bind _ _ (query-Keeps _ (read cs) (λ _. refl)) λ current.
        Keeps-bind _ _ (Keeps-lift _) λ _. Keeps-bind _ _ (Keeps-lift _) λ expected.
          Keeps-bind _ _ (query-Keeps _ (previewed cs) (λ _. refl)) λ result. search keeps_rules

  pub require_same_binding-Keeps :
      (cs : SourceChangeSet J) → Keeps P (require_same_binding contract ports cs)
  unfolding require_same_binding
  require_same_binding-Keeps cs = record {
    at = λ s h. elim (Option-cases (get cs.idempotency_key s.unresolved)) [
      | inl e ↦ rw (e, require_same_binding) h
      | inr (bound, e) ↦ rw (e, require_same_binding) h
    ];
  }

  release-Keeps :
      (cs : SourceChangeSet J) (result : ReconciliationObservation)
      → ((s : State W J)
          → P s
          → P (record s { unresolved = remove cs.idempotency_key s.unresolved }))
      → Keeps P (release contract ports cs result)
  unfolding release
  release-Keeps cs result removes = record {
    at = λ s h. elim (Bool-cases (is_uncertain result.effect_status)) [
      | inl e ↦ rw e h
      | inr e ↦ rw e (removes s h)
    ];
  }

  pub reconcile-Keeps :
      (cs : SourceChangeSet J)
      → ((s : State W J)
          → P s
          → P (record s { unresolved = remove cs.idempotency_key s.unresolved }))
      → Keeps P (reconcile contract ports cs)
  unfolding reconcile
  reconcile-Keeps cs removes = Keeps-bind _ _ (validate-Keeps cs) λ _.
      Keeps-bind _ _ (require_same_binding-Keeps cs) λ _.
        Keeps-bind _ _ (query-Keeps _ (reconciled cs) (λ _. refl))
          λ result. Keeps-bind _ _ (Keeps-lift _) (λ _. release-Keeps cs result removes)

  -- What is kept up to an effect, and by it, is kept by `mutate`.
  pub mutate-Keeps :
      (cs : SourceChangeSet J)
      → ((current : SourceSnapshot J) (reservation : AuditReservation)
          → Keeps P (
              or_uncertain contract ports cs current.source_version
                (run_effect contract ports cs current reservation)))
      → Keeps P (mutate contract ports cs)
  unfolding mutate
  mutate-Keeps cs ends = Keeps-bind _ _ (query-Keeps _ (read cs) (λ _. refl)) λ current.
      Keeps-bind _ _ (Keeps-lift _) λ _. Keeps-bind _ _ (verify-Keeps cs) λ _.
        Keeps-bind _ _ (Keeps-lift _) λ _.
          Keeps-bind _ _ (query-Keeps _ (reserved cs) (λ _. refl)) λ _.
            Keeps-bind _ _ (Keeps-lift _) λ reservation. Keeps-bind _ _ (validate-Keeps cs) λ _.
              Keeps-bind _ _ (verify-Keeps cs) λ _.
                Keeps-bind _ _ (validate-Keeps cs)
                  λ _. Keeps-bind _ _ (Keeps-lift _) (λ _. ends current reservation)

  pub settle-Keeps :
      (cs : SourceChangeSet J) (found : Option WriteBackAttempt)
      → Keeps P (mutate contract ports cs)
      → Keeps P (settle contract ports cs found)
  unfolding settle
  settle-Keeps cs none kept = kept
  settle-Keeps cs (some attempt) kept =
      Keeps-bind _ _ (authorize-Keeps cs) (λ _. search keeps_rules)

  -- `apply` keeps what its part from the search for a prior effect on keeps.
  pub apply-Keeps :
      (cs : SourceChangeSet J)
      → Keeps P (query (ports.prior_effect cs) (prior cs) >>= settle contract ports cs)
      → Keeps P (apply contract ports cs)
  unfolding apply
  apply-Keeps cs rest = Keeps-bind _ _ (validate-Keeps cs) λ _.
      Keeps-bind _ _ (require_reconciled-Keeps cs) λ _. Keeps-bind _ _ (authorize-Keeps cs) λ _.
        Keeps-bind _ _ (require_wallet_proof-Keeps cs)
          λ _. Keeps-bind _ _ (prepare-Keeps cs) (λ _. rest)
