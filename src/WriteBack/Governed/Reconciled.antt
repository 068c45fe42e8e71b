-- ===== src/WriteBack/Governed/Reconciled.antt =====
-- What `reconcile` finds, and what it does to the keys of uncertain effects.
use agent_connector_sdk.Base.{
  String, ◌≡◌, refl, none, arith, str_eq, eq_iff, if◌then◌else◌, Result, ok, lift, ◌>>=◌,
  and_then_ind, Keeps,
}
use agent_connector_sdk.Base.Dict.{Dict, get, get-remove}
use agent_connector_sdk.WriteBack.Contract.{
  SourceChangeSet, ReconciliationObservation, Error, Contract,
}
use agent_connector_sdk.WriteBack.Validation.{require_reconciliation, is_uncertain, is_no_effect}
use agent_connector_sdk.WriteBack.Ports.{Ports, State, Run, reconciled}
use agent_connector_sdk.WriteBack.Governed.{release, reconcile}
use agent_connector_sdk.WriteBack.Governed.Trace.{
  query-Keeps, validate-Keeps, require_same_binding-Keeps,
}
use agent_connector_sdk.WriteBack.Governed.Unresolved.{HasUnresolved-Stable}

module _ {W J : Type 0} (contract : Contract J) (ports : Ports W J) (cs : SourceChangeSet J) where
  require_reconciliation-eq-ok :
      (result : ReconciliationObservation) {a : Unit {0}}
      → require_reconciliation cs result ≡ ok a
      → (result.tenant_id ≡ cs.tenant_id)
        × (result.change_set_id ≡ cs.change_set_id)
        × (result.change_set_digest ≡ cs.change_set_digest)
        × (result.idempotency_key ≡ cs.idempotency_key)
        × (result.retry_allowed ≡ is_no_effect result.effect_status)
  unfolding require_reconciliation
  require_reconciliation-eq-ok result e = ground (
    arith,
    eq_iff result.tenant_id cs.tenant_id,
    eq_iff result.change_set_id cs.change_set_id,
    eq_iff result.change_set_digest cs.change_set_digest,
    eq_iff result.idempotency_key cs.idempotency_key,
  )

  release-unresolved :
      (result : ReconciliationObservation) (key : String) (s : State W J)
      → get key (release contract ports cs result s).1.unresolved ≡ (
          if is_uncertain result.effect_status
          then get key s.unresolved
          else if str_eq cs.idempotency_key key
          then none
          else get key s.unresolved)
  unfolding release
  release-unresolved result key s = ground (arith, get-remove cs.idempotency_key key s.unresolved)

  -- What a reconciliation that returned has found and done, at each key.
  abbrev pub Reconciles : Dict String → ReconciliationObservation → State W J → Type 0
  Reconciles unresolved result s' =
      (result.tenant_id ≡ cs.tenant_id)
      × (result.change_set_id ≡ cs.change_set_id)
      × (result.change_set_digest ≡ cs.change_set_digest)
      × (result.idempotency_key ≡ cs.idempotency_key)
      × (result.retry_allowed ≡ is_no_effect result.effect_status)
      × ((key : String)
          → get key s'.unresolved ≡ (
              if is_uncertain result.effect_status
              then get key unresolved
              else if str_eq cs.idempotency_key key
              then none
              else get key unresolved))

  -- From a state with these unresolved keys the action reconciles them, if it returns.
  record EndsReconciled (unresolved : Dict String) (m : Run W J ReconciliationObservation)
      : Type 0 where
    at :
        (s : State W J) (result : ReconciliationObservation)
        → s.unresolved ≡ unresolved
        → (m s).0 ≡ ok result
        → Reconciles unresolved result (m s).1

  EndsReconciled-bind :
      {A : Type 0} {unresolved : Dict String} (m : Run W J A)
      (f : A → Run W J ReconciliationObservation)
      → Keeps (λ s. s.unresolved ≡ unresolved) m
      → ((a : A) → EndsReconciled unresolved (f a))
      → EndsReconciled unresolved (m >>= f)
  unfolding ◌>>=◌
  EndsReconciled-bind {unresolved = u} m f km kf = record {
    at = λ s result h.
        and_then_ind
          (λ (q : Result Error ReconciliationObservation × State W J).
            q.0 ≡ ok result → Reconciles u result q.1)
          (m s).0 f _ (λ _ _ e. cc) (λ a _. (kf a).at _ result (km.at s h));
  }

  release-answer :
      (observed : ReconciliationObservation) (s : State W J)
      → (release contract ports cs observed s).0 ≡ ok observed
  unfolding release
  release-answer observed s = ground arith

  release-Reconciles :
      (observed result : ReconciliationObservation) (s : State W J) {a : Unit {0}}
      → require_reconciliation cs observed ≡ ok a
      → observed ≡ result
      → Reconciles s.unresolved result (release contract ports cs observed s).1
  release-Reconciles observed result s bound same =
      let (tenant, id, digest, key, retry) = require_reconciliation-eq-ok observed bound in
      rw (← same) (tenant, id, digest, key, retry, λ k. release-unresolved observed k s)

  release-EndsReconciled :
      (unresolved : Dict String) (observed : ReconciliationObservation)
      → EndsReconciled unresolved
          (lift (require_reconciliation cs observed) >>= λ _. release contract ports cs observed)
  unfolding ◌>>=◌
  release-EndsReconciled u observed = record {
    at = λ s result h.
        and_then_ind
          (λ (q : Result Error ReconciliationObservation × State W J).
            q.0 ≡ ok result → Reconciles u result q.1)
          (require_reconciliation cs observed) _ s (λ _ _ e. cc)
          (λ _ bound e.
            rw (← h) (release-Reconciles observed result s bound (cc (release-answer observed s))));
  }

  -- An observation that `reconcile` returns carries the change set's identity and allows a retry
  -- exactly at a proven no-effect. Its key is freed unless the outcome is still uncertain, and
  -- every other key is as it was.
  pub reconcile-eq-ok :
      (s : State W J) (result : ReconciliationObservation)
      → (reconcile contract ports cs s).0 ≡ ok result
      → Reconciles s.unresolved result (reconcile contract ports cs s).1
  unfolding reconcile
  reconcile-eq-ok s result =
      let stable = HasUnresolved-Stable contract ports s.unresolved in
      (EndsReconciled-bind _ _ (validate-Keeps contract ports stable cs) λ _.
          EndsReconciled-bind _ _ (require_same_binding-Keeps contract ports stable cs) λ _.
            EndsReconciled-bind _ _
              (query-Keeps contract ports stable (ports.reconcile cs) (reconciled cs) (λ _. refl))
              (release-EndsReconciled s.unresolved)).at
        s result refl
