-- ===== src/WriteBack/Governed/Unresolved.antt =====
-- An effect whose outcome is uncertain blocks its idempotency key until it is reconciled.
use agent_connector_sdk.Base.{
  ℕ, suc, String, ◌≡◌, ◌≢◌, refl, Bool, true, false, some, List, [], ◌∷◌, foldl, arith, str_eq,
  eq_iff, if◌then◌else◌, Bool-cases, inl, inr, Result-cases, raise, ◌>>=◌, ◌∙◌, ap, Keeps,
  Keeps-bind, Keeps-raise,
}
use agent_connector_sdk.Base.Dict.{get, has, get-insert, get-remove, has-of_get}
use agent_connector_sdk.WriteBack.Contract.{
  SourceChangeSet, SourceSnapshot, AuditReservation, reconciliation_required, Contract,
  WriteBackAttempt,
}
use agent_connector_sdk.WriteBack.Ports.{Ports, Event, effect, State, query, prior}
use agent_connector_sdk.WriteBack.Governed.{
  validate, require_reconciled, run_effect, or_uncertain, apply, reconcile,
}
use agent_connector_sdk.WriteBack.Governed.Trace.{
  Stable, is_effect, query-Keeps, validate-Keeps, mutate-Keeps, settle-Keeps, apply-Keeps,
  current_version-Keeps, dry_run-Keeps, reconcile-Keeps,
}
use agent_connector_sdk.WriteBack.Governed.Guard.{
  Request, apply_request, dry_run_request, reconcile_request, version_request, serve,
  run_effect-history, or_uncertain-history,
}

abbrev pub is_effect_for : {J : Type 0} → String → Event J → Bool
is_effect_for key (effect cs _ _ _) = str_eq cs.idempotency_key key
is_effect_for key _ = false

-- The calls that change the source under one idempotency key.
abbrev pub effects_for : {J : Type 0} → String → List (Event J) → ℕ
effects_for key [] = 0
effects_for key (event ∷ past) =
    if is_effect_for key event then suc (effects_for key past) else effects_for key past

-- No request of the list reconciles the key.
abbrev pub LeavesKey : {J : Type 0} → String → List (Request J) → Type 0
LeavesKey key [] = Unit
LeavesKey key (reconcile_request cs ∷ requests) =
    (cs.idempotency_key ≢ key) × LeavesKey key requests
LeavesKey key (_ ∷ requests) = LeavesKey key requests

quiet_for :
    {J : Type 0} (key : String) (event : Event J)
    → is_effect event ≡ false
    → is_effect_for key event ≡ false
quiet_for key (effect _ _ _ _) h = cc
quiet_for key _ h = refl

module _ {W J : Type 0} (contract : Contract J) (ports : Ports W J) where
  pub HasUnresolved-Stable :
      (u : List (String × String)) → Stable {W = W} {J = J} (λ s. s.unresolved ≡ u)
  HasUnresolved-Stable u = record { query = λ _ _ _ _ h. h }

  -- With its key unresolved a change set is validated, and then refused: no port but the clock is
  -- called, and the state is otherwise unchanged.
  apply-unresolved :
      (cs : SourceChangeSet J) (s : State W J)
      → has cs.idempotency_key s.unresolved ≡ true
      → apply contract ports cs s
        ≡ (validate contract ports cs >>= λ _. raise reconciliation_required) s
  unfolding apply require_reconciled ◌>>=◌
  apply-unresolved cs s h =
      let kept = (validate-Keeps contract ports (HasUnresolved-Stable s.unresolved) cs).at s refl in
      elim (Result-cases (validate contract ports cs s).0) [
        | inl (e, fails) ↦ rw fails
        | inr (a, passes) ↦ rw (passes, kept, h)
      ]

  module _ (key : String) (digest : String) (n : ℕ) where
    -- The key is bound to `digest`, and `n` effects carry it.
    Blocked : State W J → Type 0
    Blocked s = (get key s.unresolved ≡ some digest) × (effects_for key s.history ≡ n)

    Blocked-Stable : Stable Blocked
    unfolding Blocked
    Blocked-Stable = record {
      query = λ event w s quiet h. (h.0, rw (quiet_for key event quiet) h.1);
    }

    effect-unresolved :
        (cs : SourceChangeSet J) (current : SourceSnapshot J) (reservation : AuditReservation)
        → str_eq cs.idempotency_key key ≡ false
        → (s : State W J)
        → get key
            (or_uncertain contract ports cs current.source_version
              (run_effect contract ports cs current reservation)
              s).1.unresolved
          ≡ get key s.unresolved
    unfolding or_uncertain run_effect query ◌>>=◌
    effect-unresolved cs current reservation other s =
        ground (arith, get-insert cs.idempotency_key key cs.change_set_digest s.unresolved)

    effect-Blocked :
        (cs : SourceChangeSet J) (current : SourceSnapshot J) (reservation : AuditReservation)
        → str_eq cs.idempotency_key key ≡ false
        → Keeps Blocked (
            or_uncertain contract ports cs current.source_version
              (run_effect contract ports cs current reservation))
    unfolding Blocked
    effect-Blocked cs current reservation other = record {
      at = λ s h. (
        effect-unresolved cs current reservation other s ∙ h.0,
        rw
            (
              or_uncertain-history contract ports cs current.source_version
                  (run_effect contract ports cs current reservation) s,
              run_effect-history contract ports cs current reservation s,
              other,
            )
            h.1,
      );
    }

    apply_other-Blocked :
        (cs : SourceChangeSet J)
        → str_eq cs.idempotency_key key ≡ false
        → Keeps Blocked (apply contract ports cs)
    apply_other-Blocked cs other = apply-Keeps contract ports Blocked-Stable cs (
        Keeps-bind _ _
          (query-Keeps contract ports Blocked-Stable (ports.prior_effect cs) (prior cs) (λ _. refl))
          λ found. settle-Keeps contract ports Blocked-Stable cs found (
            mutate-Keeps contract ports Blocked-Stable cs
              (λ current reservation. effect-Blocked cs current reservation other)))

    refused-Keeps :
        (cs : SourceChangeSet J)
        → Keeps Blocked (
            validate contract ports cs >>= λ _.
            raise {A = WriteBackAttempt} reconciliation_required)
    refused-Keeps cs =
        Keeps-bind _ _ (validate-Keeps contract ports Blocked-Stable cs)
          (λ _. Keeps-raise reconciliation_required)

    apply-Blocked : (cs : SourceChangeSet J) → Keeps Blocked (apply contract ports cs)
    unfolding Blocked
    apply-Blocked cs = elim (Bool-cases (str_eq cs.idempotency_key key)) [
      | inl same ↦ record {
        at = λ s h.
            let found : get cs.idempotency_key s.unresolved ≡ some digest =
              ap (λ k. get k s.unresolved) ((eq_iff _ _).0 same) ∙ h.0 in
            rw (apply-unresolved cs s (has-of_get cs.idempotency_key s.unresolved found))
              ((refused-Keeps cs).at s h);
      }
      | inr other ↦ apply_other-Blocked cs other
    ]

    reconcile-Blocked :
        (cs : SourceChangeSet J)
        → cs.idempotency_key ≢ key
        → Keeps Blocked (reconcile contract ports cs)
    unfolding Blocked
    reconcile-Blocked cs other = reconcile-Keeps contract ports Blocked-Stable cs λ s h. (
      ground (
        arith,
        h.0,
        eq_iff cs.idempotency_key key,
        get-remove cs.idempotency_key key s.unresolved,
      ),
      h.1,
    )

    serve-Blocked :
        (requests : List (Request J)) (s : State W J)
        → LeavesKey key requests
        → Blocked s
        → Blocked (foldl (serve contract ports) s requests)
    unfolding serve
    serve-Blocked [] s leaves h = h
    serve-Blocked (apply_request cs ∷ requests) s leaves h =
        serve-Blocked requests _ leaves ((apply-Blocked cs).at s h)
    serve-Blocked (dry_run_request cs ∷ requests) s leaves h =
        serve-Blocked requests _ leaves ((dry_run-Keeps contract ports Blocked-Stable cs).at s h)
    serve-Blocked (reconcile_request cs ∷ requests) s leaves h =
        serve-Blocked requests _ leaves.1 ((reconcile-Blocked cs leaves.0).at s h)
    serve-Blocked (version_request cs ∷ requests) s leaves h =
        serve-Blocked requests _ leaves
          ((current_version-Keeps contract ports Blocked-Stable cs).at s h)

  -- While a key is unresolved, and as long as no request reconciles that key, no call changes the
  -- source under the key, and the key stays bound to the same digest.
  pub serve_all-unresolved :
      (key digest : String) (requests : List (Request J)) (s : State W J)
      → get key s.unresolved ≡ some digest
      → LeavesKey key requests
      → let s' = foldl (serve contract ports) s requests in
        (get key s'.unresolved ≡ some digest)
        × (effects_for key s'.history ≡ effects_for key s.history)
  unfolding Blocked
  serve_all-unresolved key digest requests s h leaves =
      serve-Blocked key digest (effects_for key s.history) requests s leaves (h, refl)
