-- ===== src/WriteBack/Governed/Answers.antt =====
-- What a client may rely on in the answers of `GovernedWriteBack`.
use agent_connector_sdk.Base.{
  String, ◌≡◌, ◌⊎◌, inl, inr, true, Option, none, some, arith, ap, ◌∙◌, eq_iff, Result, ok, lift,
  pure, ◌>>=◌, and_then_ind,
}
use agent_connector_sdk.Base.Dict.{Dict, get, insert, get-insert}
use agent_connector_sdk.WriteBack.Contract.{
  SourceChangeSet, SourceSnapshot, AuditReservation, WriteBackAttempt, Error, Contract,
}
use agent_connector_sdk.WriteBack.Validation.{effect_matches, require_effect}
use agent_connector_sdk.WriteBack.Ports.{Ports, State, Run, query}
use agent_connector_sdk.WriteBack.Governed.{
  uncertain_attempt, run_effect, or_uncertain, mutate, settle, apply,
}

module _ {W J : Type 0} (contract : Contract J) (ports : Ports W J) (cs : SourceChangeSet J) where
  -- An attempt is an applied one that is bound to the change set, or it stands for an uncertain
  -- outcome, and then the key is bound to the change set's digest.
  abbrev pub Answers : WriteBackAttempt → State W J → Type 0
  Answers attempt s =
      (effect_matches contract cs attempt ≡ true)
      ⊎ ((version : String) × (attempt ≡ uncertain_attempt contract cs version)
          × (get cs.idempotency_key s.unresolved ≡ some cs.change_set_digest))

  record EndsBound (m : Run W J WriteBackAttempt) : Type 0 where
    at :
        (s : State W J) (attempt : WriteBackAttempt)
        → (m s).0 ≡ ok attempt
        → Answers attempt (m s).1

  EndsBound-bind :
      {A : Type 0} (m : Run W J A) (f : A → Run W J WriteBackAttempt)
      → ((a : A) → EndsBound (f a))
      → EndsBound (m >>= f)
  unfolding ◌>>=◌
  EndsBound-bind m f kf = record {
    at = λ s attempt.
        and_then_ind
          (λ (q : Result Error WriteBackAttempt × State W J).
            q.0 ≡ ok attempt → Answers attempt q.1)
          (m s).0 f _ (λ _ _ e. cc) (λ a _. (kf a).at _ attempt);
  }

  checked-EndsBound :
      (found : WriteBackAttempt)
      → EndsBound (lift (require_effect contract cs found) >>= λ _. pure found)
  unfolding ◌>>=◌ require_effect
  checked-EndsBound found = record { at = λ s attempt e. inl (ground arith) }

  run_effect-eq-ok :
      (current : SourceSnapshot J) (reservation : AuditReservation) (s : State W J)
      (attempt : WriteBackAttempt)
      → (run_effect contract ports cs current reservation s).0 ≡ ok attempt
      → effect_matches contract cs attempt ≡ true
  unfolding run_effect query ◌>>=◌ require_effect
  run_effect-eq-ok current reservation s attempt e = ground arith

  or_uncertain-eq-ok :
      (version : String) (body : Run W J WriteBackAttempt) (s : State W J)
      (attempt : WriteBackAttempt)
      → (or_uncertain contract ports cs version body s).0 ≡ ok attempt
      → ((body s).0 ≡ ok attempt)
        ⊎ ((attempt ≡ uncertain_attempt contract cs version)
            × ((or_uncertain contract ports cs version body s).1.unresolved
                ≡ insert cs.idempotency_key cs.change_set_digest (body s).1.unresolved))
  unfolding or_uncertain
  or_uncertain-eq-ok version body s attempt e = ground arith

  get-insert_self : (k v : String) (d : Dict String) → get k (insert k v d) ≡ some v
  get-insert_self k v d = ground (arith, get-insert k k v d, eq_iff k k)

  effect-EndsBound :
      (current : SourceSnapshot J) (reservation : AuditReservation)
      → EndsBound (
          or_uncertain contract ports cs current.source_version
            (run_effect contract ports cs current reservation))
  effect-EndsBound current reservation = record {
    at = λ s attempt e. elim (or_uncertain-eq-ok current.source_version _ s attempt e) [
      | inl done ↦ inl (run_effect-eq-ok current reservation s attempt done)
      | inr (lost, marked) ↦ inr (
        current.source_version,
        lost,
        ap (get cs.idempotency_key) marked ∙ get-insert_self cs.idempotency_key _ _,
      )
    ];
  }

  mutate-EndsBound : EndsBound (mutate contract ports cs)
  unfolding mutate
  mutate-EndsBound = EndsBound-bind _ _ λ current. EndsBound-bind _ _ λ _. EndsBound-bind _ _ λ _.
      EndsBound-bind _ _ λ _. EndsBound-bind _ _ λ _. EndsBound-bind _ _ λ reservation.
        EndsBound-bind _ _ λ _.
          EndsBound-bind _ _ λ _.
            EndsBound-bind _ _ λ _. EndsBound-bind _ _ λ _. effect-EndsBound current reservation

  settle-EndsBound : (found : Option WriteBackAttempt) → EndsBound (settle contract ports cs found)
  unfolding settle
  settle-EndsBound none = mutate-EndsBound
  settle-EndsBound (some attempt) = EndsBound-bind _ _ (λ _. checked-EndsBound attempt)

  apply-EndsBound : EndsBound (apply contract ports cs)
  unfolding apply
  apply-EndsBound = EndsBound-bind _ _ λ _. EndsBound-bind _ _ λ _.
      EndsBound-bind _ _
        λ _. EndsBound-bind _ _ λ _. EndsBound-bind _ _ λ _. EndsBound-bind _ _ settle-EndsBound

  -- An attempt that `apply` returns is an applied one that carries the change set's tenant, ids,
  -- digests and key, or it is the uncertain attempt for some version, and then the key is left
  -- bound to the change set's digest.
  pub apply-eq-ok :
      (s : State W J) (attempt : WriteBackAttempt)
      → (apply contract ports cs s).0 ≡ ok attempt
      → Answers attempt (apply contract ports cs s).1
  apply-eq-ok = apply-EndsBound.at
