-- ===== src/WriteBack/Connector/Restart.antt =====
-- The durable receipts decide: what a process does with a change set that an earlier process has
-- applied, or may have applied.
use agent_connector_sdk.Base.{
  ℕ, ◌≡◌, refl, sym, ap, ◌∙◌, Bool, true, false, inl, inr, Option, none, some, ◌∷◌, arith,
  Bool-cases, Result, ok, and_then_ind, Keeps, lift, pure, raise, ◌>>=◌,
}
use agent_connector_sdk.WriteBack.Contract.{
  SourceChangeSet, WriteBackAttempt, Error, persistence, reconciliation_required, Contract,
}
use agent_connector_sdk.WriteBack.Validation.{require_effect}
use agent_connector_sdk.WriteBack.Ports.{Ports, Run, prior}
use agent_connector_sdk.WriteBack.Governed.Trace.{
  On, Stable, On-Stable, query-Keeps, authorize-Keeps,
}
use agent_connector_sdk.WriteBack.Governed.Once.{effects, Exactly, Exactly-IgnoresQueries}
use agent_connector_sdk.WriteBack.Recovery.{
  RecoveryState, fresh, retryable, uncertain_effect, applied_effect,
}
use agent_connector_sdk.WriteBack.Ledger
use agent_connector_sdk.WriteBack.Ledger.{File}
use agent_connector_sdk.WriteBack.Connector.{
  Connector, Job, with_governed, with_file, claim, require_connector, authoritative_of,
  authoritative, is_claimed, recovered_state, recover, found_effect, apply_from, apply_durable,
  apply,
}

-- The receipts prove an effect, or that there may be one.
abbrev pub is_settled : RecoveryState → Bool
is_settled uncertain_effect = true
is_settled applied_effect = true
is_settled _ = false

module _ {W J : Type 0} (contract : Contract J) (ports : Ports W J) where
  -- For an action on a connector with the file `f`: what it leaves alone, and what it returns.
  record Gives {A : Type 0} (f : File J) (n : ℕ) (m : Job W J A) (Fact : A → Type 0) : Type 0 where
    at :
        (c : Connector W J)
        → c.file ≡ f
        → effects c.governed.history ≡ n
        → ((m c).1.file ≡ f)
          × (effects (m c).1.governed.history ≡ n)
          × ((a : A) → (m c).0 ≡ ok a → Fact a)

  Gives-bind :
      {A B : Type 0} {f : File J} {n : ℕ} {Fact : A → Type 0} {Fact' : B → Type 0} (m : Job W J A)
      (k : A → Job W J B)
      → Gives f n m Fact
      → ((a : A) → Fact a → Gives f n (k a) Fact')
      → Gives f n (m >>= k) Fact'
  unfolding ◌>>=◌
  Gives-bind {A} {B} {f} {n} {Fact} {Fact'} m k gm gk = record {
    at = λ c same count.
        let (same', count', fact) = gm.at c same count in
        and_then_ind
          (λ (q : Result Error B × Connector W J).
            (q.1.file ≡ f) × (effects q.1.governed.history ≡ n) × ((b : B) → q.0 ≡ ok b → Fact' b))
          (m c).0 k _ (λ e _. (same', count', λ b h. cc))
          (λ a h. (gk a (fact a h)).at _ same' count');
  }

  Gives-governed :
      {A : Type 0} {f : File J} {n : ℕ} (m : Run W J A)
      → Keeps (λ s. effects s.history ≡ n) m
      → Gives f n (with_governed m) (λ _. Unit {0})
  unfolding with_governed
  Gives-governed m km = record { at = λ c same count. (same, km.at c.governed count, λ _ _. tt) }

  Gives-lift :
      {A : Type 0} {f : File J} {n : ℕ} (r : Result Error A) → Gives f n (lift r) (λ a. r ≡ ok a)
  unfolding lift
  Gives-lift r = record { at = λ c same count. (same, count, λ a h. h) }

  Gives-pure : {A : Type 0} {f : File J} {n : ℕ} (a : A) → Gives f n (pure a) (λ _. Unit {0})
  unfolding pure
  Gives-pure a = record { at = λ c same count. (same, count, λ _ _. tt) }

  Gives-raise :
      {A : Type 0} {f : File J} {n : ℕ} (e : Error) → Gives f n (raise {A = A} e) (λ _. Unit {0})
  unfolding raise
  Gives-raise e = record { at = λ c same count. (same, count, λ _ _. tt) }

  module _ (cs : SourceChangeSet J) (f : File J) (n : ℕ) where
    Gives-require_connector : Gives f n (require_connector cs) (λ _. Unit {0})
    unfolding require_connector
    Gives-require_connector = record { at = λ c same count. (same, count, λ _ _. tt) }

    Gives-get :
        Gives f n
          (with_file (Ledger.get cs.tenant_id cs.change_set_id))
          (λ found. (d : SourceChangeSet J) → found ≡ some d → f.change_set ≡ some d)
    unfolding with_file Ledger.get
    Gives-get = record {
      at = λ c same count. (
        get_file c.file ∙ same,
        count,
        λ found h d e.
            ap (λ (g : File J). g.change_set) (sym same) ∙ get_found c.file d (h ∙ ap ok e),
      );
    }
      where
        get_file : (g : File J) → (Ledger.get cs.tenant_id cs.change_set_id g).1 ≡ g
        get_file g = ground arith

        get_found :
            (g : File J) (d : SourceChangeSet J)
            → (Ledger.get cs.tenant_id cs.change_set_id g).0 ≡ ok (some d)
            → g.change_set ≡ some d
        get_found g d h = ground arith

    authoritative_of-eq-ok :
        (found : Option (SourceChangeSet J)) (durable : SourceChangeSet J)
        → authoritative_of contract ports cs found ≡ ok durable
        → (durable ≡ cs) × (found ≡ some durable)
    unfolding authoritative_of
    authoritative_of-eq-ok none durable h = cc
    authoritative_of-eq-ok (some d) durable h =
        (ground (arith, contract.change_set_eq_iff d cs), ground arith)

    -- The durable change set is the given one, and it is the file's.
    Gives-authoritative :
        Gives f n
          (authoritative contract ports cs)
          (λ durable. (durable ≡ cs) × (f.change_set ≡ some durable))
    unfolding authoritative lift
    Gives-authoritative = Gives-bind _ _ Gives-require_connector λ _ _.
        Gives-bind _ _ Gives-get λ found known. record {
          at = λ c same count. (
            same,
            count,
            λ durable h.
                let (is_it, was_found) = authoritative_of-eq-ok found durable h in
                (is_it, known durable was_found),
          );
        }

    Gives-recover :
        Gives f n
          (recover contract ports cs)
          (λ state. recovered_state contract ports cs f ≡ ok state)
    unfolding recover
    Gives-recover = record {
      at = λ c same count.
          (same, count, λ state h. ap (recovered_state contract ports cs) (sym same) ∙ h);
    }

  module _ (f : File J) (n : ℕ) where
    abbrev quiet : Stable {W = W} (On {W = W} (Exactly {J = J} n))
    quiet = On-Stable (Exactly-IgnoresQueries n)

    Gives-found_effect :
        (durable : SourceChangeSet J) (found : Option WriteBackAttempt)
        → Gives f n (found_effect contract ports durable found) (λ _. Unit {0})
    unfolding found_effect
    Gives-found_effect durable none = Gives-raise persistence
    Gives-found_effect durable (some attempt) =
        Gives-bind _ _ (Gives-governed _ (authorize-Keeps contract ports quiet durable)) λ _ _.
          Gives-bind _ _ (Gives-lift (require_effect contract durable attempt))
            (λ _ _. Gives-pure attempt)

    -- Once the receipts settle the matter nothing is applied.
    Gives-apply_from :
        (durable : SourceChangeSet J) (state : RecoveryState)
        → is_settled state ≡ true
        → Gives f n (apply_from contract ports durable state) (λ _. Unit {0})
    unfolding apply_from
    Gives-apply_from durable uncertain_effect h = Gives-raise reconciliation_required
    Gives-apply_from durable applied_effect h =
        Gives-bind _ _
          (Gives-governed _ (
            query-Keeps contract ports quiet (ports.prior_effect durable) (prior durable)
              (λ _. refl)))
          (λ found _. Gives-found_effect durable found)
    Gives-apply_from durable fresh h = cc
    Gives-apply_from durable retryable h = cc

    Gives-apply_durable :
        (cs : SourceChangeSet J) (state : RecoveryState)
        → recovered_state contract ports cs f ≡ ok state
        → is_settled state ≡ true
        → Gives f n (apply_durable contract ports cs) (λ _. Unit {0})
    unfolding apply_durable
    Gives-apply_durable cs state proved settled =
        Gives-bind _ _ (Gives-authoritative cs f n) λ durable (is_it, _).
          Gives-bind _ _ (Gives-governed _ (authorize-Keeps contract ports quiet durable)) λ _ _.
            Gives-bind _ _ (Gives-recover durable f n) λ found recovered.
              let same : found ≡ state = ground (arith, is_it, recovered, proved) in
              Gives-apply_from durable found (rw same settled)

  -- Where the durable receipts prove an effect, or that there may be one, `apply` makes no call that
  -- changes the source and adds no receipt, whatever the process has in memory.
  pub apply-settled :
      (cs : SourceChangeSet J) (c : Connector W J) (state : RecoveryState)
      → recovered_state contract ports cs c.file ≡ ok state
      → is_settled state ≡ true
      → let c' = (apply contract ports cs c).1 in
        (effects c'.governed.history ≡ effects c.governed.history) × (c'.file ≡ c.file)
  unfolding apply claim
  apply-settled cs c state proved settled =
      let body =
        (Gives-apply_durable c.file (effects c.governed.history) cs state proved settled).at in
      elim (Bool-cases (is_claimed (cs.tenant_id, cs.idempotency_key) c.claims)) [
        | inl busy ↦ rw busy (refl, refl)
        | inr free ↦
            let (same, count, _) =
              body (record c { claims = (cs.tenant_id, cs.idempotency_key) ∷ c.claims }) refl
                refl in
            rw free (count, same)
      ]
