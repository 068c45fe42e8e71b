-- ===== src/WriteBack/Governed/Once.antt =====
-- How often an operation of `GovernedWriteBack` changes the source.
use agent_connector_sdk.Base.{
  ℕ, suc, ◌+◌, ◌≤◌, ◌≡◌, Option, none, some, List, [], ◌∷◌, foldl, arith, Result, Keeps, Keeps-lift,
  Keeps-bind, keeps_rules, and_then_ind, ◌>>=◌, if◌then◌else◌, refl,
}
use agent_connector_sdk.WriteBack.Contract.{
  SourceChangeSet, WriteBackAttempt, SourceSnapshot, AuditReservation, Error, Contract,
}
use agent_connector_sdk.WriteBack.Ports.{Ports, Event, reserved, read, prior, State, Run}
use agent_connector_sdk.WriteBack.Governed.{run_effect, or_uncertain, mutate, settle, apply}
use agent_connector_sdk.WriteBack.Governed.Trace.{
  IgnoresQueries, On, On-Stable, is_effect, query-Keeps, validate-Keeps, authorize-Keeps,
  current_version-Keeps, dry_run-Keeps, reconcile-Keeps, verify-Keeps, require_reconciled-Keeps,
  require_wallet_proof-Keeps, prepare-Keeps,
}
use agent_connector_sdk.WriteBack.Governed.Guard.{
  run_effect-history, or_uncertain-history, Request, apply_request, dry_run_request,
  reconcile_request, version_request, serve,
}

-- The calls that change the source.
abbrev pub effects : {J : Type 0} → List (Event J) → ℕ
effects [] = 0
effects (event ∷ past) = if is_effect event then suc (effects past) else effects past

abbrev pub Exactly : {J : Type 0} → ℕ → List (Event J) → Type 0
Exactly n past = effects past ≡ n

pub Exactly-IgnoresQueries : {J : Type 0} (n : ℕ) → IgnoresQueries {J = J} (Exactly n)
Exactly-IgnoresQueries n = record { extend = λ event past quiet h. rw quiet h }

module _ {W J : Type 0} (contract : Contract J) (ports : Ports W J) (n : ℕ) where
  -- From a history of `n` effects the action ends with at most one more.
  record AddsOne {A : Type 0} (m : Run W J A) : Type 0 where
    at : (s : State W J) → Exactly n s.history → effects (m s).1.history ≤ n + 1

  AddsOne-bind :
      {A B : Type 0} (m : Run W J A) (f : A → Run W J B)
      → Keeps (On (Exactly n)) m
      → ((a : A) → AddsOne (f a))
      → AddsOne (m >>= f)
  unfolding ◌>>=◌
  AddsOne-bind {A} {B} m f km kf = record {
    at = λ s h.
        and_then_ind (λ (q : Result Error B × State W J). effects q.1.history ≤ n + 1) (m s).0 f _
          (λ _ _. omega (arith, km.at s h)) (λ a _. (kf a).at _ (km.at s h));
  }

  AddsOne-of-Keeps : {A : Type 0} {m : Run W J A} → Keeps (On (Exactly n)) m → AddsOne m
  AddsOne-of-Keeps km = record { at = λ s h. omega (arith, km.at s h) }

  module _ (cs : SourceChangeSet J) where
    effect-AddsOne :
        (current : SourceSnapshot J) (reservation : AuditReservation)
        → AddsOne (
            or_uncertain contract ports cs current.source_version
              (run_effect contract ports cs current reservation))
    effect-AddsOne current reservation = record {
      at = λ s h.
          rw
            (
              or_uncertain-history contract ports cs current.source_version
                  (run_effect contract ports cs current reservation) s,
              run_effect-history contract ports cs current reservation s,
            )
            (omega arith);
    }

    mutate-AddsOne : AddsOne (mutate contract ports cs)
    unfolding mutate
    mutate-AddsOne =
        let quiet = On-Stable {W = W} (Exactly-IgnoresQueries {J = J} n) in
        AddsOne-bind _ _ (query-Keeps contract ports quiet _ (read cs) (λ _. refl)) λ current.
          AddsOne-bind _ _ (Keeps-lift _) λ _.
            AddsOne-bind _ _ (verify-Keeps contract ports quiet cs) λ _.
              AddsOne-bind _ _ (Keeps-lift _) λ _.
                AddsOne-bind _ _ (query-Keeps contract ports quiet _ (reserved cs) (λ _. refl)) λ _.
                  AddsOne-bind _ _ (Keeps-lift _) λ reservation.
                    AddsOne-bind _ _ (validate-Keeps contract ports quiet cs) λ _.
                      AddsOne-bind _ _ (verify-Keeps contract ports quiet cs) λ _.
                        AddsOne-bind _ _ (validate-Keeps contract ports quiet cs) λ _.
                          AddsOne-bind _ _ (Keeps-lift _) λ _. effect-AddsOne current reservation

    settle-AddsOne : (found : Option WriteBackAttempt) → AddsOne (settle contract ports cs found)
    unfolding settle
    settle-AddsOne none = mutate-AddsOne
    settle-AddsOne (some attempt) = AddsOne-of-Keeps (
        Keeps-bind _ _ (authorize-Keeps contract ports (On-Stable (Exactly-IgnoresQueries n)) cs)
          (λ _. search keeps_rules))

    apply-AddsOne : AddsOne (apply contract ports cs)
    unfolding apply
    apply-AddsOne =
        let quiet = On-Stable {W = W} (Exactly-IgnoresQueries {J = J} n) in
        AddsOne-bind _ _ (validate-Keeps contract ports quiet cs) λ _.
          AddsOne-bind _ _ (require_reconciled-Keeps contract ports quiet cs) λ _.
            AddsOne-bind _ _ (authorize-Keeps contract ports quiet cs) λ _.
              AddsOne-bind _ _ (require_wallet_proof-Keeps contract ports quiet cs) λ _.
                AddsOne-bind _ _ (prepare-Keeps contract ports quiet cs) λ _.
                  AddsOne-bind _ _ (query-Keeps contract ports quiet _ (prior cs) (λ _. refl))
                    settle-AddsOne

-- The requests to apply.
abbrev pub applies : {J : Type 0} → List (Request J) → ℕ
applies [] = 0
applies (apply_request cs ∷ requests) = suc (applies requests)
applies (_ ∷ requests) = applies requests

module _ {W J : Type 0} (contract : Contract J) (ports : Ports W J) where
  serve-effects-le :
      (request : Request J) (s : State W J)
      → effects (serve contract ports s request).history
        ≤ effects s.history + applies (request ∷ [])
  unfolding serve
  serve-effects-le (apply_request cs) s =
      (apply-AddsOne contract ports (effects s.history) cs).at s refl
  serve-effects-le (dry_run_request cs) s = omega (
    arith,
    (dry_run-Keeps contract ports (On-Stable (Exactly-IgnoresQueries (effects s.history))) cs).at s
        refl,
  )
  serve-effects-le (reconcile_request cs) s = omega (
    arith,
    (reconcile-Keeps contract ports (On-Stable (Exactly-IgnoresQueries (effects s.history))) cs
          (λ _ kept. kept)).at
        s refl,
  )
  serve-effects-le (version_request cs) s = omega (
    arith,
    (current_version-Keeps contract ports (On-Stable (Exactly-IgnoresQueries (effects s.history)))
          cs).at
        s refl,
  )

  applies-cons :
      (request : Request J) (requests : List (Request J))
      → applies (request ∷ requests) ≡ applies (request ∷ []) + applies requests
  applies-cons (apply_request cs) requests = omega arith
  applies-cons _ requests = omega arith

  -- Whatever requests a client sends, the calls that change the source are at most the requests
  -- to apply: a request changes the source once at most, and a dry run, a reconciliation and a
  -- read of the version never do.
  pub effects-serve_all-le :
      (requests : List (Request J)) (s : State W J)
      → effects (foldl (serve contract ports) s requests).history
        ≤ effects s.history + applies requests
  effects-serve_all-le [] s = omega arith
  effects-serve_all-le (request ∷ requests) s = omega (
    arith,
    serve-effects-le request s,
    applies-cons request requests,
    effects-serve_all-le requests (serve contract ports s request),
  )
