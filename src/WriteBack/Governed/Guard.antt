-- ===== src/WriteBack/Governed/Guard.antt =====
-- No effect without its guards: what stands in the history before a call that changes the source.
use agent_connector_sdk.Base.{
  ℕ, ◌<◌, String, ◌≡◌, refl, true, false, Option, none, some, List, [], ◌∷◌, foldl, arith,
  keeps_rules, Result, ok, err, Keeps-bind, and_then_ind, lift, ◌>>=◌, ◌∙◌, ap, eq_iff,
}
use agent_connector_sdk.WriteBack.Contract.{
  Decision, SourceChangeSet, WriteBackAttempt, SourceSnapshot, AuditReservation, Error, Contract,
}
use agent_connector_sdk.WriteBack.Validation.{require_base, require_authorized}
use agent_connector_sdk.WriteBack.Ports.{
  Call, Ports, Event, clock_read, verified, reserved, read, prior, effect, State, Run, query,
}
use agent_connector_sdk.WriteBack.Governed.{
  is_bound, require_bound_reservation, read_clock, validate, verify, run_effect, or_uncertain,
  mutate, settle, apply, current_version, dry_run, reconcile, scope_matches, source_call,
}
use agent_connector_sdk.WriteBack.Governed.Trace.{
  IgnoresQueries, On-Stable, is_effect, validate-Keeps, authorize-Keeps, apply-Keeps,
  current_version-Keeps, dry_run-Keeps, reconcile-Keeps,
}

module _ {J : Type 0} (contract : Contract J) where
  -- `past` ends with the calls that must precede an effect: a search for a prior effect that found
  -- none, a read of the base version, an approval, a bound reservation, and a second approval
  -- between two looks at the clock, the last of them before the expiry.
  pub record Justified (cs : SourceChangeSet J) (version : String) (reservation : AuditReservation)
      (past : List (Event J)) : Type 0 where
    pub earlier : ℕ
    pub now : ℕ
    pub first : Decision J
    pub latest : Decision J
    pub current : SourceSnapshot J
    pub before : List (Event J)
    pub order :
        past
        ≡ clock_read now
          ∷ verified cs (ok latest)
          ∷ clock_read earlier
          ∷ reserved cs (ok (some reservation))
          ∷ verified cs (ok first)
          ∷ read cs (ok current)
          ∷ prior cs (ok none)
          ∷ before
    pub in_time : now < cs.expires_at_ms
    pub approved : latest ≡ cs.authorization
    pub authorized : latest.authorized ≡ true
    pub approved_before : first ≡ cs.authorization
    pub bound : is_bound contract cs reservation ≡ true
    pub read_version : current.source_version ≡ version
    pub base_version : version ≡ cs.base_source_version
    pub digest_matches : cs.change_set_digest ≡ contract.canonical_digest cs

  abbrev pub Justifies : Event J → List (Event J) → Type 0
  Justifies (effect cs version reservation answer) past = Justified cs version reservation past
  Justifies _ past = Unit

  -- Each effect of the history was justified when it was made.
  abbrev pub IsGoverned : List (Event J) → Type 0
  IsGoverned [] = Unit
  IsGoverned (event ∷ past) = Justifies event past × IsGoverned past

  IsGoverned-IgnoresQueries : IgnoresQueries IsGoverned
  IsGoverned-IgnoresQueries = record { extend = extend }
    where
      extend :
          (event : Event J) (past : List (Event J))
          → is_effect event ≡ false
          → IsGoverned past
          → IsGoverned (event ∷ past)
      extend (effect _ _ _ _) past e h = cc
      extend (clock_read n) past e h = (tt, h)
      extend _ past e h = (tt, h)

module _ {W J : Type 0} (contract : Contract J) (ports : Ports W J) (cs : SourceChangeSet J) where
  abbrev Fine : {A : Type 0} → Result Error A × State W J → Type 0
  Fine (r, s) = IsGoverned contract s.history

  pub or_uncertain-history :
      (version : String) (body : Run W J WriteBackAttempt) (s : State W J)
      → (or_uncertain contract ports cs version body s).1.history ≡ (body s).1.history
  unfolding or_uncertain
  or_uncertain-history version body s = ground arith

  pub run_effect-history :
      (current : SourceSnapshot J) (reservation : AuditReservation) (s : State W J)
      → (run_effect contract ports cs current reservation s).1.history
        ≡ effect cs current.source_version reservation
            (source_call contract ports cs current.source_version reservation s.world).0
          ∷ s.history
  unfolding run_effect query ◌>>=◌
  run_effect-history current reservation s = ground arith

  -- What a successful validation has read and checked.
  validate-eq-ok :
      (s : State W J)
      → (validate contract ports cs s).0 ≡ ok tt
      → (now : ℕ) × ((validate contract ports cs s).1.history ≡ clock_read now ∷ s.history)
        × (now < cs.expires_at_ms)
        × (cs.change_set_digest ≡ contract.canonical_digest cs)
        × (scope_matches contract cs ≡ true)
  unfolding validate read_clock ◌>>=◌
  validate-eq-ok s h = (
    (ports.clock_ms s.world).0,
    ground (arith, eq_iff cs.change_set_digest (contract.canonical_digest cs)),
    ground (arith, eq_iff cs.change_set_digest (contract.canonical_digest cs)),
    ground (arith, eq_iff cs.change_set_digest (contract.canonical_digest cs)),
    ground (arith, eq_iff cs.change_set_digest (contract.canonical_digest cs)),
  )

  -- From a governed history `past` the action ends, by a return or a raise, in a governed history.
  record Safe {A : Type 0} (past : List (Event J)) (m : Run W J A) : Type 0 where
    at :
        IsGoverned contract past
        → (s : State W J) → s.history ≡ past
        → IsGoverned contract (m s).1.history

  Safe-lift :
      {A B : Type 0} {past : List (Event J)} (r : Result Error A) (f : A → Run W J B)
      → ((a : A) → r ≡ ok a → Safe past (f a))
      → Safe past (lift r >>= f)
  unfolding ◌>>=◌
  Safe-lift (ok a) f rest = record { at = (rest a refl).at }
  Safe-lift (err e) f rest = record { at = λ h s p. rw p h }

  Safe-query :
      {A B : Type 0} {past : List (Event J)} (call : Call W A) (event : Result Error A → Event J)
      (f : A → Run W J B)
      → ((r : Result Error A) → is_effect (event r) ≡ false)
      → ((a : A) → Safe (event (ok a) ∷ past) (f a))
      → Safe past (query call event >>= f)
  unfolding ◌>>=◌ query
  Safe-query {A} {B} {past = past} call event f quiet rest = record {
    at = λ h s p.
        let step = λ (r : Result Error A).
          (IsGoverned-IgnoresQueries contract).extend (event r) past (quiet r) h in
        and_then_ind (λ (q : Result Error B × State W J). IsGoverned contract q.1.history)
          (call s.world).0 f _ (λ e fault. rw (fault, p) (step (err e)))
          (λ a done. (rest a).at (step (ok a)) _ (rw (done, p)));
  }

  -- A validation reads the clock once at most, and nothing else.
  validate_reads :
      (s : State W J)
      → IsGoverned contract s.history
      → IsGoverned contract (validate contract ports cs s).1.history
  validate_reads =
      (validate-Keeps contract ports (On-Stable (IsGoverned-IgnoresQueries contract)) cs).at

  Safe-validate :
      {A : Type 0} {past : List (Event J)} (f : Unit {0} → Run W J A)
      → ((now : ℕ)
          → now < cs.expires_at_ms
          → cs.change_set_digest ≡ contract.canonical_digest cs
          → Safe (clock_read now ∷ past) (f tt))
      → Safe past (validate contract ports cs >>= f)
  unfolding ◌>>=◌
  Safe-validate {A} {past = past} f rest = record {
    at = λ h s p.
        and_then_ind (λ (q : Result Error A × State W J). IsGoverned contract q.1.history)
          (validate contract ports cs s).0 f _ (λ e fault. validate_reads s (rw p h))
          (λ a done.
            let (now, seen, early, digest, scope) = validate-eq-ok s done in
            (rest now early digest).at (tt, h) _ (seen ∙ ap (λ l. clock_read now ∷ l) p));
  }

  -- The end of the block: one effect, with what `past` says of it.
  Safe-effect :
      {past : List (Event J)} (current : SourceSnapshot J) (reservation : AuditReservation)
      → Justified contract cs current.source_version reservation past
      → Safe past (
          or_uncertain contract ports cs current.source_version
            (run_effect contract ports cs current reservation))
  Safe-effect current reservation justified = record {
    at = λ h s p.
        rw
          (
            or_uncertain-history current.source_version _ s,
            run_effect-history current reservation s,
            p,
          )
          (justified, h);
  }

  require_base-eq-ok :
      (current : SourceSnapshot J) {a : Unit {0}}
      → require_base cs current ≡ ok a
      → current.source_version ≡ cs.base_source_version
  unfolding require_base
  require_base-eq-ok current e =
      ground (arith, eq_iff current.source_version cs.base_source_version)

  require_authorized-eq-ok :
      (decision : Decision J) {a : Unit {0}}
      → require_authorized contract cs decision ≡ ok a
      → (decision ≡ cs.authorization) × (decision.authorized ≡ true)
  unfolding require_authorized
  require_authorized-eq-ok decision e =
      (ground (arith, contract.decision_eq_iff decision cs.authorization), ground arith)

  require_bound_reservation-eq-ok :
      (answer : Option AuditReservation) {reservation : AuditReservation}
      → require_bound_reservation contract cs answer ≡ ok reservation
      → (answer ≡ some reservation) × (is_bound contract cs reservation ≡ true)
  unfolding require_bound_reservation
  require_bound_reservation-eq-ok none e = cc
  require_bound_reservation-eq-ok (some r) e = (ground arith, ground arith)

  mutate-Safe :
      (before : List (Event J)) → Safe (prior cs (ok none) ∷ before) (mutate contract ports cs)
  unfolding mutate verify
  mutate-Safe before =
      Safe-query _ (read cs) _ (λ _. refl)
        λ current. Safe-lift (require_base cs current) _ λ _ base.
          Safe-query _ (verified cs) _ (λ _. refl)
            λ first. Safe-lift (require_authorized contract cs first) _ λ _ ok1.
              Safe-query _ (reserved cs) _ (λ _. refl)
                λ answer.
                  Safe-lift (require_bound_reservation contract cs answer) _ λ reservation bound.
                    Safe-validate _ λ earlier _ _.
                      Safe-query _ (verified cs) _ (λ _. refl)
                        λ latest. Safe-validate _ λ now early digest.
                          Safe-lift (require_authorized contract cs latest) _ λ _ ok2.
                            Safe-effect current reservation (record {
                              earlier = earlier;
                              now = now;
                              first = first;
                              latest = latest;
                              current = current;
                              before = before;
                              order =
                                  ap
                                    (λ a.
                                      clock_read now
                                      ∷ verified cs (ok latest)
                                      ∷ clock_read earlier
                                      ∷ reserved cs (ok a)
                                      ∷ verified cs (ok first)
                                      ∷ read cs (ok current)
                                      ∷ prior cs (ok none)
                                      ∷ before)
                                    (require_bound_reservation-eq-ok answer bound).0;
                              in_time = early;
                              approved = (require_authorized-eq-ok latest ok2).0;
                              authorized = (require_authorized-eq-ok latest ok2).1;
                              approved_before = (require_authorized-eq-ok first ok1).0;
                              bound = (require_bound_reservation-eq-ok answer bound).1;
                              read_version = refl;
                              base_version = require_base-eq-ok current base;
                              digest_matches = digest;
                            })

  settle-Safe :
      (found : Option WriteBackAttempt) (before : List (Event J))
      → Safe (prior cs (ok found) ∷ before) (settle contract ports cs found)
  unfolding settle
  settle-Safe none before = record { at = (mutate-Safe before).at }
  settle-Safe (some attempt) before = record {
    at = λ h s p.
        (Keeps-bind _ _
            (authorize-Keeps contract ports (On-Stable (IsGoverned-IgnoresQueries contract)) cs)
            (λ _. search keeps_rules)).at
          s (rw p h);
  }

  apply-IsGoverned :
      (s : State W J)
      → IsGoverned contract s.history
      → IsGoverned contract (apply contract ports cs s).1.history
  apply-IsGoverned =
      (apply-Keeps contract ports (On-Stable (IsGoverned-IgnoresQueries contract)) cs (record {
        at = λ s h.
            (Safe-query (ports.prior_effect cs) (prior cs) _ (λ _. refl)
                (λ found. settle-Safe found s.history)).at
              h s refl;
      })).at

-- The public methods, as requests that a client may send in any order.
pub data Request (J : Type 0) : Type 0 where
  apply_request dry_run_request reconcile_request version_request : SourceChangeSet J → Request J

module _ {W J : Type 0} (contract : Contract J) (ports : Ports W J) where
  -- The state after one request, whether it returned or raised.
  unfoldable pub serve : State W J → Request J → State W J
  serve s (apply_request cs) = (apply contract ports cs s).1
  serve s (dry_run_request cs) = (dry_run contract ports cs s).1
  serve s (reconcile_request cs) = (reconcile contract ports cs s).1
  serve s (version_request cs) = (current_version contract ports cs s).1

  serve-IsGoverned :
      (request : Request J) (s : State W J)
      → IsGoverned contract s.history
      → IsGoverned contract (serve s request).history
  unfolding serve
  serve-IsGoverned (apply_request cs) s h = apply-IsGoverned contract ports cs s h
  serve-IsGoverned (dry_run_request cs) s h =
      (dry_run-Keeps contract ports (On-Stable (IsGoverned-IgnoresQueries contract)) cs).at s h
  serve-IsGoverned (reconcile_request cs) s h =
      (reconcile-Keeps contract ports (On-Stable (IsGoverned-IgnoresQueries contract)) cs
          (λ _ kept. kept)).at
        s h
  serve-IsGoverned (version_request cs) s h =
      (current_version-Keeps contract ports (On-Stable (IsGoverned-IgnoresQueries contract)) cs).at
        s h

  -- Whatever requests a client sends, from a service whose history is governed: every call that
  -- changes the source comes after a read of the base version, two approvals equal to the change
  -- set's authorization, a bound audit reservation, and a clock reading before the expiry, and
  -- after a search that found no prior effect.
  pub serve_all-IsGoverned :
      (requests : List (Request J)) (s : State W J)
      → IsGoverned contract s.history
      → IsGoverned contract (foldl serve s requests).history
  serve_all-IsGoverned [] s h = h
  serve_all-IsGoverned (request ∷ requests) s h =
      serve_all-IsGoverned requests (serve s request) (serve-IsGoverned request s h)
