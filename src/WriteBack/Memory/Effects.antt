-- ===== src/WriteBack/Memory/Effects.antt =====
-- An effect of the in-memory transport is made once, is found again, and is told truly by a
-- reconciliation after its acknowledgement was lost.
use Prim.Native.String.{◌++◌ as concat, count}
use text.Mathlib.TextLemmas.{length-append}
use text.Mathlib.TextPositions.{eq_refl}
use agent_connector_sdk.Base.{
  ◌+◌, String, ◌≡◌, refl, ap, true, false, none, some, arith, str_eq, eq_iff, Bool-cases, inl, inr,
  ok, err, ◌>>=◌,
}
use agent_connector_sdk.Base.Dict.{Dict, get, insert, remove, get-insert, get-remove}
use agent_connector_sdk.WriteBack.Contract.{
  SourceChangeSet, SourceSnapshot, WriteBackAttempt, EffectStatus, uncertain, version_conflict,
  Contract,
}
use agent_connector_sdk.WriteBack.Validation.{effect_matches}
use agent_connector_sdk.WriteBack.Common.{
  digest, snapshot_json, applied_attempt, reconciliation_observation,
}
use agent_connector_sdk.WriteBack.Common.Bound.{
  effect_matches-applied_attempt, check_prior_effect-applied_attempt,
}
use agent_connector_sdk.WriteBack.Memory.{
  FixtureUncertainty, before_effect, after_effect, unresolved, Memory, committed, commit, apply,
  prior_effect, reconcile, reconcile_under, recorded_status,
}

-- A committed version is not the one that was expected.
pub next_version_differs : (version : String) → str_eq (concat version "+1") version ≡ false
next_version_differs version = elim (Bool-cases (str_eq (concat version "+1") version)) [
  | inl same ↦ absurd (omega (arith, ap count ((eq_iff _ _).0 same), length-append version "+1"))
  | inr differs ↦ differs
]

pub get-insert_self : {V : Type 0} (k : String) (v : V) (d : Dict V) → get k (insert k v d) ≡ some v
get-insert_self k v d = rw (get-insert, eq_refl)

module _ {J : Type 0} (contract : Contract J) (cs : SourceChangeSet J) (m : Memory J)
    (current : SourceSnapshot J) (found : get cs.entity_id m.entities ≡ some current) where
  abbrev pub new_snapshot : SourceSnapshot J
  new_snapshot = committed contract cs current

  abbrev pub new_attempt : WriteBackAttempt
  new_attempt =
      applied_attempt contract cs current.source_version (concat current.source_version "+1")
        (digest contract (snapshot_json contract new_snapshot))

  abbrev new_memory : Memory J
  new_memory = record m {
    entities = insert cs.entity_id new_snapshot m.entities;
    effects = insert cs.idempotency_key new_attempt m.effects;
    attempts = m.attempts + 1;
  }

  apply_lem :
      get cs.idempotency_key m.uncertainty ≡ none
      → apply contract cs current.source_version m ≡ (ok new_attempt, new_memory)
  unfolding apply commit committed ◌>>=◌
  apply_lem quiet = rw (quiet, found, eq_refl)

  prior_effect-new_memory : (prior_effect contract cs new_memory).0 ≡ ok (some new_attempt)
  unfolding prior_effect
  prior_effect-new_memory = rw (
    get-insert_self cs.idempotency_key new_attempt m.effects,
    prior_effect,
    check_prior_effect-applied_attempt contract cs current.source_version
        (concat current.source_version "+1")
        (digest contract (snapshot_json contract new_snapshot)),
  )

  apply-new_memory :
      get cs.idempotency_key m.uncertainty ≡ none
      → (apply contract cs current.source_version new_memory).0 ≡ err version_conflict
  unfolding apply committed ◌>>=◌
  apply-new_memory quiet = rw (
    quiet,
    get-insert_self cs.entity_id new_snapshot m.entities,
    next_version_differs current.source_version,
  )

  -- Where no loss of the acknowledgement was injected, `apply` at the current version returns an
  -- attempt that is bound to the change set, commits the patched snapshot, and records the attempt
  -- so that a search for a prior effect returns it; a second `apply` that expects the old version
  -- is a version conflict.
  pub apply_once :
      get cs.idempotency_key m.uncertainty ≡ none
      → let (r, m') = apply contract cs current.source_version m in
        (r ≡ ok new_attempt)
        × (effect_matches contract cs new_attempt ≡ true)
        × (get cs.entity_id m'.entities ≡ some new_snapshot)
        × ((prior_effect contract cs m').0 ≡ ok (some new_attempt))
        × ((apply contract cs current.source_version m').0 ≡ err version_conflict)
  apply_once quiet = rw (apply_lem quiet) (
    refl,
    effect_matches-applied_attempt contract cs _ _ _,
    get-insert_self cs.entity_id new_snapshot m.entities,
    prior_effect-new_memory,
    apply-new_memory quiet,
  )

  reconcile-lost_after :
      (reconcile contract cs
        (record new_memory { uncertainty = remove cs.idempotency_key m.uncertainty })).0
      ≡ ok (reconciliation_observation contract cs new_snapshot EffectStatus.applied)
  unfolding reconcile committed applied_attempt ◌>>=◌
  reconcile-lost_after = rw (
    get-remove cs.idempotency_key cs.idempotency_key m.uncertainty,
    reconcile_under,
    eq_refl,
    get-insert_self cs.idempotency_key new_attempt m.effects,
    recorded_status,
    eq_refl,
    get-insert_self cs.entity_id new_snapshot m.entities,
  )

  -- The status that a reconciliation should find after the acknowledgement was lost.
  abbrev pub lost_status : FixtureUncertainty → EffectStatus
  lost_status before_effect = EffectStatus.no_effect
  lost_status after_effect = EffectStatus.applied
  lost_status unresolved = EffectStatus.outcome_uncertain

  abbrev pub lost_snapshot : FixtureUncertainty → SourceSnapshot J
  lost_snapshot after_effect = new_snapshot
  lost_snapshot _ = current

  -- After `apply` lost its acknowledgement the source holds the patched snapshot exactly where the
  -- loss came after the effect, and `reconcile` returns the observation of that snapshot with the
  -- status to match: no effect before it, applied after it, uncertain as long as it is unresolved.
  pub reconcile-apply_lost :
      (outcome : FixtureUncertainty)
      → get cs.idempotency_key m.uncertainty ≡ some outcome
      → get cs.idempotency_key m.effects ≡ none
      → let (r, m') = apply contract cs current.source_version m in
        (r ≡ err uncertain)
        × (get cs.entity_id m'.entities ≡ some (lost_snapshot outcome))
        × ((reconcile contract cs m').0
            ≡ ok (
                reconciliation_observation contract cs
                  (lost_snapshot outcome)
                  (lost_status outcome)))
  unfolding apply reconcile commit committed ◌>>=◌
  reconcile-apply_lost before_effect lost fresh = rw lost (
    refl,
    found,
    rw (
      get-remove cs.idempotency_key cs.idempotency_key m.uncertainty,
      reconcile_under,
      eq_refl,
      fresh,
      found,
    ),
  )
  reconcile-apply_lost after_effect lost fresh =
      rw (lost, found, eq_refl)
        (refl, get-insert_self cs.entity_id new_snapshot m.entities, reconcile-lost_after)
  reconcile-apply_lost unresolved lost fresh = rw lost (refl, found, rw (lost, found))
