-- ===== src/WriteBack/FileTransport/Writes.antt =====
-- What the two writes of `apply` leave, and what the first of them leaves alone.
use agent_connector_sdk.Base.{◌∷◌, ◌≡◌, refl, true, none, some, ok, err, ◌>>=◌}
use agent_connector_sdk.Base.Dict.{get}
use text.Mathlib.TextPositions.{eq_refl}
use agent_connector_sdk.WriteBack.Contract.{
  SourceChangeSet, EffectStatus, SourceSnapshot, version_conflict, Contract,
}
use agent_connector_sdk.WriteBack.Validation.{effect_matches}
use agent_connector_sdk.WriteBack.Common.{reconciliation_observation}
use agent_connector_sdk.WriteBack.Common.Bound.{
  effect_matches-applied_attempt, check_prior_effect-applied_attempt,
}
use agent_connector_sdk.WriteBack.Memory.Effects.{next_version_differs, get-insert_self}
use agent_connector_sdk.WriteBack.FileTransport.{
  Disk, Files, reopened, stored, seed, record_effect, next_version, patched, attempt_of, apply,
  prior_effect, reconcile,
}

module _ {J : Type 0} (contract : Contract J) (cs : SourceChangeSet J) (f : Files J)
    (current : SourceSnapshot J) (found : get cs.entity_id f.disk.entities ≡ some current) where
  abbrev pub after_patch : SourceSnapshot J
  after_patch = stored (next_version contract current) (patched contract cs current)

  abbrev interrupted : Files J
  interrupted =
      (seed cs.entity_id (next_version contract current) (patched contract cs current) f).1

  abbrev completed : Files J
  completed = (record_effect cs.idempotency_key (attempt_of contract cs current) interrupted).1

  apply_lem :
      apply contract cs current.source_version f ≡ (ok (attempt_of contract cs current), completed)
  unfolding apply record_effect seed ◌>>=◌
  apply_lem = rw (found, eq_refl) refl

  prior_effect-completed :
      (prior_effect contract cs completed).0 ≡ ok (some (attempt_of contract cs current))
  unfolding prior_effect record_effect seed attempt_of
  prior_effect-completed =
      rw
        (
          get-insert_self cs.idempotency_key (attempt_of contract cs current) f.disk.effects,
          prior_effect,
          check_prior_effect-applied_attempt contract cs _ _ _,
        )
        refl

  reconcile-completed :
      (reconcile contract cs completed).0
      ≡ ok (reconciliation_observation contract cs after_patch EffectStatus.applied)
  unfolding reconcile record_effect seed ◌>>=◌
  reconcile-completed =
      rw
        (
          get-insert_self cs.entity_id after_patch f.disk.entities,
          get-insert_self cs.idempotency_key (attempt_of contract cs current) f.disk.effects,
        )
        refl

  apply-completed : (apply contract cs current.source_version completed).0 ≡ err version_conflict
  unfolding apply record_effect seed ◌>>=◌
  apply-completed =
      rw
        (
          get-insert_self cs.entity_id after_patch f.disk.entities,
          next_version_differs current.source_version,
        )
        refl

  -- `apply` at the current version returns an attempt that is bound to the change set. Then a search
  -- for a prior effect returns it, `reconcile` observes the patched entity with an applied effect,
  -- and a second `apply` that expects the old version is a version conflict.
  pub apply_completes :
      let (r, f') = apply contract cs current.source_version f in
      (r ≡ ok (attempt_of contract cs current))
      × (effect_matches contract cs (attempt_of contract cs current) ≡ true)
      × ((prior_effect contract cs f').0 ≡ ok (some (attempt_of contract cs current)))
      × ((reconcile contract cs f').0
          ≡ ok (reconciliation_observation contract cs after_patch EffectStatus.applied))
      × ((apply contract cs current.source_version f').0 ≡ err version_conflict)
  unfolding attempt_of
  apply_completes = rw apply_lem (
    refl,
    effect_matches-applied_attempt contract cs _ _ _,
    prior_effect-completed,
    reconcile-completed,
    apply-completed,
  )

  -- A first `apply` at the current version writes twice. If the process stops after the first write,
  -- then the files that it leaves have the patch and no effect: when they are opened again,
  -- `reconcile` observes the patched entity, and reports that there was no effect.
  pub reconcile-interrupted :
      get cs.idempotency_key f.disk.effects ≡ none
      → let (_, f') = apply contract cs current.source_version f in
        (between : Disk J) × (f'.earlier ≡ between ∷ f.disk ∷ f.earlier)
        × (get cs.entity_id between.entities ≡ some after_patch)
        × ((reconcile contract cs (reopened between)).0
            ≡ ok (reconciliation_observation contract cs after_patch EffectStatus.no_effect))
  unfolding reconcile seed record_effect ◌>>=◌
  reconcile-interrupted fresh = rw apply_lem (
    interrupted.disk,
    refl,
    get-insert_self cs.entity_id after_patch f.disk.entities,
    rw (get-insert_self cs.entity_id after_patch f.disk.entities, fresh) refl,
  )
