-- ===== src/WriteBack/Common/Bound.antt =====
-- The records of the reference transports pass the binding checks of the service.
use agent_connector_sdk.Base.{String, ◌≡◌, true, ok}
use agent_connector_sdk.WriteBack.Contract.{SourceChangeSet, SourceSnapshot, EffectStatus, Contract}
use agent_connector_sdk.WriteBack.Validation.{effect_matches, require_reconciliation}
use agent_connector_sdk.WriteBack.Common.{
  applied_attempt, check_prior_effect, reconciliation_observation,
}
use text.Mathlib.TextPositions.{eq_refl}

module _ {J : Type 0} (contract : Contract J) (cs : SourceChangeSet J) where
  pub effect_matches-applied_attempt :
      (pre post observed : String)
      → effect_matches contract cs (applied_attempt contract cs pre post observed) ≡ true
  unfolding effect_matches applied_attempt
  effect_matches-applied_attempt pre post observed = simp eq_refl

  pub check_prior_effect-applied_attempt :
      (pre post observed : String)
      → let attempt = applied_attempt contract cs pre post observed in
        check_prior_effect contract attempt cs ≡ ok attempt
  unfolding check_prior_effect applied_attempt
  check_prior_effect-applied_attempt pre post observed = simp eq_refl

  pub require_reconciliation-observation :
      (current : SourceSnapshot J) (status : EffectStatus)
      → require_reconciliation cs (reconciliation_observation contract cs current status) ≡ ok tt
  unfolding require_reconciliation reconciliation_observation
  require_reconciliation-observation current EffectStatus.applied = simp eq_refl
  require_reconciliation-observation current _ = simp eq_refl
