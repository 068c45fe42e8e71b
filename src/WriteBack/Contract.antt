-- ===== src/WriteBack/Contract.antt =====
-- The records that write-back exchanges: scion_sdk/writeback/models.py, errors.py, the reservation
-- of scion_sdk/ports/audit_reservation.py, and the fields that the SDK reads of the records that
-- the package `epistemic_graph` generates. `J` is the type of JSON values.
use agent_connector_sdk.Base.{ℕ, String, ◌≡◌, ◌↔◌, Bool, true, Option, List}
use agent_connector_sdk.Base.Dict.{Dict}

-- WriteBackAuthorizationDecision; `claims` holds the fields that are only compared.
pub record Decision (J : Type 0) : Type 0 where
  pub authorized : Bool
  pub input_digest : String
  pub output_digest : String
  pub claims : J

pub record SourceChangeSet (J : Type 0) : Type 0 where
  pub tenant_id : String
  pub change_set_id : String
  pub change_set_digest : String
  pub idempotency_key : String
  pub connector_id : String
  pub entity_id : String
  pub base_source_version : String
  pub policy_digest : String
  pub expires_at_ms : ℕ
  pub field_scope : List String
  pub desired_patch : Dict J
  pub field_provenance : Dict J
  pub authorization : Decision J

pub data Kind : Type 0 where
  apply dry_run : Kind

pub data Outcome : Type 0 where
  applied outcome_uncertain other : Outcome

pub data EffectStatus : Type 0 where
  applied no_effect outcome_uncertain : EffectStatus

pub record WriteBackAttempt : Type 0 where
  pub tenant_id : String
  pub change_set_id : String
  pub change_set_digest : String
  pub idempotency_key : String
  pub kind : Kind
  pub input_digest : String
  pub output_digest : String
  pub pre_source_version : String
  pub post_source_version : String
  pub applied_field_digest : String
  pub outcome : Outcome
  pub effect_status : EffectStatus
  pub connector_observation_digest : String
  pub provenance_digest : String

pub record ReconciliationObservation : Type 0 where
  pub tenant_id : String
  pub change_set_id : String
  pub change_set_digest : String
  pub idempotency_key : String
  pub observed_source_version : String
  pub effect_status : EffectStatus
  pub retry_allowed : Bool
  pub evidence_digest : String
  pub connector_observation_digest : String
  pub provenance_digest : String

pub record SourceSnapshot (J : Type 0) : Type 0 where
  pub source_version : String
  pub fields : Dict J
  pub observation : Dict J

pub record DryRunObservation (J : Type 0) : Type 0 where
  pub change_set_digest : String
  pub source_version : String
  pub desired_patch_digest : String
  pub changed_fields : List String
  pub before : Dict J
  pub after : Dict J

pub record AuditReservation : Type 0 where
  pub reservation_id : String
  pub effect_key : String
  pub change_set_digest : String

-- The error classes, without their fixed messages; `port_error` is any other exception.
pub data Error : Type 0 where
  validation : Error
  audit_unavailable : Error
  expired : Error
  denied : Error
  version_conflict : Error
  idempotency_conflict : Error
  uncertain : Error
  reconciliation_required : Error
  persistence : Error
  wallet_refused : String → Error
  in_flight : Error
  missing_entity : Error
  port_error : Error

-- The code outside the repository that write-back calls: the digests and the equality of the
-- generated records, `json.dumps` and `hashlib`. Equality is that of the compared values.
pub record Contract (J : Type 0) : Type 0 where
  pub canonical_digest : SourceChangeSet J → String
  pub patch_digest : SourceChangeSet J → String
  pub decision_eq : Decision J → Decision J → Bool
  pub decision_eq_iff : (a b : Decision J) → (decision_eq a b ≡ true) ↔ (a ≡ b)
  pub change_set_eq : SourceChangeSet J → SourceChangeSet J → Bool
  pub change_set_eq_iff : (a b : SourceChangeSet J) → (change_set_eq a b ≡ true) ↔ (a ≡ b)
  pub json_eq : J → J → Bool
  pub json_null : J
  pub json_text : String → J
  pub json_object : Dict J → J
  pub dumps : J → String
  -- `json.dumps` with `allow_nan=False`, which raises at some values.
  pub encode : J → Option String
  pub sha256_hex : String → String
  -- `not text.strip()`
  pub is_blank : String → Bool
