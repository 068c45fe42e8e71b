-- ===== src/WriteBack/Ports.antt =====
-- The ports of governed write-back (scion_sdk/ports/writeback_transport.py,
-- authorization_verifier.py, audit_reservation.py) over a world `W` that they read and change, and
-- the history that the service leaves: one event for each call of a port, with its answer.
use agent_connector_sdk.Base.{ℕ, String, Bool, Option, List, ◌∷◌, Result, Action}
use agent_connector_sdk.Base.Dict.{Dict}
use agent_connector_sdk.WriteBack.Contract.{
  Decision, SourceChangeSet, WriteBackAttempt, ReconciliationObservation, SourceSnapshot,
  DryRunObservation, AuditReservation, Error,
}

-- WalletProofResult, with the two fields that the service reads.
pub record WalletProofResult : Type 0 where
  pub is_verified : Bool
  pub reason : String

-- A call of a port: it may raise, and the world may have changed all the same.
abbrev pub Call : Type 0 → Type 0 → Type 0
Call W A = W → Result Error A × W

pub record Ports (W J : Type 0) : Type 0 where
  pub clock_ms : W → ℕ × W
  pub verify : SourceChangeSet J → Call W (Decision J)
  -- `none` where no proof gate is configured; the gate answers `none` for another type of result.
  pub proof_gate : Option (SourceChangeSet J → Call W (Option WalletProofResult))
  pub reserve : SourceChangeSet J → Call W (Option AuditReservation)
  pub read_current : SourceChangeSet J → Call W (SourceSnapshot J)
  pub preview : SourceChangeSet J → SourceSnapshot J → Call W (DryRunObservation J)
  pub prior_effect : SourceChangeSet J → Call W (Option WriteBackAttempt)
  pub apply : SourceChangeSet J → String → Call W WriteBackAttempt
  pub reconcile : SourceChangeSet J → Call W ReconciliationObservation
  -- `some` where the transport has the optional protocol.
  pub prepare_writeback : Option (SourceChangeSet J → Call W (Unit {0}))
  pub apply_reserved :
      Option (SourceChangeSet J → String → AuditReservation → Call W WriteBackAttempt)

pub data Event (J : Type 0) : Type 0 where
  clock_read : ℕ → Event J
  verified : SourceChangeSet J → Result Error (Decision J) → Event J
  proved : SourceChangeSet J → Result Error (Option WalletProofResult) → Event J
  reserved : SourceChangeSet J → Result Error (Option AuditReservation) → Event J
  read : SourceChangeSet J → Result Error (SourceSnapshot J) → Event J
  previewed : SourceChangeSet J → Result Error (DryRunObservation J) → Event J
  prior : SourceChangeSet J → Result Error (Option WriteBackAttempt) → Event J
  prepared : SourceChangeSet J → Result Error (Unit {0}) → Event J
  -- The one call that changes the source: with the expected version and the reservation.
  effect : SourceChangeSet J → String → AuditReservation → Result Error WriteBackAttempt → Event J
  reconciled : SourceChangeSet J → Result Error ReconciliationObservation → Event J

-- The service's `_unresolved`, the world, and the history with the newest event first.
pub record State (W J : Type 0) : Type 0 where
  pub unresolved : Dict String
  pub world : W
  pub history : List (Event J)

abbrev pub Run : Type 0 → Type 0 → Type 0 → Type 0
Run W J A = Action (State W J) Error A

module _ {W J A : Type 0} where
  -- Make the call and note it.
  unfoldable pub query : Call W A → (Result Error A → Event J) → Run W J A
  query call event s =
      let (r, w) = call s.world in (r, record s { world = w; history = event r ∷ s.history })
