-- ===== src/Runner/Syncing.antt =====
-- scion_sdk/runner/syncing.py, _page_checks.py, scion_sdk/ports/page_completion.py and the
-- classification of scion_sdk/schema_drift.py: one pass over a stream. `W` is the world of the ports,
-- `R`, `L` and `X` are the types of records, relationships and withdrawals, and `C` is the engine's
-- SourceCheckpoint, with its equality as a parameter.
pub mod Pass
use agent_connector_sdk.Base.{
  ℕ, zero, suc, ◌+◌, String, Bool, true, false, not, ◌&&◌, ◌||◌, Option, none, some, List, [], ◌∷◌,
  ◌++◌, length, str_eq, if◌then◌else◌, Result, ok, err, Action, pure, raise, lift, require, ◌>>=◌,
  ◌>>◌,
}
use agent_connector_sdk.Ingest.Source.{is_empty}

pub data Error : Type 0 where
  stages_unavailable stream_paused drift_quarantined receipt_mismatch port_error : Error

pub data Mode : Type 0 where
  delta full reconcile : Mode

pub data Classification : Type 0 where
  compatible requires_review breaking : Classification

pub data EvolutionPolicy : Type 0 where
  review optional_fields : EvolutionPolicy

pub record SchemaContract : Type 0 where
  pub canonical_schema : String
  pub identifier_fields : List String

-- `live_ids` are the authoritative references, as texts.
pub record RecordPage (R L X C : Type 0) : Type 0 where
  pub mode : Mode
  pub strict_schema : Bool
  pub records : List R
  pub relationships : List L
  pub withdrawals : List X
  pub checkpoint : C
  pub live_ids : Option (List String)
  pub exhausted : Bool
  pub schema_contract : Option SchemaContract

-- `SourceIngestionRequest`
pub record Request (R L X C : Type 0) : Type 0 where
  pub connector : String
  pub mode : Mode
  pub strict_schema : Bool
  pub records : List R
  pub relationships : List L
  pub withdrawals : List X
  pub provider_checkpoint : C
  pub expected_previous : Option C
  pub live_ids : Option (List String)
  pub empty_approval : Option String

-- `SourceIngestionReceipt`
pub record Receipt (C : Type 0) : Type 0 where
  pub batch_digest : String
  pub accepted_checkpoint : C
  pub mode : Mode
  pub affected_count : ℕ

pub record StreamDescriptor : Type 0 where
  pub stream : String
  pub schema_contract : Option SchemaContract
  pub evolution_policy : EvolutionPolicy

-- `SyncTarget`, its sink and stores aside.
pub record SyncTarget : Type 0 where
  pub connector : String
  pub max_pages : ℕ
  pub empty_approval : Option String
  pub schema_contract : Option SchemaContract
  pub evolution_policy : EvolutionPolicy
  pub has_stages : Bool

pub record SyncOutcome (C : Type 0) : Type 0 where
  pub stream : String
  pub pages : ℕ
  pub records : ℕ
  pub accepted : ℕ
  pub exhausted : Bool
  pub checkpoint : Option C

-- The adapter, the sink and the store of repair proposals. `digest` and `same` are the digest of a
-- request and the equality of checkpoints; `changes` are the levels of the changes between two
-- schemas, which schema_drift.py finds.
pub record Ports (W R L X C : Type 0) : Type 0 where
  pub digest : Request R L X C → String
  pub same : C → C → Bool
  pub changes : String → String → EvolutionPolicy → List Classification
  pub discover : Action W Error StreamDescriptor
  pub paused : Option (String → String → Action W Error Bool)
  pub source_status : String → String → Action W Error (Option C)
  pub extract : Option C → Action W Error (RecordPage R L X C)
  pub submit : Request R L X C → Action W Error (Receipt C)
  pub finish_page : Option (RecordPage R L X C → Bool → Action W Error (Unit {0}))

-- A request that was submitted, with the page that it was made of and whether its receipt was
-- verified.
pub record Submission (R L X C : Type 0) : Type 0 where
  pub page : RecordPage R L X C
  pub request : Request R L X C
  pub is_verified : Bool

-- The submissions and the extracted pages so far, the newest first; the code keeps neither.
pub record State (W R L X C : Type 0) : Type 0 where
  pub world : W
  pub submissions : List (Submission R L X C)
  pub extracted : List (RecordPage R L X C)

abbrev pub Job : Type 0 → Type 0 → Type 0 → Type 0 → Type 0 → Type 0 → Type 0
Job W R L X C A = Action (State W R L X C) Error A

abbrev pub same_mode : Mode → Mode → Bool
same_mode delta delta = true
same_mode full full = true
same_mode reconcile reconcile = true
same_mode _ _ = false

-- `_classification`: the worst level of the changes.
abbrev pub worst : Classification → Classification → Classification
worst breaking _ = breaking
worst requires_review breaking = breaking
worst requires_review _ = requires_review
worst compatible level = level

unfoldable pub classification : List Classification → Classification
classification [] = compatible
classification (level ∷ levels) = worst level (classification levels)

abbrev same_fields : List String → List String → Bool
same_fields [] [] = true
same_fields (x ∷ xs) (y ∷ ys) = str_eq x y && same_fields xs ys
same_fields _ _ = false

abbrev is_nothing_live : Option (List String) → Bool
is_nothing_live none = false
is_nothing_live (some ids) = is_empty ids

-- `_empty_approval`
unfoldable pub empty_approval : {R L X C : Type 0} → RecordPage R L X C → SyncTarget → Option String
empty_approval page target =
    let empty_full = same_mode page.mode full && is_empty page.records in
    let empty_reconcile =
      same_mode page.mode reconcile && (is_empty page.records && is_nothing_live page.live_ids) in
    if empty_full || empty_reconcile then target.empty_approval else none

-- `_source_request`
unfoldable pub source_request :
    {R L X C : Type 0} → RecordPage R L X C → SyncTarget → Option C → Request R L X C
unfolding empty_approval
source_request page target expected_previous = record {
  connector = target.connector;
  mode = page.mode;
  strict_schema = page.strict_schema;
  records = page.records;
  relationships = page.relationships;
  withdrawals = page.withdrawals;
  provider_checkpoint = page.checkpoint;
  expected_previous = expected_previous;
  live_ids = page.live_ids;
  empty_approval = empty_approval page target;
}

-- `_discovered_target`
abbrev pub discovered_target : SyncTarget → StreamDescriptor → SyncTarget
discovered_target target descriptor = elim target.schema_contract [
  | some contract ↦ target
  | none ↦ record target {
    schema_contract = descriptor.schema_contract;
    evolution_policy = descriptor.evolution_policy;
  }
]
