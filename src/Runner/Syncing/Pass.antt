-- ===== src/Runner/Syncing/Pass.antt =====
-- The pages of a pass: `commit_page`, `_check_drift`, `_accept_page` and `sync_stream` of
-- scion_sdk/runner/syncing.py, with `_accept_adapter_page` of scion_sdk/ports/page_completion.py.
pub mod Chain
pub mod Completion
use agent_connector_sdk.Base.{
  ℕ, zero, suc, ◌+◌, String, Bool, true, false, not, ◌&&◌, Option, none, some, List, [], ◌∷◌, ◌++◌,
  length, str_eq, if◌then◌else◌, Result, ok, err, Action, pure, raise, lift, require, ◌>>=◌, ◌>>◌,
}
use agent_connector_sdk.Ingest.Source.{is_empty}
use agent_connector_sdk.Runner.Syncing.{
  Error, stages_unavailable, stream_paused, drift_quarantined, receipt_mismatch, Mode, delta,
  same_mode, Classification, compatible, requires_review, breaking, classification, EvolutionPolicy,
  SchemaContract, same_fields, RecordPage, Request, Receipt, StreamDescriptor, SyncTarget,
  SyncOutcome, Ports, Submission, State, Job, source_request, discovered_target,
}

abbrev pub is_compatible : Classification → Bool
is_compatible compatible = true
is_compatible _ = false

module _ {W R L X C : Type 0} (ports : Ports W R L X C) where
  in_world : {A : Type 0} → Action W Error A → Job W R L X C A
  in_world action s = let (r, w) = action s.world in (r, record s { world = w })

  noted : RecordPage R L X C → Job W R L X C (RecordPage R L X C)
  noted page s = (ok page, record s { extracted = page ∷ s.extracted })

  -- `adapter.extract`
  extract_page : Option C → Job W R L X C (RecordPage R L X C)
  unfolding in_world noted
  extract_page checkpoint = in_world (ports.extract checkpoint) >>= noted

  -- `_contract_changes`, by their levels.
  unfoldable pub contract_changes :
      Option SchemaContract → Option SchemaContract → EvolutionPolicy → List Classification
  contract_changes (some prior) (some current) policy =
      ports.changes prior.canonical_schema current.canonical_schema policy
      ++ (if same_fields prior.identifier_fields current.identifier_fields
          then []
          else breaking ∷ [])
  contract_changes _ _ policy = requires_review ∷ []

  -- `classify_schema_drift`
  unfoldable pub drift : RecordPage R L X C → SyncTarget → Classification
  unfolding contract_changes
  drift page target =
      classification
        (contract_changes target.schema_contract page.schema_contract target.evolution_policy)

  -- `_check_drift`
  unfoldable pub check_drift : RecordPage R L X C → SyncTarget → Job W R L X C (Unit {0})
  unfolding drift
  check_drift page target = lift (require (is_compatible (drift page target)) drift_quarantined)

  -- `_receipt_binds_request`
  unfoldable pub receipt_binds_request : Request R L X C → Receipt C → Bool
  receipt_binds_request request receipt =
      str_eq receipt.batch_digest (ports.digest request)
      && (ports.same receipt.accepted_checkpoint request.provider_checkpoint
          && same_mode receipt.mode request.mode)

  submitted : RecordPage R L X C → Request R L X C → Bool → W → State W R L X C → State W R L X C
  submitted page request is_verified w s = record s {
    world = w;
    submissions =
        record { page = page; request = request; is_verified = is_verified } ∷ s.submissions;
  }

  verify :
      RecordPage R L X C
      → Request R L X C
      → Result Error (Receipt C) × W
      → Job W R L X C (Receipt C)
  unfolding submitted receipt_binds_request
  verify page request (err e, w) s = (err e, submitted page request false w s)
  verify page request (ok receipt, w) s =
      if receipt_binds_request request receipt
      then (ok receipt, submitted page request true w s)
      else (err receipt_mismatch, submitted page request false w s)

  submit : RecordPage R L X C → Request R L X C → Job W R L X C (Receipt C)
  unfolding verify
  submit page request s = verify page request (ports.submit request s.world) s

  unfoldable pub commit_page :
      RecordPage R L X C → SyncTarget → Option C → Job W R L X C (Receipt C)
  unfolding check_drift submit
  commit_page page target expected_previous =
      check_drift page target >> submit page (source_request page target expected_previous)

  -- `_is_delta_noop`
  unfoldable pub is_delta_noop : RecordPage R L X C → Option C → Bool
  is_delta_noop page none = false
  is_delta_noop page (some checkpoint) =
      page.exhausted
      && (same_mode page.mode delta
          && ports.same page.checkpoint checkpoint
          && (is_empty page.records && is_empty page.relationships && is_empty page.withdrawals))

  -- `_accept_page`
  unfoldable pub accept_page : RecordPage R L X C → SyncTarget → Option C → Job W R L X C (C × ℕ)
  unfolding is_delta_noop commit_page
  accept_page page target checkpoint =
      if is_delta_noop page checkpoint
      then check_drift page target >> pure (page.checkpoint, 0)
      else (commit_page page target checkpoint >>= λ receipt.
          pure (receipt.accepted_checkpoint, receipt.affected_count))

  finish_page :
      Option (RecordPage R L X C → Bool → Action W Error (Unit {0}))
      → RecordPage R L X C
      → Bool
      → Job W R L X C (Unit {0})
  unfolding in_world
  finish_page none page accepted = pure tt
  finish_page (some finish) page accepted = in_world (finish page accepted)

  finished :
      {A : Type 0}
      → RecordPage R L X C
      → Result Error A × State W R L X C
      → Result Error A × State W R L X C
  unfolding finish_page
  finished page (ok value, s) = (finish_page ports.finish_page page true >> pure value) s
  finished page (err e, s) = (finish_page ports.finish_page page false >> raise e) s

  -- `_accept_adapter_page`
  unfoldable pub accept_adapter_page :
      {A : Type 0} → RecordPage R L X C → Job W R L X C A → Job W R L X C A
  unfolding finished
  accept_adapter_page page accept s = finished page (accept s)

  abbrev outcome : String → ℕ → ℕ → ℕ → Bool → Option C → SyncOutcome C
  outcome stream pages records accepted exhausted checkpoint = record {
    stream = stream;
    pages = pages;
    records = records;
    accepted = accepted;
    exhausted = exhausted;
    checkpoint = checkpoint;
  }

  -- The loop of `sync_stream`, whose rounds are the pages that are left of `max_pages`.
  unfoldable pub sync_pages :
      ℕ → String → SyncTarget → Option C → ℕ → ℕ → ℕ → Job W R L X C (SyncOutcome C)
  unfolding extract_page accept_adapter_page accept_page
  sync_pages zero stream target checkpoint pages records accepted =
      pure (outcome stream pages records accepted false checkpoint)
  sync_pages (suc left) stream target checkpoint pages records accepted =
      extract_page checkpoint >>= λ page.
      accept_adapter_page page (accept_page page target checkpoint) >>= λ (next, newly).
      let rest =
        sync_pages left stream target (some next) (pages + 1) (records + length page.records)
          (accepted + newly) in
      if page.exhausted
      then pure (
          outcome stream (pages + 1) (records + length page.records) (accepted + newly) true
            (some next))
      else rest

  is_paused : Option (String → String → Action W Error Bool) → String → String → Job W R L X C Bool
  unfolding in_world
  is_paused none connector stream = pure false
  is_paused (some paused) connector stream = in_world (paused connector stream)

  unfoldable pub sync_stream : SyncTarget → Job W R L X C (SyncOutcome C)
  unfolding in_world is_paused sync_pages
  sync_stream target = do
    lift (require (not target.has_stages) stages_unavailable)
    descriptor ← in_world ports.discover
    stopped ← is_paused ports.paused target.connector descriptor.stream
    lift (require (not stopped) stream_paused)
    checkpoint ← in_world (ports.source_status target.connector descriptor.stream)
    sync_pages target.max_pages descriptor.stream (discovered_target target descriptor) checkpoint 0
        0 0
