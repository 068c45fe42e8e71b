-- ===== src/Ingest/Source/Tests.antt =====
-- The witnesses of the properties of source runs, at a source of one record in each page.
use agent_connector_sdk.Base.{
  ℕ, ◌+◌, String, ◌≡◌, refl, true, false, none, some, [], ◌∷◌, ok, ◌>>=◌, arith,
}
use agent_connector_sdk.Ingest.Source.{
  Checkpoint, paged, Spec, SyncBudget, Run, Ports, Sync, flush, submit_pending, submit_records,
  submit_result, commit_batch, committed, store_checkpoint, store_result, take_record,
}
use agent_connector_sdk.Ingest.Source.Sweep.{sync_run, new_sync, sweep_pages}
use agent_connector_sdk.Ingest.Source.Sweep.Acked.{IsAcked, sync_run-IsAcked}
use agent_connector_sdk.Ingest.Source.Sweep.Budget.{IsWithin, sync_run-IsWithin}
use agent_connector_sdk.Ingest.Source.Sweep.Fuel.{sweep_pages_fuel}
use agent_connector_sdk.Ingest.Source.Sweep.Ties.{flush_skips_ties}

abbrev spec : Spec String
spec = record {
  source_id = "issues";
  incremental = true;
  tools = "list_issues" ∷ [];
  pagination = paged;
  start_page = 1;
  page_size = 1;
  identifier = λ text. some text;
  cursor_of = λ text. some "2024-05-01";
  digest_of = λ text. text;
  targets_of = λ text. [];
}

abbrev budget : SyncBudget
budget = record { max_pages = 2; max_records = 5; batch_size = 1; max_seconds = 60 }

abbrev fresh : Checkpoint
fresh = record { cursor = none; digests = []; state = "new"; records = 0 }

-- The world counts the calls.
abbrev ports : Ports ℕ String
ports = record {
  clock = λ calls. (0, calls);
  tool_is_read_only = λ tool calls. (ok true, calls + 1);
  load = λ calls. (ok (fresh, 0), calls + 1);
  call_tool = λ tool page remaining calls. (ok (some ("a" ∷ [])), calls + 1);
  submit = λ tool records cursor calls. (ok "batch", calls + 1);
  store = λ state version calls. (ok (version + 1), calls + 1);
}

abbrev run : Run String
run = record {
  state = fresh;
  version = 0;
  is_full = false;
  started = 0;
  pages = 0;
  seen = 1;
  submitted = 0;
  unchanged = 0;
  batches = [];
  pending = (record { id = "a"; updated_at = some "2024-05-01"; content = "a" }, "a") ∷ [];
  pending_tool = some "list_issues";
  pending_edges = [];
  cursor = some "2024-05-01";
}

abbrev begun : Sync ℕ String
begun = record { run = run; world = 0; accepted = []; stored = fresh }

sync_run-IsAcked_example :
    IsAcked spec budget 100 ports
      (sync_run spec budget 100 ports 2 (new_sync spec budget 100 ports false fresh 0 0)).1
sync_run-IsAcked_example = sync_run-IsAcked spec budget 100 ports 2 false fresh 0 0

sync_run-IsWithin_example :
    IsWithin budget 0 0 0
      (sync_run spec budget 100 ports 2 (new_sync spec budget 100 ports false fresh 0 0)).1
sync_run-IsWithin_example = sync_run-IsWithin spec budget 100 ports 2 false fresh 0 0

sweep_pages_fuel_example :
    sweep_pages spec budget 100 ports 3 "list_issues" 1 begun
    ≡ sweep_pages spec budget 100 ports 2 "list_issues" 1 begun
sweep_pages_fuel_example =
    sweep_pages_fuel spec budget 100 ports 2 "list_issues" 1 begun (omega arith)

abbrev flushed : Sync ℕ String
unfolding flush
flushed = (flush spec budget 100 ports none begun).1

flush_skips_ties_example :
    take_record spec budget 100 ports "b" "b" "list_issues" flushed
    ≡ (ok tt, record flushed { run = record flushed.run { unchanged = flushed.run.unchanged + 1 } })
unfolding flush submit_pending submit_records submit_result commit_batch committed store_checkpoint
    store_result flushed ◌>>=◌
flush_skips_ties_example =
    flush_skips_ties spec budget 100 ports none begun flushed "b" "list_issues" "b" refl refl refl
      refl refl
