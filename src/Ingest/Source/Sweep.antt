-- ===== src/Ingest/Source/Sweep.antt =====
-- scion_sdk/ingest/source_budget.py, source_calls.py and `sync` of source_sync.py: the pages of a
-- source within the budget. The fan-out
-- of `for_each` over a parent source is left out.
pub mod Acked
pub mod Budget
pub mod Fuel
pub mod Ties
use agent_connector_sdk.Base.{
  ℕ, zero, suc, ◌+◌, ◌-◌, String, Bool, true, false, not, ◌&&◌, ◌||◌, Option, none, some, List, [],
  ◌∷◌, length, ltb, leb, if◌then◌else◌, Result, ok, err, Action, pure, raise, lift, ◌>>=◌, ◌>>◌,
  require,
}
use agent_connector_sdk.Ingest.Source.{
  Error, not_read_only, pagination_unsupported, deadline_exceeded, record_budget_exceeded,
  checkpoint_conflict, other_error, Checkpoint, Pagination, single, paged, unsupported, Spec,
  SyncBudget, Run, Ports, Sync, Job, flush, take_one, store_checkpoint,
}

module _ {W R : Type 0} (spec : Spec R) (budget : SyncBudget) (max_digests : ℕ)
    (ports : Ports W R) where
  -- The seconds since the run began.
  unfoldable pub elapsed : Job W R ℕ
  elapsed s =
      let (now, w) = ports.clock s.world in (ok (now - s.run.started), record s { world = w })

  -- `_exhausted`, where `or` asks the clock only if the counts leave room.
  unfoldable pub exhausted : Job W R Bool
  unfolding elapsed
  exhausted s =
      if leb budget.max_pages s.run.pages || leb budget.max_records s.run.seen
      then (ok true, s)
      else (elapsed >>= λ seconds. pure (leb budget.max_seconds seconds)) s

  call_result : Sync W R → Result Error (Option (List R)) × W → Result Error (List R) × Sync W R
  call_result s (ok (some records), w) = (ok records, record s { world = w })
  call_result s (ok none, w) = (err deadline_exceeded, record s { world = w })
  call_result s (err e, w) = (err e, record s { world = w })

  call_within : String → ℕ → ℕ → Job W R (List R)
  unfolding call_result
  call_within tool page seconds s =
      if leb budget.max_seconds seconds
      then (err deadline_exceeded, s)
      else call_result s (ports.call_tool tool page (budget.max_seconds - seconds) s.world)

  -- `_budgeted_call`, with the decoded records of the page.
  unfoldable pub budgeted_call : String → ℕ → Job W R (List R)
  unfolding call_within elapsed
  budgeted_call tool page = elapsed >>= call_within tool page

  -- The page is counted, and refused if it has more records than the budget has left.
  unfoldable pub count_page : List R → Job W R (List R)
  count_page records s =
      let s' = record s { run = record s.run { pages = s.run.pages + 1 } } in
      if ltb (budget.max_records - s.run.seen) (length records)
      then (err record_budget_exceeded, s')
      else (ok records, s')

  -- `_source_page`
  unfoldable pub source_page : String → ℕ → Job W R (List R)
  unfolding budgeted_call count_page
  source_page tool page = budgeted_call tool page >>= count_page

  -- `_take_page`
  unfoldable pub take_page : List R → String → Job W R (Unit {0})
  take_page [] tool = pure tt
  take_page (content ∷ records) tool =
      take_one spec budget max_digests ports content tool >> take_page records tool

  is_last_page : Pagination → List R → Bool
  is_last_page paged records = ltb (length records) spec.page_size
  is_last_page _ records = true

  finish : Option String → Bool → Job W R Bool
  finish tool complete = flush spec budget max_digests ports tool >> pure complete

  -- The rest of a round of `_sweep_tool`, whose next round is `rest`.
  after_records : Job W R Bool → String → List R → Job W R Bool
  unfolding finish is_last_page take_page
  after_records rest tool records = take_page records tool >>= λ _.
      if is_last_page spec.pagination records then finish (some tool) true else rest

  unfoldable pub read_round : Job W R Bool → String → ℕ → Bool → Job W R Bool
  unfolding source_page after_records
  read_round rest tool page true = finish none false
  read_round rest tool page false = source_page tool page >>= after_records rest tool

  -- The loop of `_sweep_tool`. Each round that goes on has counted a page, so that rounds as many as
  -- `max_pages` leave only the one that finds the budget used up.
  unfoldable pub sweep_pages : ℕ → String → ℕ → Job W R Bool
  unfolding read_round exhausted
  sweep_pages zero tool page = finish none false
  sweep_pages (suc fuel) tool page =
      exhausted >>= read_round (sweep_pages fuel tool (page + 1)) tool page

  abbrev is_supported : Pagination → Bool
  is_supported unsupported = false
  is_supported _ = true

  -- `_sweep_tool`
  unfoldable pub sweep_tool : String → Job W R Bool
  unfolding sweep_pages
  sweep_tool tool =
      lift (require (is_supported spec.pagination) pagination_unsupported)
      >> sweep_pages budget.max_pages tool spec.start_page

  -- `_sweep` of a source without `for_each`: whether it was completed.
  unfoldable pub sweep : List String → Job W R Bool
  unfolding sweep_tool
  sweep [] = pure true
  sweep (tool ∷ tools) =
      let rest = sweep tools in
      sweep_tool tool >>= λ complete. if complete then rest else pure false

  -- A conflict is raised again; an exception that is no SourceSyncError is not caught at all.
  abbrev is_raised : Error → Bool
  is_raised checkpoint_conflict = true
  is_raised other_error = true
  is_raised _ = false

  abbrev is_budget_error : Error → Bool
  is_budget_error deadline_exceeded = true
  is_budget_error record_budget_exceeded = true
  is_budget_error _ = false

  flush_result :
      (Error → Job W R String) → Result Error (Unit {0}) × Sync W R → Result Error String × Sync W R
  flush_result handle (ok _, s) = (ok "partial", s)
  flush_result handle (err e, s) = handle e s

  -- `_handle_sync_error`: the final state of the run. A flush that fails is handled again, `depth`
  -- times at most.
  unfoldable pub handle_sync_error : ℕ → Error → Job W R String
  unfolding flush_result
  handle_sync_error zero e s = (err e, s)
  handle_sync_error (suc depth) e s =
      let flushed =
        flush_result (handle_sync_error depth) (flush spec budget max_digests ports none s) in
      if is_raised e then (err e, s) else if is_budget_error e then flushed else (ok "failed", s)

  abbrev final_state : Bool → String
  final_state complete = if complete then "completed" else "partial"

  sweep_result : ℕ → Result Error Bool × Sync W R → Result Error String × Sync W R
  unfolding handle_sync_error
  sweep_result depth (ok complete, s) = (ok (final_state complete), s)
  sweep_result depth (err e, s) = handle_sync_error depth e s

  -- The sweep, with the state that its end or its error gives.
  unfoldable pub sweep_outcome : ℕ → Job W R String
  unfolding sweep sweep_result
  sweep_outcome depth s = sweep_result depth (sweep spec.tools s)

  note_state : String → Job W R (Unit {0})
  note_state state s =
      (ok tt, record s { run = record s.run { state = record s.run.state { state = state } } })

  -- `sync` from the loaded checkpoint on.
  unfoldable pub sync_run : ℕ → Job W R String
  unfolding sweep_outcome note_state
  sync_run depth = do
    state ← sweep_outcome depth
    note_state state
    store_checkpoint spec budget max_digests ports
    pure state

  -- The first check of `sync`: every tool is read-only.
  unfoldable pub require_read_only : List String → W → Result Error (Unit {0}) × W
  require_read_only [] w = (ok tt, w)
  require_read_only (tool ∷ tools) w =
      let (answer, w') = ports.tool_is_read_only tool w in
      let rest = require_read_only tools w' in
      elim answer [ err e ↦ (err e, w') | ok true ↦ rest | ok false ↦ (err not_read_only, w') ]

  abbrev reset : Bool → Checkpoint → Checkpoint
  reset is_full state = if is_full then record state { cursor = none; digests = [] } else state

  -- The run that `sync` starts from the loaded checkpoint; what the checkpoint has was accepted.
  unfoldable pub new_sync : Bool → Checkpoint → ℕ → W → Sync W R
  new_sync is_full loaded version w =
      let (now, w') = ports.clock w in
      let state = reset is_full loaded in
      record {
        run = record {
          state = state;
          version = version;
          is_full = is_full;
          started = now;
          pages = 0;
          seen = 0;
          submitted = 0;
          unchanged = 0;
          batches = [];
          pending = [];
          pending_tool = none;
          pending_edges = [];
          cursor = state.cursor;
        };
        world = w';
        accepted = loaded.digests;
        stored = loaded;
      }

  begin : Bool → Result Error (Unit {0}) × W → Result Error (Sync W R) × W
  unfolding new_sync
  begin is_full (err e, w) = (err e, w)
  begin is_full (ok _, w) =
      let (loaded, w') = ports.load w in
      elim loaded [
        | err e ↦ (err e, w')
        | ok (state, version) ↦ (ok (new_sync is_full state version w'), w')
      ]

  run_begun : ℕ → Result Error (Sync W R) × W → Result Error String × W
  unfolding sync_run
  run_begun depth (err e, w) = (err e, w)
  run_begun depth (ok s, w) = let (r, s') = sync_run depth s in (r, s'.world)

  -- `sync`, which gives the final state of the run's report.
  unfoldable pub sync : Bool → ℕ → W → Result Error String × W
  unfolding require_read_only begin run_begun
  sync is_full depth w = run_begun depth (begin is_full (require_read_only spec.tools w))
