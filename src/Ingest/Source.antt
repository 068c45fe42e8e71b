-- ===== src/Ingest/Source.antt =====
-- scion_sdk/ingest: the runner of declared sources. This file has the state of a run and its
-- batches (_sync_run.py, _sync_models.py, source_budget_util.py and `_take` and `_flush` of
-- source_sync.py); Source/Sweep has the pages and `sync`.
pub mod Handed
pub mod Marks
pub mod Sweep
mod Tests
use Prim.Native.String.{compare}
use Prim.Native.Nat.{Ordering}
use agent_connector_sdk.Base.{
  ℕ, suc, ◌+◌, ◌-◌, String, Bool, true, false, not, ◌&&◌, Option, none, some, List, [], ◌∷◌, ◌++◌,
  length, drop, ltb, leb, str_eq, if◌then◌else◌, Result, ok, err, Action, pure, raise, ◌>>=◌, ◌>>◌,
}
use agent_connector_sdk.Base.Dict.{Dict, get, has, insert, update}

-- `SourceSyncError` by its reason; `other_error` is any other exception.
pub data Error : Type 0 where
  not_read_only pagination_unsupported deadline_exceeded record_budget_exceeded : Error
  ingest_refused checkpoint_conflict tool_failed malformed_result other_error : Error

-- `SourceCheckpointState`, without the last report.
pub record Checkpoint : Type 0 where
  pub cursor : Option String
  pub digests : Dict String
  pub state : String
  pub records : ℕ

pub data Pagination : Type 0 where
  single paged unsupported : Pagination

-- `IngestSourceSpec` with the readings of a record that _sync_records.py makes by it: the usable
-- identifier, the cursor value, the digest and the target records of its edges.
pub record Spec (R : Type 0) : Type 0 where
  pub source_id : String
  pub incremental : Bool
  pub tools : List String
  pub pagination : Pagination
  pub start_page : ℕ
  pub page_size : ℕ
  pub identifier : R → Option String
  pub cursor_of : R → Option String
  pub digest_of : R → String
  pub targets_of : R → List (Option (String × R))

pub record SyncBudget : Type 0 where
  pub max_pages : ℕ
  pub max_records : ℕ
  pub batch_size : ℕ
  pub max_seconds : ℕ

-- `content` is the record, of which the code keeps the properties.
pub record Entity (R : Type 0) : Type 0 where
  pub id : String
  pub updated_at : Option String
  pub content : R

-- `_Run`
pub record Run (R : Type 0) : Type 0 where
  pub state : Checkpoint
  pub version : ℕ
  pub is_full : Bool
  pub started : ℕ
  pub pages : ℕ
  pub seen : ℕ
  pub submitted : ℕ
  pub unchanged : ℕ
  pub batches : List String
  pub pending : List (Entity R × String)
  pub pending_tool : Option String
  pub pending_edges : List (Option (String × R))
  pub cursor : Option String

-- What `submit` of the ingest service raises: a refusal (an IngestError that is no SourceSyncError),
-- or an error that passes.
pub data SubmitFailure : Type 0 where
  source_error : Error → SubmitFailure
  refused : SubmitFailure

-- The session, the ingest service, the checkpoint store and the clock, which read and change `W`.
pub record Ports (W R : Type 0) : Type 0 where
  pub clock : W → ℕ × W
  pub tool_is_read_only : String → W → Result Error Bool × W
  pub load : W → Result Error (Checkpoint × ℕ) × W
  -- `_call` with its retries under a deadline: `none` is TimeoutError.
  pub call_tool : String → ℕ → (remaining : ℕ) → W → Result Error (Option (List R)) × W
  pub submit : String → Dict (Entity R) → Option String → W → Result SubmitFailure String × W
  pub store : Checkpoint → ℕ → W → Result Error ℕ × W

-- A run in its world. `accepted` holds the identifiers and digests that the engine has accepted, the
-- newest first, and `stored` the checkpoint that was stored last; the code keeps neither.
pub record Sync (W R : Type 0) : Type 0 where
  pub run : Run R
  pub world : W
  pub accepted : List (String × String)
  pub stored : Checkpoint

abbrev pub Job : Type 0 → Type 0 → Type 0 → Type 0
Job W R A = Action (Sync W R) Error A

-- The order of texts.
abbrev pub text_le : String → String → Bool
text_le a b = elim (compare a b) [ Ordering.gt ↦ false | _ ↦ true ]

abbrev pub is_at_most : Option String → Option String → Bool
is_at_most (some a) (some b) = text_le a b
is_at_most _ _ = false

abbrev pub is_digest : Option String → String → Bool
is_digest none digest = false
is_digest (some held) digest = str_eq held digest

-- `_binding_tool`: the first declared tool, if no other is known.
abbrev pub first_tool : List String → String
first_tool [] = ""
first_tool (tool ∷ tools) = tool

abbrev pub is_empty : {A : Type 0} → List A → Bool
is_empty [] = true
is_empty (x ∷ xs) = false

abbrev pub marks : {R : Type 0} → List (Entity R × String) → List (String × String)
marks [] = []
marks ((entity, digest) ∷ pending) = (entity.id, digest) ∷ marks pending

-- `dict(list(d.items())[-limit:])` of a dict that is longer than the limit.
abbrev pub newest : ℕ → Dict String → Dict String
newest limit d = if ltb limit (length d) then drop (length d - limit) d else d

module _ {W R : Type 0} (spec : Spec R) (budget : SyncBudget) (max_digests : ℕ)
    (ports : Ports W R) where
  -- `_is_unchanged`
  unfoldable pub is_unchanged : Run R → String → Option String → R → Bool
  is_unchanged run record_id cursor content =
      if spec.incremental && not run.is_full && is_at_most cursor run.state.cursor
      then true
      else is_digest (get record_id run.state.digests) (spec.digest_of content)

  entities_of : List (Entity R × String) → Dict (Entity R) → Dict (Entity R)
  entities_of [] found = found
  entities_of ((entity, digest) ∷ pending) found =
      entities_of pending (insert entity.id entity found)

  with_targets : List (Option (String × R)) → Dict (Entity R) → Dict (Entity R)
  with_targets [] found = found
  with_targets (none ∷ edges) found = with_targets edges found
  with_targets (some (id, content) ∷ edges) found =
      let target : Entity R = record { id = id; updated_at = none; content = content } in
      with_targets edges (if has id found then found else insert id target found)

  -- `_pending_records`
  unfoldable pub pending_records : Run R → Dict (Entity R)
  unfolding entities_of with_targets
  pending_records run = with_targets run.pending_edges (entities_of run.pending [])

  abbrev tool_of : Option String → Run R → String
  tool_of (some tool) run = tool
  tool_of none run = elim run.pending_tool [ none ↦ first_tool spec.tools | some tool ↦ tool ]

  cleared : Run R → Run R
  cleared run = record run { pending = []; pending_edges = []; pending_tool = none }

  -- The identifiers and digests of the records of a submission.
  pub record_marks : Dict (Entity R) → List (String × String)
  record_marks [] = []
  record_marks ((id, entity) ∷ records) = (id, spec.digest_of entity.content) ∷ record_marks records

  accepted_marks : Result SubmitFailure String → Dict (Entity R) → List (String × String)
  unfolding record_marks
  accepted_marks (ok digest) records = record_marks records
  accepted_marks (err failure) records = []

  -- `self._ingest.submit`: the records that are handed over are those that an answer accepts.
  submit_records :
      String → Dict (Entity R) → Option String → Sync W R → Result SubmitFailure String × Sync W R
  unfolding accepted_marks
  submit_records tool records cursor s =
      let (r, w) = ports.submit tool records cursor s.world in
      (r, record s { world = w; accepted = accepted_marks r records ++ s.accepted })

  submit_result : Result SubmitFailure String × Sync W R → Result Error String × Sync W R
  unfolding cleared
  submit_result (ok digest, s) = (ok digest, s)
  submit_result (err (source_error e), s) = (err e, s)
  submit_result (err refused, s) = (err ingest_refused, record s { run = cleared s.run })

  -- `_submit_pending`: a refused batch is dropped.
  unfoldable pub submit_pending : Option String → Job W R String
  unfolding submit_result submit_records pending_records
  submit_pending tool s =
      submit_result (submit_records (tool_of tool s.run) (pending_records s.run) s.run.cursor s)

  store_result : Sync W R → Checkpoint → Result Error ℕ × W → Result Error (Unit {0}) × Sync W R
  store_result s checkpoint (ok version, w) =
      (ok tt, record s { run = record s.run { version = version }; world = w; stored = checkpoint })
  store_result s checkpoint (err e, w) = (err e, record s { world = w })

  -- `run.version = await self._checkpoints.store(run.state, run.version)`
  unfoldable pub store_checkpoint : Job W R (Unit {0})
  unfolding store_result
  store_checkpoint s = store_result s s.run.state (ports.store s.run.state s.run.version s.world)

  -- The run after a batch was accepted.
  unfoldable pub committed : Run R → String → Run R
  unfolding cleared
  committed run digest =
      let digests = newest max_digests (update run.state.digests (marks run.pending)) in
      record (cleared run) {
        batches = run.batches ++ (digest ∷ []);
        submitted = run.submitted + length run.pending;
        state = record {
          cursor = run.cursor;
          digests = digests;
          state = "running";
          records = length digests;
        };
      }

  unfoldable pub commit_batch : String → Job W R (Unit {0})
  unfolding committed
  commit_batch digest s = (ok tt, record s { run = committed s.run digest })

  -- `_flush`
  unfoldable pub flush : Option String → Job W R (Unit {0})
  unfolding submit_pending commit_batch store_checkpoint
  flush tool s =
      if is_empty s.run.pending
      then (ok tt, s)
      else (submit_pending tool >>= λ digest. commit_batch digest >> store_checkpoint) s

  later : Option String → Option String → Option String
  later none held = held
  later (some cursor) none = some cursor
  later (some cursor) (some held) = if text_le cursor held then some held else some cursor

  -- The run with one more record pending.
  unfoldable pub appended : Run R → String → R → String → Run R
  unfolding later
  appended run record_id content tool =
      let cursor = spec.cursor_of content in
      let entity : Entity R = record { id = record_id; updated_at = cursor; content = content } in
      record run {
        pending_tool = some tool;
        pending = run.pending ++ ((entity, spec.digest_of content) ∷ []);
        pending_edges = run.pending_edges ++ spec.targets_of content;
        cursor = later cursor run.cursor;
      }

  unfoldable pub note_seen : Job W R (Unit {0})
  note_seen s = (ok tt, record s { run = record s.run { seen = s.run.seen + 1 } })

  -- A record with an identifier: passed over if it is unchanged, or pending, and flushed with a full
  -- batch.
  unfoldable pub take_record : String → R → String → Job W R (Unit {0})
  unfolding is_unchanged appended flush
  take_record record_id content tool s =
      if is_unchanged s.run record_id (spec.cursor_of content) content
      then (ok tt, record s { run = record s.run { unchanged = s.run.unchanged + 1 } })
      else let s' = record s { run = appended s.run record_id content tool } in
        if leb budget.batch_size (length s'.run.pending) then flush (some tool) s' else (ok tt, s')

  abbrev take_identified : Option String → R → String → Job W R (Unit {0})
  take_identified none content tool = pure tt
  take_identified (some record_id) content tool = take_record record_id content tool

  -- `_take`
  unfoldable pub take_one : R → String → Job W R (Unit {0})
  unfolding take_record note_seen
  take_one content tool = note_seen >> take_identified (spec.identifier content) content tool
