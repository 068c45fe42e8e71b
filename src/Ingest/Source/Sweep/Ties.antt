-- ===== src/Ingest/Source/Sweep/Ties.antt =====
-- What the cursor of a run that is under way passes over: `_is_unchanged` of
-- scion_sdk/ingest/_sync_run.py reads the cursor that `_flush` of source_sync.py has moved.
use agent_connector_sdk.Base.{
  ℕ, String, ◌≡◌, refl, ◌+◌, Bool, true, false, Option, Result, ok, err, ◌>>=◌, ◌>>◌, Ends, Leads,
  Leads-bind,
}
use agent_connector_sdk.Ingest.Source.{
  Spec, SyncBudget, Ports, Sync, Error, is_at_most, is_empty, is_unchanged, submit_pending,
  submit_result, submit_records, commit_batch, store_checkpoint, store_result, flush, take_record,
  SubmitFailure, source_error, refused, Checkpoint,
}

module _ {W R : Type 0} (spec : Spec R) (budget : SyncBudget) (max_digests : ℕ)
    (ports : Ports W R) where
  abbrev Anything : Sync W R → Type 0
  Anything s = Unit {0}

  -- The cursor of the batch, and of the checkpoint.
  abbrev Reached : Option String → Bool → Sync W R → Type 0
  Reached cursor full s = (s.run.cursor ≡ cursor) × (s.run.is_full ≡ full)

  abbrev Moved : Option String → Bool → Sync W R → Type 0
  Moved cursor full s = (s.run.state.cursor ≡ cursor) × (s.run.is_full ≡ full)

  submit_pending-Leads :
      (cursor : Option String) (full : Bool) (tool : Option String)
      → Leads
          (Reached cursor full)
          (λ (_ : String). Reached cursor full)
          Anything
          (submit_pending spec budget max_digests ports tool)
  unfolding submit_pending submit_records
  submit_pending-Leads cursor full tool = record {
    at = λ s h. result (submit_records spec budget max_digests ports _ _ _ s) h;
  }
    where
      result :
          (r : Result SubmitFailure String × Sync W R)
          → Reached cursor full r.1
          → Ends
              (λ (_ : String). Reached cursor full)
              Anything
              (submit_result spec budget max_digests ports r)
      result (ok digest, s) h = h
      result (err (source_error e), s) h = tt
      result (err refused, s) h = tt

  store_checkpoint-Leads :
      (cursor : Option String) (full : Bool)
      → Leads
          (Moved cursor full)
          (λ (_ : Unit {0}). Moved cursor full)
          Anything
          (store_checkpoint spec budget max_digests ports)
  unfolding store_checkpoint
  store_checkpoint-Leads cursor full = record {
    at = λ s h. result s s.run.state h (ports.store _ _ _);
  }
    where
      result :
          (s : Sync W R) (checkpoint : Checkpoint)
          → Moved cursor full s
          → (r : Result Error ℕ × W)
          → Ends
              (λ (_ : Unit {0}). Moved cursor full)
              Anything
              (store_result spec budget max_digests ports s checkpoint r)
      result s checkpoint h (ok version, w) = h
      result s checkpoint h (err e, w) = tt

  flush-Ends :
      (cursor : Option String) (full : Bool) (tool : Option String) (s : Sync W R)
      → is_empty s.run.pending ≡ false
      → Reached cursor full s
      → Ends
          (λ (_ : Unit {0}). Moved cursor full)
          Anything
          (flush spec budget max_digests ports tool s)
  unfolding flush commit_batch
  flush-Ends cursor full tool s h told =
      let submitted : Leads (Reached cursor full) (λ (_ : Unit {0}). Moved cursor full) Anything
          (submit_pending spec budget max_digests ports tool >>= λ digest.
            commit_batch spec budget max_digests ports digest
            >> store_checkpoint spec budget max_digests ports) =
        Leads-bind (λ _. Reached cursor full) _ _ _ (submit_pending-Leads cursor full tool)
          λ digest.
            Leads-bind (λ _. Moved cursor full) _ _ _ (record { at = λ s h. h })
              λ _. store_checkpoint-Leads cursor full in
      rw h (submitted.at s told)

  -- A batch that a run submits moves the cursor that the rest of the same run is measured by: after
  -- the flush of a batch, an incremental run that is not a full one passes over each record that is
  -- at or before the batch's own cursor, counted as unchanged, whatever its content is and even if
  -- neither the engine nor the checkpoint that the run began from has it.
  pub flush_skips_ties :
      (tool : Option String) (s s' : Sync W R) (record_id next_tool : String) (content : R)
      → is_empty s.run.pending ≡ false
      → flush spec budget max_digests ports tool s ≡ (ok tt, s')
      → spec.incremental ≡ true
      → s.run.is_full ≡ false
      → is_at_most (spec.cursor_of content) s.run.cursor ≡ true
      → take_record spec budget max_digests ports record_id content next_tool s'
        ≡ (ok tt, record s' { run = record s'.run { unchanged = s'.run.unchanged + 1 } })
  unfolding take_record is_unchanged
  flush_skips_ties tool s s' record_id next_tool content nonempty flushed incremental partial tied =
      let ends = flush-Ends s.run.cursor s.run.is_full tool s nonempty (refl, refl) in
      let moved : Moved s.run.cursor s.run.is_full s' = rw flushed at ends in
      rw (incremental, moved.0, moved.1, partial, tied) refl
