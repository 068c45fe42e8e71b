-- ===== src/Ingest/Source/Sweep/Acked.antt =====
-- The durable checkpoint of a source never runs ahead of the engine.
use agent_connector_sdk.Base.{
  ℕ, zero, suc, ◌+◌, ◌-◌, String, Bool, true, false, ◌||◌, Option, none, some, List, [], ◌∷◌, ◌++◌,
  append-nil, length, ltb, leb, if◌then◌else◌, Result, ok, err, ◌>>=◌, ◌>>◌, Keeps, Keeps-pure,
  Keeps-lift, Keeps-bind, and_then, Bool-cases, inl, inr,
}
use agent_connector_sdk.Ingest.Source.{
  Error, Checkpoint, Spec, SyncBudget, SubmitFailure, source_error, refused, Ports, Sync, Job,
  is_empty, marks, is_unchanged, submit_result, submit_pending, submit_records, accepted_marks,
  record_marks, pending_records, tool_of, cleared, Entity, store_result, store_checkpoint,
  commit_batch, flush, appended, note_seen, take_record, take_identified, take_one,
}
use agent_connector_sdk.Base.Dict.{Dict}
use agent_connector_sdk.Ingest.Source.Handed.{AreMarked, AreMarked-append, LastIn-pending}
use agent_connector_sdk.Ingest.Source.Marks.{
  LastIn, AllIn, AllIn-append, AllIn-self, AllIn-update, AllIn-newest,
}
use agent_connector_sdk.Ingest.Source.Sweep.{
  elapsed, exhausted, call_result, call_within, budgeted_call, count_page, source_page, take_page,
  finish, after_records, read_round, sweep_pages, sweep_tool, sweep, is_raised, is_budget_error,
  flush_result, handle_sync_error, sweep_result, sweep_outcome, note_state, new_sync, sync_run,
}

-- Everything that the run's checkpoint, or the stored one, says was ingested, was accepted by the
-- engine before, and the pending records bear their own digests.
pub record IsAcked {W R : Type 0} (spec : Spec R) (budget : SyncBudget) (max_digests : ℕ)
    (ports : Ports W R) (s : Sync W R) : Type 0 where
  pub known : AllIn s.accepted s.run.state.digests
  pub durable : AllIn s.accepted s.stored.digests
  pub marked : AreMarked spec budget max_digests ports s.run.pending

module _ {W R : Type 0} (spec : Spec R) (budget : SyncBudget) (max_digests : ℕ)
    (ports : Ports W R) where
  abbrev Acked : Sync W R → Type 0
  Acked = IsAcked spec budget max_digests ports

  commit-IsAcked :
      (digest : String) (s : Sync W R)
      → Acked s
      → LastIn s.accepted (marks s.run.pending)
      → Acked (commit_batch spec budget max_digests ports digest s).1
  unfolding commit_batch
  commit-IsAcked digest s h pending = record {
    known =
        AllIn-newest max_digests s.accepted _
          (AllIn-update s.accepted s.run.state.digests (marks s.run.pending) h.known pending);
    durable = h.durable;
    marked = tt;
  }

  store-Keeps : Keeps Acked (store_checkpoint spec budget max_digests ports)
  unfolding store_checkpoint store_result
  store-Keeps = record { at = λ s h. stored s h (ports.store s.run.state s.run.version s.world) }
    where
      stored :
          (s : Sync W R)
          → Acked s
          → (r : Result Error ℕ × W)
          → Acked (store_result spec budget max_digests ports s s.run.state r).1
      stored s h (ok version, w) = record { known = h.known; durable = h.known; marked = h.marked }
      stored s h (err e, w) = record { known = h.known; durable = h.durable; marked = h.marked }

  -- After a batch was submitted: what was known is known, and so is an accepted batch.
  Submitted : Result Error String × Sync W R → Type 0
  Submitted (err e, s) = Acked s
  Submitted (ok digest, s) = Acked s × LastIn s.accepted (marks s.run.pending)

  submit_pending-Submitted :
      (tool : Option String) (s : Sync W R)
      → Acked s
      → Submitted (submit_pending spec budget max_digests ports tool s)
  unfolding Submitted submit_pending submit_records submit_result accepted_marks cleared
  submit_pending-Submitted tool s h =
      answered (
        ports.submit (tool_of spec budget max_digests ports tool s.run) records s.run.cursor
          s.world)
    where
      records : Dict (Entity R)
      records = pending_records spec budget max_digests ports s.run

      answered :
          (r : Result SubmitFailure String × W)
          → Submitted (
              submit_result spec budget max_digests ports (
                r.0,
                record s {
                  world = r.1;
                  accepted = accepted_marks spec budget max_digests ports r.0 records ++ s.accepted;
                },
              ))
      answered (ok digest, w) = (
        record {
          known =
              AllIn-append (record_marks spec budget max_digests ports records) s.accepted
                s.run.state.digests h.known;
          durable =
              AllIn-append (record_marks spec budget max_digests ports records) s.accepted
                s.stored.digests h.durable;
          marked = h.marked;
        },
        LastIn-pending spec budget max_digests ports s.run s.accepted h.marked,
      )
      answered (err (source_error e), w) = record {
        known = h.known;
        durable = h.durable;
        marked = h.marked;
      }
      answered (err refused, w) = record { known = h.known; durable = h.durable; marked = tt }

  after_submit-IsAcked :
      (r : Result Error String × Sync W R)
      → Submitted r
      → Acked
          (and_then r.0
            (λ digest.
              commit_batch spec budget max_digests ports digest
              >> store_checkpoint spec budget max_digests ports)
            r.1).1
  unfolding Submitted commit_batch ◌>>=◌
  after_submit-IsAcked (err e, s) h = h
  after_submit-IsAcked (ok digest, s) h = store-Keeps.at _ (commit-IsAcked digest s h.0 h.1)

  flush-Keeps : (tool : Option String) → Keeps Acked (flush spec budget max_digests ports tool)
  unfolding flush ◌>>=◌
  flush-Keeps tool = record {
    at = λ s h. elim (Bool-cases (is_empty s.run.pending)) [
      | inl e ↦ rw e h
      | inr e ↦ rw e (after_submit-IsAcked _ (submit_pending-Submitted tool s h))
    ];
  }

  take_record-Keeps :
      (record_id : String) (content : R) (tool : String)
      → Keeps Acked (take_record spec budget max_digests ports record_id content tool)
  unfolding take_record appended
  take_record-Keeps record_id content tool = record { at = at }
    where
      at :
          (s : Sync W R)
          → Acked s
          → Acked (take_record spec budget max_digests ports record_id content tool s).1
      at s h =
          let s' = record s {
            run = appended spec budget max_digests ports s.run record_id content tool;
          } in
          let same : Acked s' = record {
            known = h.known;
            durable = h.durable;
            marked = AreMarked-append spec budget max_digests ports s.run.pending _ h.marked;
          } in
          elim (Bool-cases (
            is_unchanged spec budget max_digests ports s.run record_id (spec.cursor_of content)
              content)) [
                | inl e ↦ rw e (record { known = h.known; durable = h.durable; marked = h.marked })
                | inr e ↦ rw e (elim (Bool-cases (leb budget.batch_size (length s'.run.pending))) [
                  | inl full ↦ rw full ((flush-Keeps (some tool)).at s' same)
                  | inr room ↦ rw room same
                ])
              ]

  take_identified-Keeps :
      (id : Option String) (content : R) (tool : String)
      → Keeps Acked (take_identified spec budget max_digests ports id content tool)
  take_identified-Keeps none content tool = Keeps-pure tt
  take_identified-Keeps (some id) content tool = take_record-Keeps id content tool

  take_one-Keeps :
      (content : R) (tool : String)
      → Keeps Acked (take_one spec budget max_digests ports content tool)
  unfolding take_one note_seen
  take_one-Keeps content tool =
      Keeps-bind _ _
        (record { at = λ s h. record { known = h.known; durable = h.durable; marked = h.marked } })
        (λ _. take_identified-Keeps (spec.identifier content) content tool)

  take_page-Keeps :
      (records : List R) (tool : String)
      → Keeps Acked (take_page spec budget max_digests ports records tool)
  unfolding take_page
  take_page-Keeps [] tool = Keeps-pure tt
  take_page-Keeps (content ∷ records) tool =
      Keeps-bind _ _ (take_one-Keeps content tool) (λ _. take_page-Keeps records tool)

  elapsed-Keeps : Keeps Acked (elapsed spec budget max_digests ports)
  unfolding elapsed
  elapsed-Keeps = record {
    at = λ s h. record { known = h.known; durable = h.durable; marked = h.marked };
  }

  exhausted-Keeps : Keeps Acked (exhausted spec budget max_digests ports)
  unfolding exhausted
  exhausted-Keeps = record {
    at = λ s h.
        elim (Bool-cases (leb budget.max_pages s.run.pages || leb budget.max_records s.run.seen)) [
          | inl e ↦ rw e h
          | inr e ↦ rw e ((Keeps-bind _ _ elapsed-Keeps (λ _. Keeps-pure _)).at s h)
        ];
  }

  call_result-IsAcked :
      (s : Sync W R) (r : Result Error (Option (List R)) × W)
      → Acked s
      → Acked (call_result spec budget max_digests ports s r).1
  unfolding call_result
  call_result-IsAcked s (ok (some records), w) h = record {
    known = h.known;
    durable = h.durable;
    marked = h.marked;
  }
  call_result-IsAcked s (ok none, w) h = record {
    known = h.known;
    durable = h.durable;
    marked = h.marked;
  }
  call_result-IsAcked s (err e, w) h = record {
    known = h.known;
    durable = h.durable;
    marked = h.marked;
  }

  call_within-Keeps :
      (tool : String) (page seconds : ℕ)
      → Keeps Acked (call_within spec budget max_digests ports tool page seconds)
  unfolding call_within
  call_within-Keeps tool page seconds = record {
    at = λ s h. elim (Bool-cases (leb budget.max_seconds seconds)) [
      | inl e ↦ rw e h
      | inr e ↦ rw e (call_result-IsAcked s _ h)
    ];
  }

  count_page-Keeps :
      (records : List R) → Keeps Acked (count_page spec budget max_digests ports records)
  unfolding count_page
  count_page-Keeps records = record {
    at = λ s h. elim (Bool-cases (ltb (budget.max_records - s.run.seen) (length records))) [
      | inl e ↦ rw e (record { known = h.known; durable = h.durable; marked = h.marked })
      | inr e ↦ rw e (record { known = h.known; durable = h.durable; marked = h.marked })
    ];
  }

  source_page-Keeps :
      (tool : String) (page : ℕ) → Keeps Acked (source_page spec budget max_digests ports tool page)
  unfolding source_page budgeted_call
  source_page-Keeps tool page =
      Keeps-bind _ _ (Keeps-bind _ _ elapsed-Keeps (call_within-Keeps tool page)) count_page-Keeps

  finish-Keeps :
      (tool : Option String) (complete : Bool)
      → Keeps Acked (finish spec budget max_digests ports tool complete)
  unfolding finish
  finish-Keeps tool complete = Keeps-bind _ _ (flush-Keeps tool) (λ _. Keeps-pure complete)

  if-Keeps :
      {A : Type 0} (b : Bool) (m n : Job W R A)
      → Keeps Acked m
      → Keeps Acked n
      → Keeps Acked (if b then m else n)
  if-Keeps true m n hm hn = hm
  if-Keeps false m n hm hn = hn

  read_round-Keeps :
      (rest : Job W R Bool) (tool : String) (page : ℕ) (spent : Bool)
      → Keeps Acked rest
      → Keeps Acked (read_round spec budget max_digests ports rest tool page spent)
  unfolding read_round after_records
  read_round-Keeps rest tool page true h = finish-Keeps none false
  read_round-Keeps rest tool page false h = Keeps-bind _ _ (source_page-Keeps tool page) λ records.
      Keeps-bind _ _ (take_page-Keeps records tool)
        λ _. if-Keeps _ _ _ (finish-Keeps (some tool) true) h

  sweep_pages-Keeps :
      (fuel : ℕ) (tool : String) (page : ℕ)
      → Keeps Acked (sweep_pages spec budget max_digests ports fuel tool page)
  unfolding sweep_pages
  sweep_pages-Keeps zero tool page = finish-Keeps none false
  sweep_pages-Keeps (suc fuel) tool page =
      Keeps-bind _ _ exhausted-Keeps
        λ spent. read_round-Keeps _ tool page spent (sweep_pages-Keeps fuel tool (page + 1))

  sweep-Keeps : (tools : List String) → Keeps Acked (sweep spec budget max_digests ports tools)
  unfolding sweep sweep_tool
  sweep-Keeps [] = Keeps-pure true
  sweep-Keeps (tool ∷ tools) =
      Keeps-bind _ _
        (Keeps-bind _ _ (Keeps-lift _)
          (λ _. sweep_pages-Keeps budget.max_pages tool spec.start_page))
        (λ complete. if-Keeps complete _ _ (sweep-Keeps tools) (Keeps-pure false))

  flush_result-IsAcked :
      (handle : Error → Job W R String) (r : Result Error (Unit {0}) × Sync W R)
      → ((e : Error) → Keeps Acked (handle e))
      → Acked r.1
      → Acked (flush_result spec budget max_digests ports handle r).1
  unfolding flush_result
  flush_result-IsAcked handle (ok _, s) keeps h = h
  flush_result-IsAcked handle (err e, s) keeps h = (keeps e).at s h

  handle_sync_error-Keeps :
      (depth : ℕ) (e : Error)
      → Keeps Acked (handle_sync_error spec budget max_digests ports depth e)
  unfolding handle_sync_error
  handle_sync_error-Keeps zero e = record { at = λ s h. h }
  handle_sync_error-Keeps (suc depth) e = record {
    at = λ s h.
        let flushed =
          flush_result-IsAcked (handle_sync_error spec budget max_digests ports depth) _
            (handle_sync_error-Keeps depth) ((flush-Keeps none).at s h) in
        elim (Bool-cases (is_raised spec budget max_digests ports e)) [
          | inl conflict ↦ rw conflict h
          | inr other ↦
              rw other (elim (Bool-cases (is_budget_error spec budget max_digests ports e)) [
                | inl spent ↦ rw spent flushed
                | inr failed ↦ rw failed h
              ])
        ];
  }

  sweep_outcome-Keeps :
      (depth : ℕ) → Keeps Acked (sweep_outcome spec budget max_digests ports depth)
  unfolding sweep_outcome sweep_result
  sweep_outcome-Keeps depth = record {
    at = λ s h.
        result (sweep spec budget max_digests ports spec.tools s) ((sweep-Keeps spec.tools).at s h);
  }
    where
      result :
          (r : Result Error Bool × Sync W R)
          → Acked r.1
          → Acked (sweep_result spec budget max_digests ports depth r).1
      result (ok complete, s) h = h
      result (err e, s) h = (handle_sync_error-Keeps depth e).at s h

  new_sync-IsAcked :
      (is_full : Bool) (loaded : Checkpoint) (version : ℕ) (w : W)
      → Acked (new_sync spec budget max_digests ports is_full loaded version w)
  unfolding new_sync
  new_sync-IsAcked true loaded version w = record {
    known = tt;
    durable = rw append-nil at (AllIn-self loaded.digests []);
    marked = tt;
  }
  new_sync-IsAcked false loaded version w =
      let same = rw append-nil at (AllIn-self loaded.digests []) in
      record { known = same; durable = same; marked = tt }

  -- However a run of `sync` ends, with its report or an exception, the checkpoint that was stored
  -- last names only records, with their digests, that were handed to the engine in a batch which it
  -- has accepted, or that the checkpoint had named when the run began.
  pub sync_run-IsAcked :
      (depth : ℕ) (is_full : Bool) (loaded : Checkpoint) (version : ℕ) (w : W)
      → IsAcked spec budget max_digests ports
          (sync_run spec budget max_digests ports depth
            (new_sync spec budget max_digests ports is_full loaded version w)).1
  unfolding sync_run note_state new_sync
  sync_run-IsAcked depth is_full loaded version w =
      (Keeps-bind _ _ (sweep_outcome-Keeps depth) λ state.
          Keeps-bind _ _
            (record {
              at = λ s h. record { known = h.known; durable = h.durable; marked = h.marked };
            })
            λ _. Keeps-bind _ _ store-Keeps λ _. Keeps-pure state).at
        _ (new_sync-IsAcked is_full loaded version w)
