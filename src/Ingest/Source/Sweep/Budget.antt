-- ===== src/Ingest/Source/Sweep/Budget.antt =====
-- A run keeps to its budget of pages and records, and accounts for the records it saw.
use agent_connector_sdk.Base.{
  ℕ, zero, suc, ◌+◌, ◌-◌, ◌≤◌, String, Bool, true, false, ◌||◌, Option, none, some, List, [], ◌∷◌,
  arith, length, length-append, ltb, leb, if◌then◌else◌, Result, ok, err, Bool-cases, inl, inr,
  Ends, Leads, Leads-bind, Leads-pure, Leads-lift, Ends-any,
}
use agent_connector_sdk.Ingest.Source.{
  Error, Checkpoint, Spec, SyncBudget, SubmitFailure, source_error, refused, Ports, Sync, Job,
  is_empty, is_unchanged, cleared, submit_result, submit_records, submit_pending, store_result,
  store_checkpoint, committed, commit_batch, flush, appended, note_seen, take_record,
  take_identified, take_one,
}
use agent_connector_sdk.Ingest.Source.Sweep.{
  elapsed, exhausted, call_result, call_within, budgeted_call, count_page, source_page, take_page,
  finish, after_records, read_round, sweep_pages, sweep_tool, sweep, is_raised, is_budget_error,
  flush_result, handle_sync_error, sweep_result, sweep_outcome, note_state, new_sync, sync_run,
}

-- The records and pages of a run against its budget, with room for `records` records and `pages`
-- pages more, and `open` records seen that are not accounted for yet.
pub record IsWithin {W R : Type 0} (budget : SyncBudget) (open_records records pages : ℕ)
    (s : Sync W R) : Type 0 where
  pub accounted :
      s.run.submitted + s.run.unchanged + length s.run.pending + open_records ≤ s.run.seen
  pub room : s.run.seen + records ≤ budget.max_records
  pub page_room : s.run.pages + pages ≤ budget.max_pages

module _ {W R : Type 0} (spec : Spec R) (budget : SyncBudget) (max_digests : ℕ)
    (ports : Ports W R) where
  -- Nothing in the room of `pages` and `records` is used up.
  abbrev Same : {A : Type 0} → ℕ → ℕ → Job W R A → Type 0
  Same {A} records pages m =
      Leads (IsWithin budget 0 records pages) (λ (_ : A). IsWithin budget 0 records pages)
        (IsWithin budget 0 0 0) m

  abbrev Closed : {A : Type 0} → Job W R A → Type 0
  Closed m = Same 0 0 m

  fewer :
      (open_records records pages : ℕ) (s : Sync W R)
      → IsWithin budget open_records records pages s
      → IsWithin budget 0 0 0 s
  fewer open_records records pages s h = record {
    accounted = omega (arith, h.accounted);
    room = omega (arith, h.room);
    page_room = omega (arith, h.page_room);
  }

  submit_result-Ends :
      (records pages : ℕ) (r : Result SubmitFailure String × Sync W R)
      → IsWithin budget 0 records pages r.1
      → Ends
          (λ _. IsWithin budget 0 records pages)
          (IsWithin budget 0 0 0)
          (submit_result spec budget max_digests ports r)
  unfolding submit_result cleared
  submit_result-Ends records pages (ok digest, s) h = h
  submit_result-Ends records pages (err (source_error e), s) h = fewer 0 records pages s h
  submit_result-Ends records pages (err refused, s) h = record {
    accounted = omega (arith, h.accounted);
    room = omega (arith, h.room);
    page_room = omega (arith, h.page_room);
  }

  commit_batch-Same :
      (records pages : ℕ) (digest : String)
      → Same records pages (commit_batch spec budget max_digests ports digest)
  unfolding commit_batch committed cleared
  commit_batch-Same records pages digest = record {
    at = λ s h. record {
      accounted = omega (arith, h.accounted);
      room = h.room;
      page_room = h.page_room;
    };
  }

  store-Same :
      (records pages : ℕ) → Same records pages (store_checkpoint spec budget max_digests ports)
  unfolding store_checkpoint store_result
  store-Same records pages = record { at = λ s h. stored s h _ }
    where
      stored :
          (s : Sync W R)
          → IsWithin budget 0 records pages s
          → (r : Result Error ℕ × W)
          → Ends
              (λ _. IsWithin budget 0 records pages)
              (IsWithin budget 0 0 0)
              (store_result spec budget max_digests ports s s.run.state r)
      stored s h (ok version, w) = record {
        accounted = h.accounted;
        room = h.room;
        page_room = h.page_room;
      }
      stored s h (err e, w) =
          fewer 0 records pages _
            (record { accounted = h.accounted; room = h.room; page_room = h.page_room })

  flush-Same :
      (records pages : ℕ) (tool : Option String)
      → Same records pages (flush spec budget max_digests ports tool)
  unfolding flush submit_pending submit_records
  flush-Same records pages tool = record {
    at = λ s h. elim (Bool-cases (is_empty s.run.pending)) [
      | inl e ↦ rw e h
      | inr e ↦ rw e (
          (Leads-bind {P = IsWithin budget 0 records pages} (λ _. IsWithin budget 0 records pages)
              (λ _. IsWithin budget 0 records pages) _ _
              (record {
                at = λ s h.
                    submit_result-Ends records pages
                      (submit_records spec budget max_digests ports _ _ _ s)
                      (record { accounted = h.accounted; room = h.room; page_room = h.page_room });
              })
              (λ digest.
                Leads-bind _ _ _ _ (commit_batch-Same records pages digest)
                  (λ _. store-Same records pages))).at
            s h)
    ];
  }

  -- A record that was seen is accounted for in the end.
  take_record-Leads :
      (records pages : ℕ) (record_id : String) (content : R) (tool : String)
      → Leads
          (IsWithin budget 1 records pages)
          (λ (_ : Unit {0}). IsWithin budget 0 records pages)
          (IsWithin budget 0 0 0)
          (take_record spec budget max_digests ports record_id content tool)
  unfolding take_record appended
  take_record-Leads records pages record_id content tool = record { at = at }
    where
      with_pending :
          (s : Sync W R)
          → IsWithin budget 1 records pages s
          → IsWithin budget 0 records pages (record s {
            run = appended spec budget max_digests ports s.run record_id content tool;
          })
      with_pending s h = record {
        accounted = omega (arith, h.accounted, length-append s.run.pending _);
        room = h.room;
        page_room = h.page_room;
      }

      at :
          (s : Sync W R)
          → IsWithin budget 1 records pages s
          → Ends
              (λ (_ : Unit {0}). IsWithin budget 0 records pages)
              (IsWithin budget 0 0 0)
              (take_record spec budget max_digests ports record_id content tool s)
      at s h =
          let s' = record s {
            run = appended spec budget max_digests ports s.run record_id content tool;
          } in
          elim (Bool-cases (
            is_unchanged spec budget max_digests ports s.run record_id (spec.cursor_of content)
              content)) [
                | inl e ↦ rw e (record {
                  accounted = omega (arith, h.accounted);
                  room = h.room;
                  page_room = h.page_room;
                })
                | inr e ↦ rw e (elim (Bool-cases (leb budget.batch_size (length s'.run.pending))) [
                  | inl full ↦
                      rw full ((flush-Same records pages (some tool)).at s' (with_pending s h))
                  | inr room ↦ rw room (with_pending s h)
                ])
              ]

  take_identified-Leads :
      (records pages : ℕ) (id : Option String) (content : R) (tool : String)
      → Leads
          (IsWithin budget 1 records pages)
          (λ (_ : Unit {0}). IsWithin budget 0 records pages)
          (IsWithin budget 0 0 0)
          (take_identified spec budget max_digests ports id content tool)
  take_identified-Leads records pages none content tool = Leads-pure _ tt λ s h. record {
    accounted = omega (arith, h.accounted);
    room = h.room;
    page_room = h.page_room;
  }
  take_identified-Leads records pages (some id) content tool =
      take_record-Leads records pages id content tool

  take_page-Leads :
      (pages : ℕ) (records : List R) (tool : String)
      → Leads
          (IsWithin budget 0 (length records) pages)
          (λ (_ : Unit {0}). IsWithin budget 0 0 pages)
          (IsWithin budget 0 0 0)
          (take_page spec budget max_digests ports records tool)
  unfolding take_page take_one note_seen
  take_page-Leads pages [] tool = Leads-pure _ tt λ s h. h
  take_page-Leads pages (content ∷ records) tool =
      Leads-bind (λ _. IsWithin budget 0 (length records) pages) _ _ _
        (Leads-bind (λ _. IsWithin budget 1 (length records) pages) _ _ _
          (record {
            at = λ s h. record {
              accounted = omega (arith, h.accounted);
              room = omega (arith, h.room);
              page_room = h.page_room;
            };
          })
          (λ _.
            take_identified-Leads (length records) pages (spec.identifier content) content tool))
        (λ _. take_page-Leads pages records tool)

  -- The budget is not used up: there is a page left.
  Spent : Bool → Sync W R → Type 0
  Spent true = IsWithin budget 0 0 0
  Spent false = IsWithin budget 0 0 1

  elapsed-Same : (records pages : ℕ) → Same records pages (elapsed spec budget max_digests ports)
  unfolding elapsed
  elapsed-Same records pages = record {
    at = λ s h. record { accounted = h.accounted; room = h.room; page_room = h.page_room };
  }

  Spent-answer : (spent : Bool) (s : Sync W R) → IsWithin budget 0 0 1 s → Spent spent s
  unfolding Spent
  Spent-answer true s h = fewer 0 0 1 s h
  Spent-answer false s h = h

  exhausted-Leads :
      Leads
        (IsWithin budget 0 0 0)
        Spent
        (IsWithin budget 0 0 0)
        (exhausted spec budget max_digests ports)
  unfolding exhausted Spent
  exhausted-Leads = record {
    at = λ s h.
        elim (Bool-cases (leb budget.max_pages s.run.pages || leb budget.max_records s.run.seen)) [
          | inl e ↦ rw e h
          | inr e ↦ rw e (
              (Leads-bind (λ _. IsWithin budget 0 0 1) Spent _ _ (elapsed-Same 0 1)
                  (λ seconds. Leads-pure Spent _ (λ s h. Spent-answer _ s h))).at
                s (record { accounted = h.accounted; room = h.room; page_room = ground arith }))
        ];
  }

  call_result-Ends :
      (records pages : ℕ) (s : Sync W R) (r : Result Error (Option (List R)) × W)
      → IsWithin budget 0 records pages s
      → Ends
          (λ (_ : List R). IsWithin budget 0 records pages)
          (IsWithin budget 0 0 0)
          (call_result spec budget max_digests ports s r)
  unfolding call_result
  call_result-Ends records pages s (ok (some found), w) h = record {
    accounted = h.accounted;
    room = h.room;
    page_room = h.page_room;
  }
  call_result-Ends records pages s (ok none, w) h =
      fewer 0 records pages _
        (record { accounted = h.accounted; room = h.room; page_room = h.page_room })
  call_result-Ends records pages s (err e, w) h =
      fewer 0 records pages _
        (record { accounted = h.accounted; room = h.room; page_room = h.page_room })

  call_within-Same :
      (records pages : ℕ) (tool : String) (page seconds : ℕ)
      → Same records pages (call_within spec budget max_digests ports tool page seconds)
  unfolding call_within
  call_within-Same records pages tool page seconds = record {
    at = λ s h. elim (Bool-cases (leb budget.max_seconds seconds)) [
      | inl e ↦ rw e (fewer 0 records pages s h)
      | inr e ↦ rw e (call_result-Ends records pages s _ h)
    ];
  }

  count_page-Leads :
      (records : List R)
      → Leads
          (IsWithin budget 0 0 1)
          (λ (found : List R). IsWithin budget 0 (length found) 0)
          (IsWithin budget 0 0 0)
          (count_page spec budget max_digests ports records)
  unfolding count_page
  count_page-Leads records = record {
    at = λ s h. elim (Bool-cases (ltb (budget.max_records - s.run.seen) (length records))) [
      | inl e ↦ rw e (record {
        accounted = h.accounted;
        room = h.room;
        page_room = omega (arith, h.page_room);
      })
      | inr e ↦ rw e (record {
        accounted = h.accounted;
        room = (let room = h.room in ground arith);
        page_room = omega (arith, h.page_room);
      })
    ];
  }

  source_page-Leads :
      (tool : String) (page : ℕ)
      → Leads
          (IsWithin budget 0 0 1)
          (λ (found : List R). IsWithin budget 0 (length found) 0)
          (IsWithin budget 0 0 0)
          (source_page spec budget max_digests ports tool page)
  unfolding source_page budgeted_call
  source_page-Leads tool page =
      Leads-bind (λ _. IsWithin budget 0 0 1) _ _ _
        (Leads-bind (λ _. IsWithin budget 0 0 1) _ _ _ (elapsed-Same 0 1)
          (call_within-Same 0 1 tool page))
        count_page-Leads

  finish-Closed :
      (tool : Option String) (complete : Bool)
      → Closed (finish spec budget max_digests ports tool complete)
  unfolding finish
  finish-Closed tool complete =
      Leads-bind (λ _. IsWithin budget 0 0 0) _ _ _ (flush-Same 0 0 tool)
        λ _. Leads-pure _ complete λ s h. h

  if-Closed :
      {A : Type 0} (b : Bool) (m n : Job W R A) → Closed m → Closed n → Closed (if b then m else n)
  if-Closed true m n hm hn = hm
  if-Closed false m n hm hn = hn

  read_round-Leads :
      (rest : Job W R Bool) (tool : String) (page : ℕ) (spent : Bool)
      → Closed rest
      → Leads
          (Spent spent)
          (λ (_ : Bool). IsWithin budget 0 0 0)
          (IsWithin budget 0 0 0)
          (read_round spec budget max_digests ports rest tool page spent)
  unfolding read_round after_records Spent
  read_round-Leads rest tool page true h = finish-Closed none false
  read_round-Leads rest tool page false h =
      Leads-bind (λ found. IsWithin budget 0 (length found) 0) _ _ _ (source_page-Leads tool page)
        λ records.
          Leads-bind (λ _. IsWithin budget 0 0 0) _ _ _ (take_page-Leads 0 records tool)
            λ _. if-Closed _ _ _ (finish-Closed (some tool) true) h

  sweep_pages-Closed :
      (fuel : ℕ) (tool : String) (page : ℕ)
      → Closed (sweep_pages spec budget max_digests ports fuel tool page)
  unfolding sweep_pages
  sweep_pages-Closed zero tool page = finish-Closed none false
  sweep_pages-Closed (suc fuel) tool page =
      Leads-bind Spent _ _ _ exhausted-Leads
        λ spent. read_round-Leads _ tool page spent (sweep_pages-Closed fuel tool (page + 1))

  sweep-Closed : (tools : List String) → Closed (sweep spec budget max_digests ports tools)
  unfolding sweep sweep_tool
  sweep-Closed [] = Leads-pure _ true λ s h. h
  sweep-Closed (tool ∷ tools) =
      Leads-bind (λ _. IsWithin budget 0 0 0) _ _ _
        (Leads-bind (λ _. IsWithin budget 0 0 0) _ _ _ (Leads-lift _ _ (λ _ s h. h) (λ s h. h))
          (λ _. sweep_pages-Closed budget.max_pages tool spec.start_page))
        (λ complete. if-Closed complete _ _ (sweep-Closed tools) (Leads-pure _ false λ s h. h))

  flush_result-Ends :
      (handle : Error → Job W R String) (r : Result Error (Unit {0}) × Sync W R)
      → ((e : Error) → Closed (handle e))
      → Ends (λ (_ : Unit {0}). IsWithin budget 0 0 0) (IsWithin budget 0 0 0) r
      → Ends
          (λ (_ : String). IsWithin budget 0 0 0)
          (IsWithin budget 0 0 0)
          (flush_result spec budget max_digests ports handle r)
  unfolding flush_result
  flush_result-Ends handle (ok _, s) keeps h = h
  flush_result-Ends handle (err e, s) keeps h = (keeps e).at s h

  handle_sync_error-Closed :
      (depth : ℕ) (e : Error) → Closed (handle_sync_error spec budget max_digests ports depth e)
  unfolding handle_sync_error
  handle_sync_error-Closed zero e = record { at = λ s h. h }
  handle_sync_error-Closed (suc depth) e = record {
    at = λ s h.
        let flushed =
          flush_result-Ends (handle_sync_error spec budget max_digests ports depth) _
            (handle_sync_error-Closed depth) ((flush-Same 0 0 none).at s h) in
        elim (Bool-cases (is_raised spec budget max_digests ports e)) [
          | inl conflict ↦ rw conflict h
          | inr other ↦
              rw other (elim (Bool-cases (is_budget_error spec budget max_digests ports e)) [
                | inl spent ↦ rw spent flushed
                | inr failed ↦ rw failed h
              ])
        ];
  }

  sweep_outcome-Closed : (depth : ℕ) → Closed (sweep_outcome spec budget max_digests ports depth)
  unfolding sweep_outcome sweep_result
  sweep_outcome-Closed depth = record {
    at = λ s h.
        result (sweep spec budget max_digests ports spec.tools s)
          ((sweep-Closed spec.tools).at s h);
  }
    where
      result :
          (r : Result Error Bool × Sync W R)
          → Ends (λ (_ : Bool). IsWithin budget 0 0 0) (IsWithin budget 0 0 0) r
          → Ends
              (λ (_ : String). IsWithin budget 0 0 0)
              (IsWithin budget 0 0 0)
              (sweep_result spec budget max_digests ports depth r)
      result (ok complete, s) h = h
      result (err e, s) h = (handle_sync_error-Closed depth e).at s h

  -- However a run of `sync` ends, with its report or an exception, it has seen no more records and
  -- counted no more pages than the budget allows, and the records that it submitted, that it passed
  -- over as unchanged and that are pending are together no more than those it saw.
  pub sync_run-IsWithin :
      (depth : ℕ) (is_full : Bool) (loaded : Checkpoint) (version : ℕ) (w : W)
      → IsWithin budget 0 0 0
          (sync_run spec budget max_digests ports depth
            (new_sync spec budget max_digests ports is_full loaded version w)).1
  unfolding sync_run note_state new_sync
  sync_run-IsWithin depth is_full loaded version w = Ends-any (IsWithin budget 0 0 0) _ (
      (Leads-bind (λ _. IsWithin budget 0 0 0) (λ (_ : String). IsWithin budget 0 0 0) _ _
          (sweep_outcome-Closed depth)
          λ state.
            Leads-bind (λ _. IsWithin budget 0 0 0) _ _ _
              (record {
                at = λ s h. record {
                  accounted = h.accounted;
                  room = h.room;
                  page_room = h.page_room;
                };
              })
              λ _.
                Leads-bind (λ _. IsWithin budget 0 0 0) _ _ _ (store-Same 0 0)
                  λ _. Leads-pure _ state λ s h. h).at
        _ (record { accounted = omega arith; room = omega arith; page_room = omega arith }))
