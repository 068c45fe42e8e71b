-- ===== src/Ingest/Source/Sweep/Fuel.antt =====
-- The rounds that `sweep_tool` allows are all that the loop can take.
use agent_connector_sdk.Base.{
  ℕ, zero, suc, ◌+◌, ◌-◌, ◌≤◌, String, ◌≡◌, refl, Bool, true, false, ◌||◌, Option, none, some, List,
  [], ◌∷◌, arith, length, ltb, leb, if◌then◌else◌, Result, ok, err, Action, ◌>>=◌, and_then,
  Bool-cases, inl, inr, Ends, Leads, Leads-bind, Keeps, Keeps-pure, Keeps-bind,
}
use agent_connector_sdk.Ingest.Source.{
  Error, Spec, SyncBudget, SubmitFailure, source_error, refused, Ports, Sync, Job, is_empty,
  is_unchanged, cleared, submit_result, submit_records, submit_pending, store_result,
  store_checkpoint, committed, commit_batch, flush, appended, note_seen, take_record,
  take_identified, take_one,
}
use agent_connector_sdk.Ingest.Source.Sweep.{
  elapsed, exhausted, call_result, call_within, budgeted_call, count_page, source_page, take_page,
  finish, is_last_page, after_records, read_round, sweep_pages,
}

-- Where nothing is said of errors.
abbrev Anything : {S : Type 0} → S → Type 0
Anything s = Unit

module _ {S E A : Type 0} where
  Ends-Anything :
      (P : S → Type 0) (end : Result E A × S) → P end.1 → Ends (λ (_ : A). P) Anything end
  Ends-Anything P (ok a, s) h = h
  Ends-Anything P (err e, s) h = tt

  of_Keeps : {P : S → Type 0} (m : Action S E A) → Keeps P m → Leads P (λ (_ : A). P) Anything m
  of_Keeps {P} m keeps = record { at = λ s h. Ends-Anything P (m s) (keeps.at s h) }

module _ {S E A B : Type 0} where
  and_then-eq :
      (Z : S → Type 0) (Q : A → S → Type 0) (end : Result E A × S) (f g : A → Action S E B)
      → Ends Q Z end
      → ((a : A) (s : S) → Q a s → f a s ≡ g a s)
      → and_then end.0 f end.1 ≡ and_then end.0 g end.1
  and_then-eq Z Q (ok a, s) f g q same = same a s q
  and_then-eq Z Q (err e, s) f g q same = refl

  bind-eq :
      {P Z : S → Type 0} (Q : A → S → Type 0) (m : Action S E A) (f g : A → Action S E B) (s : S)
      → Leads P Q Z m
      → P s
      → ((a : A) (s' : S) → Q a s' → f a s' ≡ g a s')
      → (m >>= f) s ≡ (m >>= g) s
  unfolding ◌>>=◌
  bind-eq {P} {Z} Q m f g s leads p same = and_then-eq Z Q (m s) f g (leads.at s p) same

module _ {W R : Type 0} (spec : Spec R) (budget : SyncBudget) (max_digests : ℕ)
    (ports : Ports W R) where
  abbrev HasPages : ℕ → Sync W R → Type 0
  HasPages n s = s.run.pages ≡ n

  store-Keeps : (n : ℕ) → Keeps (HasPages n) (store_checkpoint spec budget max_digests ports)
  unfolding store_checkpoint store_result
  store-Keeps n = record { at = λ s h. stored s h (ports.store s.run.state s.run.version s.world) }
    where
      stored :
          (s : Sync W R)
          → HasPages n s
          → (r : Result Error ℕ × W)
          → HasPages n (store_result spec budget max_digests ports s s.run.state r).1
      stored s h (ok version, w) = h
      stored s h (err e, w) = h

  submit-Keeps :
      (n : ℕ) (tool : Option String)
      → Keeps (HasPages n) (submit_pending spec budget max_digests ports tool)
  unfolding submit_pending submit_records submit_result cleared
  submit-Keeps n tool = record {
    at = λ s h. submitted (submit_records spec budget max_digests ports _ _ _ s) h;
  }
    where
      submitted :
          (r : Result SubmitFailure String × Sync W R)
          → HasPages n r.1
          → HasPages n (submit_result spec budget max_digests ports r).1
      submitted (ok digest, s) h = h
      submitted (err (source_error e), s) h = h
      submitted (err refused, s) h = h

  flush-Keeps :
      (n : ℕ) (tool : Option String) → Keeps (HasPages n) (flush spec budget max_digests ports tool)
  unfolding flush commit_batch committed cleared
  flush-Keeps n tool = record {
    at = λ s h. elim (Bool-cases (is_empty s.run.pending)) [
      | inl e ↦ rw e h
      | inr e ↦ rw e (
          (Keeps-bind _ _ (submit-Keeps n tool)
              λ digest. Keeps-bind _ _ (record { at = λ s h. h }) λ _. store-Keeps n).at
            s h)
    ];
  }

  take_record-Keeps :
      (n : ℕ) (record_id : String) (content : R) (tool : String)
      → Keeps (HasPages n) (take_record spec budget max_digests ports record_id content tool)
  unfolding take_record appended
  take_record-Keeps n record_id content tool = record { at = at }
    where
      at :
          (s : Sync W R)
          → HasPages n s
          → HasPages n (take_record spec budget max_digests ports record_id content tool s).1
      at s h =
          let s' = record s {
            run = appended spec budget max_digests ports s.run record_id content tool;
          } in
          elim (Bool-cases (
            is_unchanged spec budget max_digests ports s.run record_id (spec.cursor_of content)
              content)) [
                | inl e ↦ rw e h
                | inr e ↦ rw e (elim (Bool-cases (leb budget.batch_size (length s'.run.pending))) [
                  | inl full ↦ rw full ((flush-Keeps n (some tool)).at s' h)
                  | inr room ↦ rw room h
                ])
              ]

  take_page-Keeps :
      (n : ℕ) (records : List R) (tool : String)
      → Keeps (HasPages n) (take_page spec budget max_digests ports records tool)
  unfolding take_page take_one note_seen
  take_page-Keeps n [] tool = Keeps-pure tt
  take_page-Keeps n (content ∷ records) tool =
      Keeps-bind _ _
        (Keeps-bind _ _ (record { at = λ s h. h }) λ _. identified (spec.identifier content))
        (λ _. take_page-Keeps n records tool)
    where
      identified :
          (id : Option String)
          → Keeps (HasPages n) (take_identified spec budget max_digests ports id content tool)
      identified none = Keeps-pure tt
      identified (some id) = take_record-Keeps n id content tool

  elapsed-Keeps : (n : ℕ) → Keeps (HasPages n) (elapsed spec budget max_digests ports)
  unfolding elapsed
  elapsed-Keeps n = record { at = λ s h. h }

  exhausted-Keeps : (n : ℕ) → Keeps (HasPages n) (exhausted spec budget max_digests ports)
  unfolding exhausted
  exhausted-Keeps n = record {
    at = λ s h.
        elim (Bool-cases (leb budget.max_pages s.run.pages || leb budget.max_records s.run.seen)) [
          | inl e ↦ rw e h
          | inr e ↦
              rw e ((Keeps-bind {P = HasPages n} _ _ (elapsed-Keeps n) (λ _. Keeps-pure _)).at s h)
        ];
  }

  budgeted_call-Keeps :
      (n : ℕ) (tool : String) (page : ℕ)
      → Keeps (HasPages n) (budgeted_call spec budget max_digests ports tool page)
  unfolding budgeted_call call_within call_result
  budgeted_call-Keeps n tool page = Keeps-bind _ _ (elapsed-Keeps n) λ seconds. record {
    at = λ s h. elim (Bool-cases (leb budget.max_seconds seconds)) [
      | inl e ↦ rw e h
      | inr e ↦ rw e (called s h (ports.call_tool tool page (budget.max_seconds - seconds) s.world))
    ];
  }
    where
      called :
          (s : Sync W R)
          → HasPages n s
          → (r : Result Error (Option (List R)) × W)
          → HasPages n (call_result spec budget max_digests ports s r).1
      called s h (ok (some records), w) = h
      called s h (ok none, w) = h
      called s h (err e, w) = h

  source_page-Leads :
      (n : ℕ) (tool : String) (page : ℕ)
      → Leads
          (HasPages n)
          (λ (_ : List R). HasPages (n + 1))
          Anything
          (source_page spec budget max_digests ports tool page)
  unfolding source_page count_page
  source_page-Leads n tool page =
      Leads-bind (λ _. HasPages n) _ _ _ (of_Keeps _ (budgeted_call-Keeps n tool page))
        λ records. record {
          at = λ s h. elim (Bool-cases (ltb (budget.max_records - s.run.seen) (length records))) [
            | inl e ↦ rw e tt
            | inr e ↦ rw e (omega arith)
          ];
        }

  if-eq :
      {A : Type 0} (b : Bool) (m n n' : Job W R A) (s : Sync W R)
      → n s ≡ n' s
      → (if b then m else n) s ≡ (if b then m else n') s
  if-eq true m n n' s h = refl
  if-eq false m n n' s h = h

  read_round-eq :
      (n : ℕ) (rest rest' : Job W R Bool) (tool : String) (page : ℕ) (spent : Bool) (s : Sync W R)
      → HasPages n s
      → ((s' : Sync W R) → HasPages (n + 1) s' → rest s' ≡ rest' s')
      → read_round spec budget max_digests ports rest tool page spent s
        ≡ read_round spec budget max_digests ports rest' tool page spent s
  unfolding read_round after_records
  read_round-eq n rest rest' tool page true s here same = refl
  read_round-eq n rest rest' tool page false s here same =
      bind-eq (λ (_ : List R). HasPages (n + 1))
        (source_page spec budget max_digests ports tool page)
        (after_records spec budget max_digests ports rest tool)
        (after_records spec budget max_digests ports rest' tool) s (source_page-Leads n tool page)
        here
        λ records s1 counted.
          bind-eq (λ (_ : Unit {0}). HasPages (n + 1))
            (take_page spec budget max_digests ports records tool) _ _ s1
            (of_Keeps _ (take_page-Keeps (n + 1) records tool)) counted
            λ _ s2 taken.
              if-eq (is_last_page spec budget max_digests ports spec.pagination records)
                (finish spec budget max_digests ports (some tool) true) rest rest' s2
                (same s2 taken)

  exhausted_spent :
      (s : Sync W R)
      → budget.max_pages ≤ s.run.pages
      → exhausted spec budget max_digests ports s ≡ (ok true, s)
  unfolding exhausted
  exhausted_spent s h =
      let spent : (leb budget.max_pages s.run.pages || leb budget.max_records s.run.seen) ≡ true =
        ground arith in
      rw spent refl

  -- In a state whose pages and rounds together reach the page budget, one round more changes nothing:
  -- the rounds that `sweep_tool` allows are all that its loop can take.
  pub sweep_pages_fuel :
      (fuel : ℕ) (tool : String) (page : ℕ) (s : Sync W R)
      → budget.max_pages ≤ s.run.pages + fuel
      → sweep_pages spec budget max_digests ports (suc fuel) tool page s
        ≡ sweep_pages spec budget max_digests ports fuel tool page s
  unfolding sweep_pages read_round ◌>>=◌
  sweep_pages_fuel zero tool page s h = rw (exhausted_spent s (omega arith)) refl
  sweep_pages_fuel (suc fuel) tool page s h =
      bind-eq (λ (_ : Bool). HasPages s.run.pages) (exhausted spec budget max_digests ports) _ _ s
        (of_Keeps _ (exhausted-Keeps s.run.pages)) refl
        λ spent s' here.
          read_round-eq s.run.pages
            (sweep_pages spec budget max_digests ports (suc fuel) tool (page + 1))
            (sweep_pages spec budget max_digests ports fuel tool (page + 1)) tool page spent s' here
            λ s1 counted. sweep_pages_fuel fuel tool (page + 1) s1 (omega (arith, counted))
