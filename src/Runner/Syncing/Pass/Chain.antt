-- ===== src/Runner/Syncing/Pass/Chain.antt =====
-- The chain of checkpoints that a pass of scion_sdk/runner/syncing.py submits.
use agent_connector_sdk.Base.{
  ℕ, zero, suc, ◌+◌, String, ◌≡◌, refl, ◌⊎◌, inl, inr, arith, Bool, true, false, Bool-cases, Option,
  none, some, List, [], ◌∷◌, length, if◌then◌else◌, Result, ok, err, require, Action, pure, raise,
  lift, ◌>>=◌, ◌>>◌, Ends, Ends-any, Leads, Leads-bind, Leads-pure,
}
use agent_connector_sdk.Runner.Syncing.{
  Error, drift_quarantined, RecordPage, Request, Receipt, SyncTarget, SyncOutcome, Ports,
  Submission, State, Job, source_request,
}
use agent_connector_sdk.Runner.Syncing.Pass.{
  is_compatible, extract_page, noted, in_world, drift, check_drift, receipt_binds_request,
  submitted, verify, submit, commit_page, is_delta_noop, accept_page, finish_page, finished,
  accept_adapter_page, sync_pages,
}

module _ {W R L X C : Type 0} (ports : Ports W R L X C) (target : SyncTarget)
    (first : Option C) where
  -- The checkpoint that the submissions so far, the newest first, have led to: each has a verified
  -- receipt, which bears the checkpoint of its page.
  pub LeadsTo : Option C → List (Submission R L X C) → Type 0
  LeadsTo checkpoint [] = checkpoint ≡ first
  LeadsTo checkpoint (x ∷ xs) =
      (x.is_verified ≡ true)
      × ((reached : C) × (checkpoint ≡ some reached)
          × (ports.same reached x.request.provider_checkpoint ≡ true))

  -- A submission is the request of a page without drift that continues the ones before it.
  pub Chained : List (Submission R L X C) → Type 0
  Chained [] = Unit
  Chained (x ∷ xs) =
      (is_compatible (drift ports x.page target) ≡ true)
      × (x.request ≡ source_request x.page target x.request.expected_previous)
      × LeadsTo x.request.expected_previous xs
      × Chained xs

  abbrev Safe : State W R L X C → Type 0
  Safe s = Chained s.submissions

  abbrev Ready : Option C → State W R L X C → Type 0
  Ready checkpoint s = LeadsTo checkpoint s.submissions × Chained s.submissions

  in_world-Leads :
      {A : Type 0} (P Z : State W R L X C → Type 0) (action : Action W Error A)
      → ((s : State W R L X C) (w : W)
          → P s
          → P (record s { world = w }) × Z (record s { world = w }))
      → Leads P (λ (_ : A). P) Z (in_world ports action)
  unfolding in_world
  in_world-Leads {A = A} P Z action goes = record { at = λ s h. result s (action s.world) h }
    where
      result :
          (s : State W R L X C) (r : Result Error A × W)
          → P s
          → Ends (λ (_ : A). P) Z (r.0, record s { world = r.1 })
      result s (ok value, w) h = (goes s w h).0
      result s (err e, w) h = (goes s w h).1

  extract_page-Leads :
      (P Z : State W R L X C → Type 0) (checkpoint : Option C)
      → ((s : State W R L X C) (w : W)
          → P s
          → P (record s { world = w }) × Z (record s { world = w }))
      → ((s : State W R L X C) (page : RecordPage R L X C)
          → P s
          → P (record s { extracted = page ∷ s.extracted }))
      → Leads P (λ (_ : RecordPage R L X C). P) Z (extract_page ports checkpoint)
  unfolding extract_page noted
  extract_page-Leads P Z checkpoint goes notes =
      Leads-bind (λ _. P) _ _ _ (in_world-Leads P Z (ports.extract checkpoint) goes)
        λ page. record { at = λ s h. notes s page h }

  -- After an accepted page: it was the last one, or the chain goes on from its checkpoint.
  abbrev Accepted : RecordPage R L X C → C × ℕ → State W R L X C → Type 0
  Accepted page (checkpoint, newly) s =
      ((page.exhausted ≡ true) × Safe s) ⊎ Ready (some checkpoint) s

  receipt_same :
      (request : Request R L X C) (receipt : Receipt C)
      → receipt_binds_request ports request receipt ≡ true
      → ports.same receipt.accepted_checkpoint request.provider_checkpoint ≡ true
  unfolding receipt_binds_request
  receipt_same request receipt bound = ground arith

  submit-Leads :
      (page : RecordPage R L X C) (checkpoint : Option C)
      → is_compatible (drift ports page target) ≡ true
      → Leads
          (Ready checkpoint)
          (λ (receipt : Receipt C). Ready (some receipt.accepted_checkpoint))
          Safe
          (submit ports page (source_request page target checkpoint))
  unfolding submit submitted LeadsTo Chained source_request
  submit-Leads page checkpoint sound = record {
    at = λ s h. result s (ports.submit (source_request page target checkpoint) s.world) h;
  }
    where
      result :
          (s : State W R L X C) (r : Result Error (Receipt C) × W)
          → Ready checkpoint s
          → Ends
              (λ (receipt : Receipt C). Ready (some receipt.accepted_checkpoint))
              Safe
              (verify ports page (source_request page target checkpoint) r s)
      result s (err e, w) (leads, chained) = (sound, refl, leads, chained)
      result s (ok receipt, w) (leads, chained) =
          elim (Bool-cases
            (receipt_binds_request ports (source_request page target checkpoint) receipt)) [
              | inl e ↦
                  rw (verify, e)
                    (
                      (
                        refl,
                        (
                          receipt.accepted_checkpoint,
                          refl,
                          receipt_same (source_request page target checkpoint) receipt e,
                        ),
                      ),
                      (sound, refl, leads, chained),
                    )
              | inr e ↦ rw (verify, e) (sound, refl, leads, chained)
            ]

  check_drift-Leads :
      (page : RecordPage R L X C) (P Z : State W R L X C → Type 0)
      → ((s : State W R L X C) → P s → Z s)
      → Leads P
          (λ (_ : Unit {0}) s. (is_compatible (drift ports page target) ≡ true) × P s)
          Z
          (check_drift ports page target)
  unfolding check_drift lift
  check_drift-Leads page P Z stops = record {
    at = λ s h. checked (is_compatible (drift ports page target)) s refl h;
  }
    where
      checked :
          (sound : Bool) (s : State W R L X C)
          → is_compatible (drift ports page target) ≡ sound
          → P s
          → Ends
              (λ (_ : Unit {0}) s. (is_compatible (drift ports page target) ≡ true) × P s)
              Z
              (lift (require sound drift_quarantined) s)
      checked true s e h = (e, h)
      checked false s e h = stops s h

  commit_page-Leads :
      (page : RecordPage R L X C) (checkpoint : Option C)
      → Leads
          (Ready checkpoint)
          (λ (receipt : Receipt C). Ready (some receipt.accepted_checkpoint))
          Safe
          (commit_page ports page target checkpoint)
  unfolding commit_page
  commit_page-Leads page checkpoint =
      Leads-bind _ _ _ _ (check_drift-Leads page (Ready checkpoint) Safe λ s h. h.1)
        λ _. record { at = λ s h. (submit-Leads page checkpoint h.0).at s h.1 }

  is_delta_noop_exhausted :
      (page : RecordPage R L X C) (checkpoint : Option C)
      → is_delta_noop ports page checkpoint ≡ true
      → page.exhausted ≡ true
  unfolding is_delta_noop
  is_delta_noop_exhausted page none e = absurd (ground arith)
  is_delta_noop_exhausted page (some checkpoint) e = ground arith

  accept_page-Leads :
      (page : RecordPage R L X C) (checkpoint : Option C)
      → Leads (Ready checkpoint) (Accepted page) Safe (accept_page ports page target checkpoint)
  unfolding accept_page
  accept_page-Leads page checkpoint =
      let noop : is_delta_noop ports page checkpoint ≡ true
          → Leads (Ready checkpoint) (Accepted page) Safe
              (check_drift ports page target >> pure (page.checkpoint, 0)) =
        λ e. Leads-bind _ _ _ _ (check_drift-Leads page (Ready checkpoint) Safe λ s h. h.1) λ _.
          Leads-pure (Accepted page) (page.checkpoint, 0)
            λ s h. inl (is_delta_noop_exhausted page checkpoint e, h.1.1) in
      let committed : Leads (Ready checkpoint) (Accepted page) Safe (
          commit_page ports page target checkpoint >>= λ receipt.
          pure (receipt.accepted_checkpoint, receipt.affected_count)) =
        Leads-bind _ _ _ _ (commit_page-Leads page checkpoint) λ receipt.
          Leads-pure (Accepted page) (receipt.accepted_checkpoint, receipt.affected_count)
            λ s h. inr h in
      elim (Bool-cases (is_delta_noop ports page checkpoint)) [
        | inl e ↦ rw e (noop e)
        | inr e ↦ rw e committed
      ]

  Accepted-Safe :
      (page : RecordPage R L X C) (result : C × ℕ) (s : State W R L X C)
      → Accepted page result s
      → Safe s
  Accepted-Safe page result s (inl (_, safe)) = safe
  Accepted-Safe page result s (inr (_, safe)) = safe

  finish_page-Leads :
      (finish : Option (RecordPage R L X C → Bool → Action W Error (Unit {0})))
      (page : RecordPage R L X C) (accepted : Bool) (P Z : State W R L X C → Type 0)
      → ((s : State W R L X C) (w : W)
          → P s
          → P (record s { world = w }) × Z (record s { world = w }))
      → Leads P (λ (_ : Unit {0}). P) Z (finish_page ports finish page accepted)
  unfolding finish_page
  finish_page-Leads none page accepted P Z goes = Leads-pure _ tt λ s h. h
  finish_page-Leads (some finish) page accepted P Z goes =
      in_world-Leads P Z (finish page accepted) goes

  finished-Ends :
      (page : RecordPage R L X C) (r : Result Error (C × ℕ) × State W R L X C)
      → Ends (Accepted page) Safe r
      → Ends (Accepted page) Safe (finished ports page r)
  unfolding finished Chained raise
  finished-Ends page (ok result, s) h =
      let done : Leads (Accepted page result) (Accepted page) Safe
          (finish_page ports ports.finish_page page true >> pure result) =
        Leads-bind _ _ _ _
          (finish_page-Leads ports.finish_page page true (Accepted page result) Safe
            λ s w h. (h, Accepted-Safe page result s h))
          λ _. Leads-pure _ result λ s h. h in
      done.at s h
  finished-Ends page (err e, s) h =
      let done : Leads Safe (Accepted page) Safe
          (finish_page ports ports.finish_page page false >> raise e) =
        Leads-bind _ _ _ _
          (finish_page-Leads ports.finish_page page false Safe Safe λ s w h. (h, h))
          λ _. record { at = λ s h. h } in
      done.at s h

  if_exhausted-Leads :
      {A : Type 0} (exhausted : Bool) (checkpoint : Option C) (done rest : Job W R L X C A)
      → Leads Safe (λ (_ : A). Safe) Safe done
      → Leads (Ready checkpoint) (λ (_ : A). Safe) Safe rest
      → Leads
          (λ s. ((exhausted ≡ true) × Safe s) ⊎ Ready checkpoint s)
          (λ (_ : A). Safe)
          Safe
          (if exhausted then done else rest)
  if_exhausted-Leads true checkpoint done rest ends goes = record {
    at = λ s h. elim h [ inl (_, safe) ↦ ends.at s safe | inr (_, safe) ↦ ends.at s safe ];
  }
  if_exhausted-Leads false checkpoint done rest ends goes = record {
    at = λ s h. elim h [ inl (e, _) ↦ absurd (ground arith) | inr ready ↦ goes.at s ready ];
  }

  sync_pages-Leads :
      (left : ℕ) (stream : String) (checkpoint : Option C) (pages records accepted : ℕ)
      → Leads
          (Ready checkpoint)
          (λ (_ : SyncOutcome C). Safe)
          Safe
          (sync_pages ports left stream target checkpoint pages records accepted)
  unfolding sync_pages accept_adapter_page
  sync_pages-Leads zero stream checkpoint pages records accepted = Leads-pure _ _ λ s h. h.1
  sync_pages-Leads (suc left) stream checkpoint pages records accepted =
      Leads-bind (λ _. Ready checkpoint) _ _ _
        (extract_page-Leads (Ready checkpoint) Safe checkpoint (λ s w h. (h, h.1)) λ s page h. h)
        λ page.
          Leads-bind (Accepted page) _ _ _
            (record {
              at = λ s h. finished-Ends page _ ((accept_page-Leads page checkpoint).at s h);
            })
            λ (next, newly).
              if_exhausted-Leads page.exhausted (some next) _ _ (Leads-pure _ _ λ s h. h) (
                sync_pages-Leads left stream (some next) (pages + 1) (records + length page.records)
                  (accepted + newly))

  -- However a pass ends, with its outcome or an exception, and whatever the adapter and the sink
  -- answer: each request that it submitted is the request of a page whose schema has no drift, and
  -- expects the checkpoint that the submission before it has led to, whose receipt was verified. The
  -- first expects the checkpoint that the pass began from.
  pub sync_pages-Chained :
      (left : ℕ) (stream : String) (w : W)
      → Chained
          (sync_pages ports left stream target first 0 0 0
            (record { world = w; submissions = []; extracted = [] })).1.submissions
  unfolding LeadsTo Chained
  sync_pages-Chained left stream w = Ends-any Safe _ (
      (sync_pages-Leads left stream first 0 0 0).at
        (record { world = w; submissions = []; extracted = [] }) (refl, tt))
