-- ===== src/Runner/Syncing/Pass/Completion.antt =====
-- What the outcome of a pass of scion_sdk/runner/syncing.py says of the pages that it extracted.
use agent_connector_sdk.Base.{
  ℕ, ◌+◌, ◌≡◌, ◌⊎◌, Bool, true, false, not, ◌&&◌, Option, some, List, [], ◌∷◌, length, ok, Action,
}
use agent_connector_sdk.Runner.Syncing.{
  Error, RecordPage, Request, Receipt, SyncTarget, SyncOutcome, Ports, Submission, State,
}
use agent_connector_sdk.Runner.Syncing.Pass.{is_compatible, drift, submit, finish_page}

module _ {R L X C : Type 0} where
  abbrev pub count_records : List (RecordPage R L X C) → ℕ
  count_records [] = 0
  count_records (page ∷ pages) = count_records pages + length page.records

  abbrev pub none_exhausted : List (RecordPage R L X C) → Bool
  none_exhausted [] = true
  none_exhausted (page ∷ pages) = not page.exhausted && none_exhausted pages

  -- The last submission was of the page, and its receipt did not acknowledge it.
  abbrev pub IsUnverified : RecordPage R L X C → List (Submission R L X C) → Type 0
  IsUnverified page [] = ⊥
  IsUnverified page (x ∷ xs) = (x.page ≡ page) × (x.is_verified ≡ false)

module _ {W R L X C : Type 0} where
  -- The last page that was extracted has drifted, or its receipt was not verified.
  abbrev pub Refused : Ports W R L X C → SyncTarget → State W R L X C → Type 0
  Refused ports target s =
      (page : RecordPage R L X C) × (earlier : List (RecordPage R L X C)) × (s.extracted
        ≡ page ∷ earlier)
      × (none_exhausted earlier ≡ true)
      × ((is_compatible (drift ports page target) ≡ false) ⊎ IsUnverified page s.submissions)

  -- The outcome tells the pages that were extracted, of which only the last may be exhausted.
  abbrev pub Completed : ℕ → SyncOutcome C → State W R L X C → Type 0
  Completed max out s =
      (out.pages ≡ length s.extracted)
      × (out.records ≡ count_records s.extracted)
      × (((out.exhausted ≡ true)
            × ((page : RecordPage R L X C) × (earlier : List (RecordPage R L X C)) × (s.extracted
                  ≡ page ∷ earlier)
                × (page.exhausted ≡ true)
                × (none_exhausted earlier ≡ true)))
          ⊎ ((out.exhausted ≡ false) × (out.pages ≡ max) × (none_exhausted s.extracted ≡ true)))

module _ {W R L X C : Type 0} (ports : Ports W R L X C) (target : SyncTarget)
    (extract_answers : (checkpoint : Option C) (w : W)
      → (page : RecordPage R L X C) × (w' : W) × (ports.extract checkpoint w ≡ (ok page, w')))
    (submit_answers : (request : Request R L X C) (w : W)
      → (receipt : Receipt C) × (w' : W) × (ports.submit request w ≡ (ok receipt, w')))
    (finish_answers : (finish : RecordPage R L X C → Bool → Action W Error (Unit {0}))
      → ports.finish_page ≡ some finish
      → (page : RecordPage R L X C) (accepted : Bool) (w : W)
      → (w' : W) × (finish page accepted w ≡ (ok tt, w'))) where
  abbrev Stopped : State W R L X C → Type 0
  Stopped = Refused ports target

  abbrev Counted : ℕ → ℕ → State W R L X C → Type 0
  Counted pages records s =
      (pages ≡ length s.extracted)
      × (records ≡ count_records s.extracted)
      × (none_exhausted s.extracted ≡ true)

  -- The page is the one that was extracted last, after the pages that are counted.
  abbrev Latest : RecordPage R L X C → ℕ → ℕ → State W R L X C → Type 0
  Latest page pages records s =
      (earlier : List (RecordPage R L X C)) × (s.extracted ≡ page ∷ earlier)
      × (pages ≡ length earlier)
      × (records ≡ count_records earlier)
      × (none_exhausted earlier ≡ true)
