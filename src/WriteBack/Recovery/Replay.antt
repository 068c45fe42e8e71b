-- ===== src/WriteBack/Recovery/Replay.antt =====
-- What the replay of the receipts proves, and that it ends.
use agent_connector_sdk.Base.{
  bind-eq-ok, ℕ, zero, suc, ◌+◌, ◌≤◌, ◌<◌, ◌≡◌, refl, true, Option, none, some, List, [], ◌∷◌, ◌++◌,
  arith, length, ◌==◌, Bool-cases, inl, inr, Result, ok, err, bind,
}
use agent_connector_sdk.WriteBack.Contract.{SourceChangeSet, Error, persistence, Contract}
use agent_connector_sdk.WriteBack.Recovery.{
  ReceiptRecord, ReceiptPage, receipt, RecoveryState, fresh, is_applied_effect, record_state,
  advance, consume_record, consume_page, after_page, with_consumed, read_page, replay,
  receipt_recovery_state,
}

-- Every receipt has a sequence number of `bound` at most.
abbrev pub AllWithin : {J : Type 0} → ℕ → List (ReceiptRecord J) → Type 0
AllWithin bound [] = Unit
AllWithin bound (item ∷ items) = ((receipt item).sequence ≤ bound) × AllWithin bound items

bind_step :
    {A B C : Type 0} (r : Result Error A) (f : A → Result Error C) (g : A → Result Error B)
    (k : B → Result Error C)
    → ((a : A) → f a ≡ bind (g a) k)
    → bind r f ≡ bind (bind r g) k
bind_step (ok a) f g k h = h a
bind_step (err e) f g k h = refl

module _ {J : Type 0} (contract : Contract J) (cs : SourceChangeSet J) where
  pub consume_record-eq-ok :
      (item : ReceiptRecord J) (state : RecoveryState) (last : ℕ) (acc : RecoveryState × ℕ)
      → consume_record contract cs item (state, last) ≡ ok acc
      → (last < acc.1)
        × (acc.1 ≡ (receipt item).sequence)
        × (record_state contract cs item ≡ ok acc.0)
        × (is_applied_effect state ≡ true → is_applied_effect acc.0 ≡ true)
  unfolding consume_record advance
  consume_record-eq-ok item state last acc h =
      (ground arith, ground arith, ground arith, λ applied. ground arith)

  pub consume_page-append :
      (xs ys : List (ReceiptRecord J)) (acc : RecoveryState × ℕ)
      → consume_page contract cs (xs ++ ys) acc
        ≡ bind (consume_page contract cs xs acc) (consume_page contract cs ys)
  unfolding consume_page
  consume_page-append [] ys acc = refl
  consume_page-append (x ∷ xs) ys acc =
      bind_step (consume_record contract cs x acc) _ _ _ (consume_page-append xs ys)

  -- A page that was read whole moves the last sequence up by as many places at least as it has
  -- receipts, and once an effect was applied it stays so.
  pub consume_page-eq-ok :
      (items : List (ReceiptRecord J)) (state : RecoveryState) (last bound : ℕ)
      (acc : RecoveryState × ℕ)
      → consume_page contract cs items (state, last) ≡ ok acc
      → (last + length items ≤ acc.1)
        × (is_applied_effect state ≡ true → is_applied_effect acc.0 ≡ true)
        × (last ≤ bound → AllWithin bound items → acc.1 ≤ bound)
  unfolding consume_page
  consume_page-eq-ok [] state last bound acc h =
      (ground arith, λ applied. ground arith, λ l w. ground arith)
  consume_page-eq-ok (item ∷ items) state last bound acc h =
      let (next, e, rest) = bind-eq-ok (consume_record contract cs item (state, last)) _ h in
      let (up, at_item, found, stays) = consume_record-eq-ok item state last next e in
      let (up', stays', within) = consume_page-eq-ok items next.0 next.1 bound acc rest in
      (omega arith, λ applied. stays' (stays applied), λ l w. within (omega arith) w.1)

  module _ (page_of : Option ℕ → Result Error (ReceiptPage J)) (bound : ℕ)
      (bounded : (after : Option ℕ) (page : ReceiptPage J)
        → page_of after ≡ ok page
        → AllWithin bound page.receipts) where
    -- Where the rest of the loop goes on from, after a round from `last`.
    abbrev Goes : ℕ → (Option ℕ → RecoveryState × ℕ → Option (Result Error RecoveryState)) → Type 0
    Goes last rest =
        (next : Option ℕ) (acc : RecoveryState × ℕ)
        → acc.1 ≤ bound
        → last < acc.1
        → (r : Result Error RecoveryState) × (rest next acc ≡ some r)

    after_page_total :
        (last : ℕ) (rest : Option ℕ → RecoveryState × ℕ → Option (Result Error RecoveryState))
        (items : List (ReceiptRecord J)) (next : Option ℕ) (acc : RecoveryState × ℕ)
        → Goes last rest
        → acc.1 ≤ bound
        → last + length items ≤ acc.1
        → (r : Result Error RecoveryState) × (after_page contract cs page_of rest items next acc
            ≡ some r)
    unfolding after_page
    after_page_total last rest items none acc goes low up = (ok acc.0, refl)
    after_page_total last rest [] (some next) acc goes low up = (err persistence, refl)
    after_page_total last rest (item ∷ items) (some next) acc goes low up =
        elim (Bool-cases (next == acc.1)) [
          | inl bound_to_page ↦
              let (r, e) = goes (some next) acc low (omega arith) in
              (r, rw (bound_to_page, after_page) e)
          | inr other ↦ (err persistence, rw (other, after_page))
        ]

    with_consumed_total :
        (rest : Option ℕ → RecoveryState × ℕ → Option (Result Error RecoveryState))
        (page : ReceiptPage J) (acc : RecoveryState × ℕ) (r : Result Error (RecoveryState × ℕ))
        → consume_page contract cs page.receipts acc ≡ r
        → AllWithin bound page.receipts
        → acc.1 ≤ bound
        → Goes acc.1 rest
        → (answer : Result Error RecoveryState) × (with_consumed contract cs page_of rest page r
            ≡ some answer)
    unfolding with_consumed
    with_consumed_total rest page acc (err e) read within low goes = (err e, refl)
    with_consumed_total rest page acc (ok acc') read within low goes =
        let (up, stays, stays_low) = consume_page-eq-ok page.receipts acc.0 acc.1 bound acc' read in
        after_page_total acc.1 rest page.receipts page.next_sequence acc' goes
          (stays_low low within) up

    read_page_total :
        (rest : Option ℕ → RecoveryState × ℕ → Option (Result Error RecoveryState))
        (r : Result Error (ReceiptPage J)) (acc : RecoveryState × ℕ)
        → ((page : ReceiptPage J) → r ≡ ok page → AllWithin bound page.receipts)
        → acc.1 ≤ bound
        → Goes acc.1 rest
        → (answer : Result Error RecoveryState) × (read_page contract cs page_of rest r acc
            ≡ some answer)
    unfolding read_page
    read_page_total rest (err e) acc within low goes = (err e, refl)
    read_page_total rest (ok page) acc within low goes =
        with_consumed_total rest page acc _ refl (within page refl) low goes

    replay_total :
        (fuel : ℕ) (after : Option ℕ) (acc : RecoveryState × ℕ)
        → acc.1 ≤ bound
        → bound < fuel + acc.1
        → (r : Result Error RecoveryState) × (replay contract cs page_of fuel after acc ≡ some r)
    unfolding replay
    replay_total zero after acc low enough = absurd (omega arith)
    replay_total (suc fuel) after acc low enough =
        read_page_total (replay contract cs page_of fuel) (page_of after) acc (bounded after) low
          (λ next acc' low' up. replay_total fuel next acc' low' (omega arith))

    -- Whatever pages the ledger serves, as long as no receipt on them has a sequence number above
    -- `bound`, the loop ends within `bound + 1` pages: it returns a state or raises.
    pub receipt_recovery_state_total :
        (fuel : ℕ)
        → bound < fuel
        → (r : Result Error RecoveryState) × (receipt_recovery_state contract cs page_of fuel
            ≡ some r)
    unfolding receipt_recovery_state
    receipt_recovery_state_total fuel enough =
        replay_total fuel none (fresh, 0) (omega arith) (omega arith)
