-- ===== src/WriteBack/Ledger/Paging.antt =====
-- The pages of the ledger hold its receipts, so that a replay of the pages is one of the receipts,
-- whatever the limit of a page.
use agent_connector_sdk.Base.{
  bind-eq-ok, ℕ, zero, suc, ◌+◌, ◌≤◌, ◌<◌, ◌≡◌, refl, sym, ap, ◌∙◌, Option, none, some, List, [],
  ◌∷◌, arith, length, take, drop, length-drop, take-append-drop, take_all, ltb, ltb→lt,
  ltb-false→le, lt→ltb, le→ltb, ==_iff, Bool-cases, inl, inr, Result, ok, err, bind,
}
use agent_connector_sdk.WriteBack.Contract.{SourceChangeSet, Error, Contract}
use agent_connector_sdk.WriteBack.Recovery.{
  ReceiptRecord, ReceiptPage, receipt, RecoveryState, fresh, consume_record, consume_page,
  after_page, with_consumed, read_page, replay, receipt_recovery_state,
}
use agent_connector_sdk.WriteBack.Recovery.Replay.{consume_page-append, consume_record-eq-ok}
use agent_connector_sdk.WriteBack.Ledger.{
  receipts_after, last_sequence, receipt_page, after_or_zero,
}

-- The receipts are numbered in order from `n + 1` on.
abbrev pub IsNumbered : {J : Type 0} → ℕ → List (ReceiptRecord J) → Type 0
IsNumbered n [] = Unit
IsNumbered n (item ∷ items) = ((receipt item).sequence ≡ n + 1) × IsNumbered (n + 1) items

module _ {J : Type 0} where
  receipts_after_all :
      (n k : ℕ) (items : List (ReceiptRecord J))
      → IsNumbered n items
      → k ≤ n
      → receipts_after k items ≡ items
  unfolding receipts_after
  receipts_after_all n k [] h low = refl
  receipts_after_all n k (item ∷ items) h low =
      ground (arith, receipts_after_all (n + 1) k items h.1)

  receipts_after-drop :
      (n k : ℕ) (items : List (ReceiptRecord J))
      → IsNumbered n items
      → receipts_after (n + k) items ≡ drop k items
  unfolding receipts_after
  receipts_after-drop n zero items h = receipts_after_all n (n + 0) items h (omega arith)
  receipts_after-drop n (suc k) [] h = refl
  receipts_after-drop n (suc k) (item ∷ items) h =
      let same : n + 1 + k ≡ n + suc k = omega arith in
      ground (arith, rw same at (receipts_after-drop (n + 1) k items h.1))

  IsNumbered-drop :
      (n k : ℕ) (items : List (ReceiptRecord J))
      → IsNumbered n items
      → IsNumbered (n + k) (drop k items)
  IsNumbered-drop n zero items h = let same : n ≡ n + 0 = omega arith in rw same at h
  IsNumbered-drop n (suc k) [] h = tt
  IsNumbered-drop n (suc k) (item ∷ items) h =
      let same : n + 1 + k ≡ n + suc k = omega arith in
      rw same at (IsNumbered-drop (n + 1) k items h.1)

  last_sequence-take :
      (n k : ℕ) (items : List (ReceiptRecord J))
      → IsNumbered n items
      → k < length items
      → last_sequence (take (suc k) items) ≡ ok (n + suc k)
  unfolding last_sequence
  last_sequence-take n k [] h low = absurd (omega arith)
  last_sequence-take n zero (item ∷ items) h low = ap ok h.0
  last_sequence-take n (suc k) (item ∷ []) h low = absurd (omega arith)
  last_sequence-take n (suc k) (item ∷ next ∷ items) h low =
      let same : n + 1 + suc k ≡ n + suc (suc k) = omega arith in
      rw same at (last_sequence-take (n + 1) k (next ∷ items) h.1 (omega arith))

  drop_nil : (n : ℕ) → drop {A = ReceiptRecord J} n [] ≡ []
  drop_nil zero = refl
  drop_nil (suc n) = refl

  drop-drop :
      (j k : ℕ) (items : List (ReceiptRecord J)) → drop j (drop k items) ≡ drop (k + j) items
  drop-drop j zero items = let same : j ≡ 0 + j = omega arith in ap (λ n. drop n items) same
  drop-drop j (suc k) [] = drop_nil j ∙ sym (drop_nil (suc k + j))
  drop-drop j (suc k) (item ∷ items) =
      let same : suc (k + j) ≡ suc k + j = omega arith in
      drop-drop j k items ∙ ap (λ n. drop n (item ∷ items)) same

  length-drop_lt :
      (k : ℕ) (items : List (ReceiptRecord J))
      → 0 < k
      → 0 < length items
      → length (drop k items) < length items
  length-drop_lt k items kp ip = omega (arith, length-drop k items)

module _ {J : Type 0} (contract : Contract J) (cs : SourceChangeSet J) where
  consume_page-last :
      (items : List (ReceiptRecord J)) (acc acc' : RecoveryState × ℕ) (last : ℕ)
      → consume_page contract cs items acc ≡ ok acc'
      → last_sequence items ≡ ok last
      → acc'.1 ≡ last
  unfolding last_sequence consume_page
  consume_page-last [] acc acc' last h e = cc
  consume_page-last (item ∷ []) acc acc' last h e =
      let (next, found, rest) = bind-eq-ok (consume_record contract cs item acc) _ h in
      let (up, at_item, _, _) = consume_record-eq-ok contract cs item acc.0 acc.1 next found in
      ground (arith, at_item, rest)
  consume_page-last (item ∷ item' ∷ items) acc acc' last h e =
      let (next, found, rest) = bind-eq-ok (consume_record contract cs item acc) _ h in
      consume_page-last (item' ∷ items) next acc' last rest e

  module _ (records : List (ReceiptRecord J)) (numbered : IsNumbered 0 records) (l : ℕ) where
    abbrev pages : Option ℕ → Result Error (ReceiptPage J)
    pages = receipt_page records (suc l)

    abbrev outcome : Result Error (RecoveryState × ℕ) → Result Error RecoveryState
    outcome r = bind r (λ acc. ok acc.0)

    remaining :
        (after : Option ℕ)
        → receipts_after (after_or_zero after) records ≡ drop (after_or_zero after) records
    remaining after =
        let same : 0 + after_or_zero after ≡ after_or_zero after = omega arith in
        rw same at (receipts_after-drop 0 (after_or_zero after) records numbered)

    last_page :
        (after : Option ℕ)
        → length (drop (after_or_zero after) records) ≤ suc l
        → pages after
          ≡ ok (record { receipts = drop (after_or_zero after) records; next_sequence = none })
    unfolding receipt_page
    last_page after short = rw (remaining after, le→ltb _ _ short, take_all _ _ short)

    full_page :
        (after : Option ℕ)
        → suc l < length (drop (after_or_zero after) records)
        → pages after
          ≡ ok (record {
            receipts = take (suc l) (drop (after_or_zero after) records);
            next_sequence = some (after_or_zero after + suc l);
          })
    unfolding receipt_page
    full_page after long =
        let k = after_or_zero after in
        let same : 0 + k ≡ k = omega arith in
        let ordered : IsNumbered k (drop k records) =
          rw same at (IsNumbered-drop 0 k records numbered) in
        rw (
          remaining after,
          lt→ltb _ _ long,
          last_sequence-take k l (drop k records) ordered (omega arith),
        )

    abbrev Rest : Type 0
    Rest = Option ℕ → RecoveryState × ℕ → Option (Result Error RecoveryState)

    last_round :
        (rest : Rest) (items : List (ReceiptRecord J)) (r : Result Error (RecoveryState × ℕ))
        → with_consumed contract cs pages rest (record { receipts = items; next_sequence = none }) r
          ≡ some (outcome r)
    unfolding with_consumed
    last_round rest items (err e) = refl
    last_round rest items (ok acc) = refl

    -- One round over a page that is not the last: its receipts, and then the rest of the loop.
    full_round :
        (rest : Rest) (k : ℕ) (items after : List (ReceiptRecord J)) (acc : RecoveryState × ℕ)
        → last_sequence items ≡ ok k
        → ((acc' : RecoveryState × ℕ)
            → rest (some k) acc' ≡ some (outcome (consume_page contract cs after acc')))
        → (r : Result Error (RecoveryState × ℕ)) → consume_page contract cs items acc ≡ r
        → with_consumed contract cs pages rest
            (record { receipts = items; next_sequence = some k })
            r
          ≡ some (outcome (bind r (consume_page contract cs after)))
    unfolding with_consumed last_sequence
    full_round rest k [] after acc last goes r read = cc
    full_round rest k (item ∷ items) after acc last goes (err e) read = refl
    full_round rest k (item ∷ items) after acc last goes (ok acc') read =
        rw
          (
            (==_iff k acc'.1).1 (sym (consume_page-last (item ∷ items) acc acc' k read last)),
            after_page,
          )
          (goes acc')

    full_replay :
        (rest : Rest) (k : ℕ) (acc : RecoveryState × ℕ)
        → suc l < length (drop k records)
        → ((acc' : RecoveryState × ℕ)
            → rest (some (k + suc l)) acc'
              ≡ some (outcome (consume_page contract cs (drop (k + suc l) records) acc')))
        → with_consumed contract cs pages rest
            (record { receipts = take (suc l) (drop k records); next_sequence = some (k + suc l) })
            (consume_page contract cs (take (suc l) (drop k records)) acc)
          ≡ some (outcome (consume_page contract cs (drop k records) acc))
    full_replay rest k acc long goes =
        let same : 0 + k ≡ k = omega arith in
        let rem = drop k records in
        let ordered : IsNumbered k rem = rw same at (IsNumbered-drop 0 k records numbered) in
        full_round rest (k + suc l) (take (suc l) rem) (drop (suc l) rem) acc
          (last_sequence-take k l rem ordered (omega arith))
          (λ acc'. rw (drop-drop (suc l) k records) (goes acc')) _ refl
        ∙ ap (λ r. some (outcome r))
            (sym (consume_page-append contract cs (take (suc l) rem) (drop (suc l) rem) acc)
              ∙ ap (λ items. consume_page contract cs items acc) (take-append-drop (suc l) rem))

    -- A replay of the pages from the place `after` is one of the receipts from there on.
    replay-pages :
        (fuel : ℕ) (after : Option ℕ) (acc : RecoveryState × ℕ)
        → length (drop (after_or_zero after) records) < fuel
        → replay contract cs pages fuel after acc
          ≡ some (outcome (consume_page contract cs (drop (after_or_zero after) records) acc))
    unfolding replay read_page
    replay-pages zero after acc enough = absurd (omega arith)
    replay-pages (suc fuel) after acc enough =
        let k = after_or_zero after in
        elim (Bool-cases (ltb (suc l) (length (drop k records)))) [
          | inl long ↦
              rw (full_page after (ltb→lt _ _ long), read_page)
                (full_replay (replay contract cs pages fuel) k acc (ltb→lt _ _ long) λ acc'.
                  replay-pages fuel (some (k + suc l)) acc' (
                    rw (← drop-drop (suc l) k records) (
                      omega (
                        arith,
                        ltb→lt (suc l) (length (drop k records)) long,
                        length-drop (suc l) (drop k records),
                      ))))
          | inr short ↦
              rw (last_page after (ltb-false→le _ _ short), read_page)
                (last_round (replay contract cs pages fuel) (drop k records) _)
        ]

    -- The ledger's receipts numbered in order, the state that the loop recovers from its pages is
    -- the one that the receipts give in one pass, or the same error, whatever the limit of a page.
    pub receipt_recovery_state-pages :
        (fuel : ℕ)
        → length records < fuel
        → receipt_recovery_state contract cs pages fuel
          ≡ some (outcome (consume_page contract cs records (fresh, 0)))
    unfolding receipt_recovery_state
    receipt_recovery_state-pages fuel enough = replay-pages fuel none (fresh, 0) enough
