-- ===== src/Ingest/Batches/Coverage.antt =====
-- What the batches of scion_sdk/ingest/_stream_paging.py are together: a mapped result, each part of
-- it once and in order, before the cursor that stands for it.
pub mod Commit
use agent_connector_sdk.Base.{
  ℕ, zero, suc, ◌+◌, ◌≤◌, String, ◌≡◌, refl, sym, ◌⊎◌, inl, inr, arith, Bool, true, false, not,
  ◌&&◌, ◌||◌, Option, none, some, List, [], ◌∷◌, ◌++◌, length, take, drop, length-drop,
  take-append-drop, append_assoc, append-nil, if◌then◌else◌, Bool-cases, Result, ok, err, Action,
  pure, ◌>>=◌, Ends, Leads, Leads-bind, Leads-pure,
}
use agent_connector_sdk.Ingest.Sync.{Counts, add, no_counts}
use agent_connector_sdk.Ingest.Source.{is_empty}
use agent_connector_sdk.Ingest.Batches.{
  Error, Mapped, ChangeSet, Stream, Submission, Sent, Job, is_accepted, slices_from, slices, submit,
  accepted, submit_batches, entity_set, edge_set, cursor_set, add_edges, finish_commit,
  commit_batches, is_text,
}

join : {A : Type 0} → List (List A) → List A
join [] = []
join (xs ∷ xss) = xs ++ join xss

are_filled : {A : Type 0} → List (List A) → Bool
are_filled [] = true
are_filled (xs ∷ xss) = not (is_empty xs) && are_filled xss

slices-join :
    {A : Type 0} (fuel size : ℕ) (xs : List A)
    → 1 ≤ size
    → length xs ≤ fuel
    → (join (slices_from fuel size xs) ≡ xs) × (are_filled (slices_from fuel size xs) ≡ true)
unfolding join are_filled slices_from
slices-join zero size [] positive room = (refl, refl)
slices-join (suc fuel) size [] positive room = (refl, refl)
slices-join zero size (x ∷ xs) positive room = absurd (omega arith)
slices-join (suc fuel) zero (x ∷ xs) positive room = absurd (omega arith)
slices-join (suc fuel) (suc size) (x ∷ xs) positive room =
    let (joined, filled) =
      slices-join fuel (suc size) (drop size xs) positive (omega (arith, length-drop size xs)) in
    (rw joined (rw (take-append-drop size xs) refl), filled)

module _ {X D L : Type 0} where
  -- The entities that the service accepted ahead of edges and cursor, and all edges that it accepted.
  new_entities : Submission X D L → List X
  new_entities submission =
      if submission.was_accepted
        && (submission.set.preserve_cursor && is_empty submission.set.relationships)
      then submission.set.entities
      else []

  new_edges : Submission X D L → List L
  new_edges submission = if submission.was_accepted then submission.set.relationships else []

  pub sent_entities : List (Submission X D L) → List X
  sent_entities [] = []
  sent_entities (x ∷ xs) = new_entities x ++ sent_entities xs

  pub sent_edges : List (Submission X D L) → List L
  sent_edges [] = []
  sent_edges (x ∷ xs) = new_edges x ++ sent_edges xs

  -- No set moves the cursor.
  pub keep_cursor : List (Submission X D L) → Bool
  keep_cursor [] = true
  keep_cursor (x ∷ xs) = x.set.preserve_cursor && keep_cursor xs

  sent_entities-append :
      (xs : List (Submission X D L)) (x : Submission X D L)
      → sent_entities (xs ++ (x ∷ [])) ≡ sent_entities xs ++ new_entities x
  unfolding sent_entities
  sent_entities-append [] x = append-nil (new_entities x)
  sent_entities-append (y ∷ xs) x =
      rw (sent_entities-append xs x)
        (sym (append_assoc (new_entities y) (sent_entities xs) (new_entities x)))

  sent_edges-append :
      (xs : List (Submission X D L)) (x : Submission X D L)
      → sent_edges (xs ++ (x ∷ [])) ≡ sent_edges xs ++ new_edges x
  unfolding sent_edges
  sent_edges-append [] x = append-nil (new_edges x)
  sent_edges-append (y ∷ xs) x =
      rw (sent_edges-append xs x) (sym (append_assoc (new_edges y) (sent_edges xs) (new_edges x)))

  keep_cursor-append :
      (xs : List (Submission X D L)) (x : Submission X D L)
      → keep_cursor (xs ++ (x ∷ [])) ≡ (keep_cursor xs && x.set.preserve_cursor)
  unfolding keep_cursor
  keep_cursor-append [] x = ground arith
  keep_cursor-append (y ∷ xs) x = ground (arith, keep_cursor-append xs x)

module _ {W X D L : Type 0} (stream : Stream W X D L) where
  abbrev after : Sent W X D L → ChangeSet X D L → Bool → W → Sent W X D L
  after s change_set was_accepted w =
      let submission : Submission X D L = record {
        set = change_set;
        was_accepted = was_accepted;
      } in
      record { world = w; submissions = s.submissions ++ (submission ∷ []) }

  -- After a method that answers None or raises, `Z` holds, and otherwise `Q`.
  abbrev Answers :
      {A : Type 0}
      → (Sent W X D L → Type 0)
      → (Sent W X D L → Type 0)
      → Option A
      → Sent W X D L
      → Type 0
  Answers Q Z none s = Z s
  Answers Q Z (some value) s = Q s

  submit-Leads :
      (change_set : ChangeSet X D L) (P Q Z : Sent W X D L → Type 0)
      → ((s : Sent W X D L) (w : W)
          → P s
          → Q (after s change_set true w) × Z (after s change_set false w))
      → Leads P (Answers {A = Counts} Q Z) Z (submit stream false change_set)
  unfolding submit
  submit-Leads change_set P Q Z goes = record {
    at = λ s h. result s h (stream.submit false change_set s.world);
  }
    where
      result :
          (s : Sent W X D L)
          → P s
          → (r : Result Error (Option Counts) × W)
          → Ends (Answers {A = Counts} Q Z) Z (r.0, after s change_set (is_accepted r.0) r.1)
      result s h (ok none, w) = (goes s w h).1
      result s h (ok (some counts), w) = (goes s w h).0
      result s h (err e, w) = (goes s w h).1

  accepted-Leads :
      {A : Type 0} (Q R Z : Sent W X D L → Type 0) (next : Counts → Job W X D L (Option A))
      → ((counts : Counts) → Leads Q (Answers R Z) Z (next counts))
      → (answer : Option Counts)
      → Leads (Answers Q Z answer) (Answers R Z) Z (accepted stream next answer)
  accepted-Leads Q R Z next goes none = Leads-pure (Answers R Z) none λ s h. h
  accepted-Leads Q R Z next goes (some counts) = goes counts

  submit_batches-Leads :
      {B : Type 0} (change_set : B → ChangeSet X D L) (count : Counts → Counts → Counts)
      (P : List B → Sent W X D L → Type 0) (Z : Sent W X D L → Type 0)
      → ((batch : B) (batches : List B) (s : Sent W X D L) (w : W)
          → P (batch ∷ batches) s
          → P batches (after s (change_set batch) true w) × Z (after s (change_set batch) false w))
      → (batches : List B) (totals : Counts)
      → Leads
          (P batches)
          (Answers {A = Counts} (P []) Z)
          Z
          (submit_batches stream change_set count totals batches)
  unfolding submit_batches
  submit_batches-Leads change_set count P Z goes [] totals = Leads-pure _ (some totals) λ s h. h
  submit_batches-Leads change_set count P Z goes (batch ∷ batches) totals =
      Leads-bind (Answers {A = Counts} (P batches) Z) _ _ _
        (submit-Leads (change_set batch) _ _ _ (goes batch batches))
        (accepted-Leads (P batches) (P []) Z _
          λ counts. submit_batches-Leads change_set count P Z goes batches (count totals counts))
