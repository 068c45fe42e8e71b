-- ===== src/Ingest/Batches/Coverage/Commit.antt =====
-- `_commit_entities` of scion_sdk/ingest/_stream_paging.py with a batch size: what it has submitted
-- when it ends.
use agent_connector_sdk.Base.{
  ℕ, ◌≤◌, String, ◌≡◌, refl, sym, ◌⊎◌, inl, inr, arith, Bool, true, false, not, ◌&&◌, ◌||◌, Option,
  none, some, List, [], ◌∷◌, ◌++◌, length, append_assoc, append-nil, Bool-cases, Result, ok, err,
  pure, ◌>>=◌, Ends, Leads, Leads-bind, Leads-pure,
}
use agent_connector_sdk.Ingest.Sync.{Counts, no_counts}
use agent_connector_sdk.Ingest.Source.{is_empty}
use agent_connector_sdk.Ingest.Batches.{
  Error, Mapped, Stream, Sent, slices, submit, accepted, submit_batches, entity_set, edge_set,
  cursor_set, add_edges, finish_commit, commit_batches, commit_sized, commit_entities, is_text,
}
use agent_connector_sdk.Ingest.Batches.Coverage.{
  join, are_filled, slices-join, new_entities, new_edges, sent_entities, sent_edges, keep_cursor,
  sent_entities-append, sent_edges-append, keep_cursor-append, after, Answers, submit-Leads,
  accepted-Leads, submit_batches-Leads,
}

module _ {W X D L : Type 0} (stream : Stream W X D L) (mapped : Mapped X D L) where
  abbrev pub IsCovered : Sent W X D L → Type 0
  IsCovered s =
      (sent_entities s.submissions ≡ mapped.entities)
      × (sent_edges s.submissions ≡ mapped.relationships)

  abbrev pub IsOrdered : Sent W X D L → Type 0
  IsOrdered s = (keep_cursor s.submissions ≡ true) ⊎ IsCovered s

  -- What is left of the entities, and of the edges.
  abbrev EntitiesLeft : List (List X) → Sent W X D L → Type 0
  EntitiesLeft batches s =
      (sent_entities s.submissions ++ join batches ≡ mapped.entities)
      × (sent_edges s.submissions ≡ [])
      × (keep_cursor s.submissions ≡ true)

  abbrev EdgesLeft : List (List L) → Sent W X D L → Type 0
  EdgesLeft batches s =
      (sent_entities s.submissions ≡ mapped.entities)
      × (sent_edges s.submissions ++ join batches ≡ mapped.relationships)
      × (are_filled batches ≡ true)
      × (keep_cursor s.submissions ≡ true)

  entity_step :
      (complete : Bool) (batch : List X) (batches : List (List X)) (s : Sent W X D L) (w : W)
      → EntitiesLeft (batch ∷ batches) s
      → EntitiesLeft batches (after stream s (entity_set stream complete batch) true w)
        × IsOrdered (after stream s (entity_set stream complete batch) false w)
  unfolding new_entities new_edges join
  entity_step complete batch batches s w (left, edges, keeps) = (
    (
      rw sent_entities-append
          (rw (append_assoc (sent_entities s.submissions) batch (join batches)) left),
      rw (sent_edges-append, edges) refl,
      rw (keep_cursor-append, keeps) refl,
    ),
    inl (rw (keep_cursor-append, keeps) refl),
  )

  edge_step :
      (complete : Bool) (anchor : X) (batch : List L) (batches : List (List L)) (s : Sent W X D L)
      (w : W)
      → EdgesLeft (batch ∷ batches) s
      → EdgesLeft batches (after stream s (edge_set stream complete anchor batch) true w)
        × IsOrdered (after stream s (edge_set stream complete anchor batch) false w)
  unfolding new_entities new_edges join are_filled
  edge_step complete anchor batch batches s w (entities, left, filled, keeps) =
      let nonempty : is_empty batch ≡ false = ground arith in
      let rest : are_filled batches ≡ true = ground arith in
      (
        (
          rw (sent_entities-append, nonempty)
              (rw (append-nil (sent_entities s.submissions)) entities),
          rw sent_edges-append
              (rw (append_assoc (sent_edges s.submissions) batch (join batches)) left),
          rest,
          rw (keep_cursor-append, keeps) refl,
        ),
        inl (rw (keep_cursor-append, keeps) refl),
      )

  cursor_step :
      (complete : Bool) (anchor : X) (documents : List D) (cursor : Option String)
      (was_accepted : Bool) (s : Sent W X D L) (w : W)
      → IsCovered s
      → IsCovered
          (after stream s (cursor_set stream complete anchor documents cursor) was_accepted w)
  unfolding new_entities new_edges
  cursor_step complete anchor documents cursor true s w (entities, edges) = (
    rw sent_entities-append (rw (append-nil (sent_entities s.submissions)) entities),
    rw sent_edges-append (rw (append-nil (sent_edges s.submissions)) edges),
  )
  cursor_step complete anchor documents cursor false s w (entities, edges) = (
    rw sent_entities-append (rw (append-nil (sent_entities s.submissions)) entities),
    rw sent_edges-append (rw (append-nil (sent_edges s.submissions)) edges),
  )

  finish_commit-Leads :
      (anchor : X) (documents : List D) (cursor : Option String) (complete : Bool) (totals : Counts)
      → Leads IsCovered
          (Answers stream {A = Counts} IsCovered IsOrdered)
          IsOrdered
          (finish_commit stream mapped anchor documents cursor complete totals)
  unfolding finish_commit
  finish_commit-Leads anchor documents cursor complete totals =
      let is_split = not (is_empty mapped.documents) && is_empty documents in
      let last : Leads IsCovered (Answers stream {A = Counts} IsCovered IsOrdered) IsOrdered (
          submit stream false (cursor_set stream complete anchor documents cursor)
          >>= accepted stream (λ _. pure (some totals))) =
        Leads-bind (Answers stream {A = Counts} IsCovered IsOrdered) _ _ _
          (submit-Leads stream _ IsCovered IsCovered IsOrdered λ s w h. (
            cursor_step complete anchor documents cursor true s w h,
            inr (cursor_step complete anchor documents cursor false s w h),
          ))
          (accepted-Leads stream IsCovered IsCovered IsOrdered _
            λ counts. Leads-pure _ (some totals) λ s h. h) in
      elim (Bool-cases (not (is_empty documents) || is_text cursor || (complete && not is_split))) [
        | inl e ↦ rw e last
        | inr e ↦ rw e (Leads-pure _ (some totals) λ s h. h)
      ]

  entities-edges :
      (size : ℕ) (s : Sent W X D L)
      → 1 ≤ size
      → EntitiesLeft [] s
      → EdgesLeft (slices size mapped.relationships) s
  unfolding slices join
  entities-edges size s positive (left, edges, keeps) =
      let (joined, filled) =
        slices-join (length mapped.relationships) size mapped.relationships positive
          (omega arith) in
      (rw (sym (append-nil (sent_entities s.submissions))) left, rw edges joined, filled, keeps)

  edges-IsCovered : (s : Sent W X D L) → EdgesLeft [] s → IsCovered s
  unfolding join
  edges-IsCovered s (entities, left, _, _) =
      (entities, rw (sym (append-nil (sent_edges s.submissions))) left)

  edges-Leads :
      (size : ℕ) (anchor : X) (documents : List D) (cursor : Option String) (complete : Bool)
      (totals : Counts)
      → Leads
          (EdgesLeft (slices size mapped.relationships))
          (Answers stream {A = Counts} IsCovered IsOrdered)
          IsOrdered
          (submit_batches stream
              (edge_set stream complete anchor)
              (add_edges stream)
              totals
              (slices size mapped.relationships)
            >>= accepted stream
                (λ totals. finish_commit stream mapped anchor documents cursor complete totals))
  edges-Leads size anchor documents cursor complete totals =
      Leads-bind (Answers stream {A = Counts} (EdgesLeft []) IsOrdered) _ _ _
        (submit_batches-Leads stream _ _ EdgesLeft IsOrdered (edge_step complete anchor)
          (slices size mapped.relationships) totals)
        (accepted-Leads stream (EdgesLeft []) IsCovered IsOrdered _ λ totals. record {
          at = λ s h.
              (finish_commit-Leads anchor documents cursor complete totals).at s
                (edges-IsCovered s h);
        })

  commit_batches-Leads :
      (size : ℕ) (anchor : X) (documents : List D) (cursor : Option String) (complete : Bool)
      → 1 ≤ size
      → Leads
          (EntitiesLeft (slices size mapped.entities))
          (Answers stream {A = Counts} IsCovered IsOrdered)
          IsOrdered
          (commit_batches stream size anchor mapped documents cursor complete)
  unfolding commit_batches
  commit_batches-Leads size anchor documents cursor complete positive =
      Leads-bind (Answers stream {A = Counts} (EntitiesLeft []) IsOrdered) _ _ _
        (submit_batches-Leads stream _ _ EntitiesLeft IsOrdered (entity_step complete)
          (slices size mapped.entities) no_counts)
        (accepted-Leads stream (EntitiesLeft []) IsCovered IsOrdered _ λ totals. record {
          at = λ s h.
              (edges-Leads size anchor documents cursor complete totals).at s
                (entities-edges size s positive h);
        })

  commit_batches-Answers :
      (size : ℕ) (anchor : X) (documents : List D) (cursor : Option String) (complete : Bool)
      (w : W)
      → 1 ≤ size
      → Ends (Answers stream {A = Counts} IsCovered IsOrdered) IsOrdered (
          commit_batches stream size anchor mapped documents cursor complete
            (record { world = w; submissions = [] }))
  unfolding slices sent_entities sent_edges keep_cursor
  commit_batches-Answers size anchor documents cursor complete w positive =
      let (joined, _) =
        slices-join (length mapped.entities) size mapped.entities positive (omega arith) in
      (commit_batches-Leads size anchor documents cursor complete positive).at _
        (joined, refl, refl)

  commit_entities-batches :
      (size : ℕ) (anchor : X) (others : List X) (documents : List D) (cursor : Option String)
      (complete : Bool)
      → stream.batch_size ≡ some size
      → mapped.entities ≡ anchor ∷ others
      → commit_entities stream mapped documents cursor complete
        ≡ commit_batches stream size anchor mapped documents cursor complete
  unfolding commit_entities commit_sized
  commit_entities-batches size anchor others documents cursor complete sized some_entity =
      rw (commit_entities, sized, some_entity) refl

  -- A result with an entity at least is committed by a stream that has a batch size. If that ends
  -- with counts, then the entity batches that the service accepted are together the entities of the
  -- result, in their order, and the relationships that it accepted are those of the result, in theirs.
  pub commit_entities_complete :
      (size : ℕ) (anchor : X) (others : List X) (documents : List D) (cursor : Option String)
      (complete : Bool) (w : W) (totals : Counts) (s : Sent W X D L)
      → 1 ≤ size
      → stream.batch_size ≡ some size
      → mapped.entities ≡ anchor ∷ others
      → commit_entities stream mapped documents cursor complete
          (record { world = w; submissions = [] })
        ≡ (ok (some totals), s)
      → IsCovered s
  commit_entities_complete size anchor others documents cursor complete w totals s positive sized
        some_entity committed =
      let same =
        commit_entities-batches size anchor others documents cursor complete sized some_entity in
      rw (sym same, committed) at
        (commit_batches-Answers size anchor documents cursor complete w positive)

  -- A result with an entity at least is committed by a stream that has a batch size. However that
  -- ends, with counts, unaccepted or with an exception: a set that moves the cursor was submitted
  -- only if the service has accepted all entities and all relationships of the result.
  pub commit_entities-IsOrdered :
      (size : ℕ) (anchor : X) (others : List X) (documents : List D) (cursor : Option String)
      (complete : Bool) (w : W)
      → 1 ≤ size
      → stream.batch_size ≡ some size
      → mapped.entities ≡ anchor ∷ others
      → IsOrdered
          (commit_entities stream mapped documents cursor complete
            (record { world = w; submissions = [] })).1
  commit_entities-IsOrdered size anchor others documents cursor complete w positive sized
        some_entity =
      let same =
        commit_entities-batches size anchor others documents cursor complete sized some_entity in
      rw same (any _ (commit_batches-Answers size anchor documents cursor complete w positive))
    where
      any :
          (r : Result Error (Option Counts) × Sent W X D L)
          → Ends (Answers stream {A = Counts} IsCovered IsOrdered) IsOrdered r
          → IsOrdered r.1
      any (ok (some totals), s) h = inr h
      any (ok none, s) h = h
      any (err e, s) h = h
