-- ===== src/Ingest/Batches.antt =====
-- `mapped` and `_commit_entities` of scion_sdk/ingest/_stream_paging.py: the result of a mapping is
-- submitted in batches. `X`, `D` and `L` are the types of entities, documents and relationships.
pub mod Coverage
mod Tests
use agent_connector_sdk.Base.{
  ℕ, zero, suc, ◌+◌, String, Bool, true, false, not, ◌&&◌, ◌||◌, Option, none, some, List, [], ◌∷◌,
  ◌++◌, length, take, drop, str_eq, if◌then◌else◌, Result, ok, err, Action, pure, raise, ◌>>=◌,
  ◌>>◌,
}
use agent_connector_sdk.Ingest.Sync.{Counts, add, no_counts}
use agent_connector_sdk.Ingest.Source.{is_empty}

-- An IngestError: nothing to ingest, or what `submit` raises.
pub data Error : Type 0 where
  nothing_to_ingest submit_error : Error

pub record Mapped (X D L : Type 0) : Type 0 where
  pub entities : List X
  pub documents : List D
  pub relationships : List L

-- `ChangeSet`, with the fields that a mapped result fills.
pub record ChangeSet (X D L : Type 0) : Type 0 where
  pub entities : List X
  pub documents : List D
  pub relationships : List L
  pub cursor : Option String
  pub preserve_cursor : Bool
  pub source_page : Bool

-- What `_StreamBase.__init__` keeps, and `submit`, for the document binding or the stream's own,
-- which answers `none` where the set was not accepted.
pub record Stream (W X D L : Type 0) : Type 0 where
  pub batch_size : Option ℕ
  pub has_document_binding : Bool
  pub best_effort : Bool
  pub submit : (to_documents : Bool) → ChangeSet X D L → W → Result Error (Option Counts) × W

-- A submission, with whether the service accepted it.
pub record Submission (X D L : Type 0) : Type 0 where
  pub set : ChangeSet X D L
  pub was_accepted : Bool

-- The submissions so far, in order; the code does not keep them.
pub record Sent (W X D L : Type 0) : Type 0 where
  pub world : W
  pub submissions : List (Submission X D L)

abbrev pub is_accepted : Result Error (Option Counts) → Bool
is_accepted (ok (some counts)) = true
is_accepted _ = false

abbrev pub Job : Type 0 → Type 0 → Type 0 → Type 0 → Type 0 → Type 0
Job W X D L A = Action (Sent W X D L) Error A

-- `xs[start : start + size]` for each start in `range(0, len(xs), size)`.
slices_from : {A : Type 0} → ℕ → ℕ → List A → List (List A)
slices_from zero size xs = []
slices_from (suc fuel) size [] = []
slices_from (suc fuel) size (x ∷ xs) =
    take size (x ∷ xs) ∷ slices_from fuel size (drop size (x ∷ xs))

-- A step of `size`, which is positive, reaches the end in as many slices as there are elements.
unfoldable pub slices : {A : Type 0} → ℕ → List A → List (List A)
unfolding slices_from
slices size xs = slices_from (length xs) size xs

abbrev is_text : Option String → Bool
is_text none = false
is_text (some cursor) = not (str_eq cursor "")

module _ {W X D L : Type 0} (stream : Stream W X D L) where
  -- The call of `self.submit`, whose size check, projection and best effort are behind the port.
  unfoldable pub submit : Bool → ChangeSet X D L → Job W X D L (Option Counts)
  submit to_documents change_set s =
      let (r, w) = stream.submit to_documents change_set s.world in
      let submission : Submission X D L = record {
        set = change_set;
        was_accepted = is_accepted r;
      } in
      (r, record { world = w; submissions = s.submissions ++ (submission ∷ []) })

  -- The rest of a method after a submission: it returns None where the set was not accepted.
  abbrev pub accepted :
      {A : Type 0} → (Counts → Job W X D L (Option A)) → Option Counts → Job W X D L (Option A)
  accepted next none = pure none
  accepted next (some counts) = next counts

  -- A loop over batches, which adds the counts.
  unfoldable pub submit_batches :
      {B : Type 0}
      → (B → ChangeSet X D L)
      → (Counts → Counts → Counts)
      → Counts
      → List B
      → Job W X D L (Option Counts)
  unfolding submit
  submit_batches change_set count totals [] = pure (some totals)
  submit_batches change_set count totals (batch ∷ batches) =
      submit false (change_set batch)
      >>= accepted (λ counts. submit_batches change_set count (count totals counts) batches)

  abbrev pub entity_set : Bool → List X → ChangeSet X D L
  entity_set complete batch = record {
    entities = batch;
    documents = [];
    relationships = [];
    cursor = none;
    preserve_cursor = true;
    source_page = complete;
  }

  abbrev pub edge_set : Bool → X → List L → ChangeSet X D L
  edge_set complete anchor batch = record {
    entities = anchor ∷ [];
    documents = [];
    relationships = batch;
    cursor = none;
    preserve_cursor = true;
    source_page = complete;
  }

  abbrev pub cursor_set : Bool → X → List D → Option String → ChangeSet X D L
  cursor_set complete anchor documents cursor = record {
    entities = anchor ∷ [];
    documents = documents;
    relationships = [];
    cursor = cursor;
    preserve_cursor = false;
    source_page = complete;
  }

  -- Of an edge batch only the edges are counted.
  abbrev pub add_edges : Counts → Counts → Counts
  add_edges totals counts = record { nodes = totals.nodes; edges = totals.edges + counts.edges }

  -- The last submission of `_commit_entities`, if there is anything for it.
  unfoldable pub finish_commit :
      Mapped X D L → X → List D → Option String → Bool → Counts → Job W X D L (Option Counts)
  unfolding submit
  finish_commit mapped anchor documents cursor complete totals =
      let is_split = not (is_empty mapped.documents) && is_empty documents in
      let last =
        submit false (cursor_set complete anchor documents cursor)
        >>= accepted (λ _. pure (some totals)) in
      if not (is_empty documents) || is_text cursor || (complete && not is_split)
      then last
      else pure (some totals)

  -- `_commit_entities` with a batch size, whose first entity is the anchor.
  unfoldable pub commit_batches :
      ℕ → X → Mapped X D L → List D → Option String → Bool → Job W X D L (Option Counts)
  unfolding submit_batches finish_commit slices
  commit_batches size anchor mapped documents cursor complete =
      submit_batches (entity_set complete) add no_counts (slices size mapped.entities)
      >>= accepted (λ totals.
        submit_batches (edge_set complete anchor) add_edges totals
          (slices size mapped.relationships)
        >>= accepted (λ totals. finish_commit mapped anchor documents cursor complete totals))

  abbrev pub whole_set : Mapped X D L → List D → Option String → Bool → ChangeSet X D L
  whole_set mapped documents cursor complete = record {
    entities = mapped.entities;
    documents = documents;
    relationships = mapped.relationships;
    cursor = cursor;
    preserve_cursor = false;
    source_page = complete;
  }

  commit_sized :
      Option ℕ → List X → Mapped X D L → List D → Option String → Bool → Job W X D L (Option Counts)
  unfolding submit commit_batches
  commit_sized (some size) (anchor ∷ _) mapped documents cursor complete =
      commit_batches size anchor mapped documents cursor complete
  commit_sized _ _ mapped documents cursor complete =
      submit false (whole_set mapped documents cursor complete)

  -- `_commit_entities`
  unfoldable pub commit_entities :
      Mapped X D L → List D → Option String → Bool → Job W X D L (Option Counts)
  unfolding commit_sized
  commit_entities mapped = commit_sized stream.batch_size mapped.entities mapped

  abbrev pub document_set : List D → Option String → ChangeSet X D L
  document_set documents cursor = record {
    entities = [];
    documents = documents;
    relationships = [];
    cursor = cursor;
    preserve_cursor = false;
    source_page = false;
  }

  -- The documents that go to a stream of their own.
  submit_split : List D → Option String → Bool → Counts → Job W X D L (Option Counts)
  unfolding submit
  submit_split documents cursor is_split totals =
      let split =
        submit true (document_set documents cursor)
        >>= accepted (λ counts. pure (some (add totals counts))) in
      if is_split then split else pure (some totals)

  -- `mapped`
  unfoldable pub submit_mapped : Mapped X D L → Option String → Bool → Job W X D L (Option Counts)
  unfolding commit_entities submit_split
  submit_mapped mapped cursor complete =
      let is_split = stream.has_document_binding && not (is_empty mapped.documents) in
      let documents : List D = if is_split then [] else mapped.documents in
      let committed =
        commit_entities mapped documents cursor complete
        >>= accepted
            (λ counts. submit_split mapped.documents cursor is_split (add no_counts counts)) in
      let split = submit_split mapped.documents cursor is_split no_counts in
      let refused = if stream.best_effort then pure none else raise nothing_to_ingest in
      if is_empty mapped.entities && is_empty mapped.documents
      then refused
      else if not (is_empty mapped.entities) || not is_split
      then committed
      else split
