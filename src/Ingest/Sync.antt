-- ===== src/Ingest/Sync.antt =====
-- scion_sdk/ingest/_stream_paging.py, `sync`, and the offset paging of paging.py: each page is
-- committed with the cursor of the next. `R` is the type of records, `W` the world of the source
-- and of the ingest service.
pub mod Progress
use agent_connector_sdk.Base.{
  ℕ, zero, suc, ◌+◌, String, Bool, true, false, not, ◌&&◌, Option, none, some, List, [], ◌∷◌,
  length, ltb, leb, contains, str_eq, if◌then◌else◌, Result, ok, err, bind, or_raise, require,
  Action, pure, raise, lift, ◌>>=◌, ◌>>◌,
}
use agent_connector_sdk.Base.Dict.{Dict, get}

-- IngestError by its message; `source_error` is what the source, a mapper or the service raises.
pub data Error : Type 0 where
  bad_max_pages not_text repeated history_limit unsupported_kind split_documents not_accepted :
      Error
  no_records bad_offset source_error : Error

pub record Counts : Type 0 where
  pub nodes : ℕ
  pub edges : ℕ

-- `_add`
abbrev pub add : Counts → Counts → Counts
add left right = record { nodes = left.nodes + right.nodes; edges = left.edges + right.edges }

abbrev pub no_counts : Counts
no_counts = record { nodes = 0; edges = 0 }

-- What a mapper makes of records, as far as `_sync_page` looks at it.
pub record Mapped (R : Type 0) : Type 0 where
  pub entities : List R
  pub documents : List R

-- The next cursor as `fetch_page` returns it: None, a text, or something else.
pub data Continuation : Type 0 where
  ended malformed : Continuation
  at : String → Continuation

abbrev pub continuation : Option String → Continuation
continuation none = ended
continuation (some cursor) = at cursor

pub record CursorStrategy (R : Type 0) : Type 0 where
  pub first : Option String
  pub advance : List R → Option String → Result Error (Option String)

-- How pages come: with their cursor, or without it and a strategy that finds it.
pub data Pages (W R : Type 0) : Type 0 where
  cursored : (Option String → Action W Error (List R × Continuation)) → Pages W R
  by_strategy : CursorStrategy R → (Option String → Action W Error (List R)) → Pages W R

-- The stream and the ingest service that `sync` calls: `mapped` and `submit` of the stream answer
-- `none` where the service did not accept the page.
pub record Stream (W R : Type 0) : Type 0 where
  pub mappers : Dict (List R → Result Error (Mapped R))
  pub has_document_binding : Bool
  pub accepted_cursor : Action W Error (Option String)
  pub mapped : Mapped R → Option String → Action W Error (Option Counts)
  pub submit_cursor : String → Action W Error (Option Counts)

abbrev pub is_empty : {A : Type 0} → List A → Bool
is_empty [] = true
is_empty (x ∷ xs) = false

-- `OffsetCursor`: `int_of` is `int`, which may raise, and `text_of` is `str`.
-- `int(cursor or 0)`: no cursor and an empty one are 0.
abbrev pub offset_of : (String → Option ℕ) → Option String → Result Error ℕ
offset_of int_of none = ok 0
offset_of int_of (some text) = if str_eq text "" then ok 0 else or_raise (int_of text) bad_offset

unfoldable pub offset_cursor :
    {R : Type 0} → (String → Option ℕ) → (ℕ → String) → (page_size : ℕ) → CursorStrategy R
offset_cursor int_of text_of page_size = record {
  first = some "0";
  advance = λ records cursor.
      if ltb (length records) page_size
      then ok none
      else bind (offset_of int_of cursor) λ offset. ok (some (text_of (offset + length records)));
}

module _ (fingerprint : String → String) (max_cursor_history : ℕ) where
  -- `_remember_cursor`: the fingerprints seen, with that of a new continuation.
  unfoldable pub remember_cursor :
      List String → Continuation → Result Error (Option String × List String)
  remember_cursor seen ended = ok (none, seen)
  remember_cursor seen malformed = err not_text
  remember_cursor seen (at cursor) =
      if contains (fingerprint cursor) seen
      then err repeated
      else if leb max_cursor_history (length seen)
      then err history_limit
      else ok (some cursor, fingerprint cursor ∷ seen)

  module _ {W R : Type 0} (stream : Stream W R) (kind : String) where
    -- `_mapper`
    unfoldable pub map_records : List R → Result Error (Mapped R)
    map_records records =
        bind (or_raise (get kind stream.mappers) unsupported_kind) λ mapper. mapper records

    accepted : Option Counts → Action W Error (Option Counts)
    accepted none = raise not_accepted
    accepted (some counts) = pure (some counts)

    -- An empty page still has its cursor committed.
    commit_empty : Option String → Action W Error (Option Counts)
    unfolding accepted
    commit_empty none = pure none
    commit_empty (some cursor) = do
      counts ← stream.submit_cursor cursor
      accepted counts >>= λ _. pure none

    unfoldable pub commit_page : List R → Mapped R → Option String → Action W Error (Option Counts)
    unfolding accepted commit_empty
    commit_page records mapped next_cursor =
        if stream.has_document_binding && not (is_empty mapped.documents)
        then raise split_documents
        else if not (is_empty mapped.entities && is_empty mapped.documents)
        then (stream.mapped mapped next_cursor >>= accepted)
        else if not (is_empty records)
        then raise no_records
        else commit_empty next_cursor

    -- `_sync_page`
    unfoldable pub sync_page : List R → Option String → Action W Error (Option Counts)
    unfolding map_records commit_page
    sync_page records next_cursor =
        lift (map_records records) >>= λ mapped. commit_page records mapped next_cursor

    unfoldable pub fetch : Pages W R → Option String → Action W Error (List R × Continuation)
    fetch (cursored fetch_page) cursor = fetch_page cursor
    fetch (by_strategy strategy fetch_page) cursor = do
      records ← fetch_page cursor
      next_cursor ← lift (strategy.advance records cursor)
      pure (records, continuation next_cursor)

    -- A page: what it counted, the next cursor, and the fingerprints seen.
    unfoldable pub sync_round :
        Pages W R
        → Option String
        → List String
        → Action W Error (Option Counts × Option String × List String)
    unfolding remember_cursor sync_page fetch
    sync_round pages cursor seen = fetch pages cursor >>= λ (records, next).
        lift (remember_cursor seen next) >>= λ (next_cursor, seen').
        sync_page records next_cursor >>= λ counts. pure (counts, next_cursor, seen')

    abbrev pub Loop : Type 0
    Loop = Option String → List String → ℕ → Counts → W → Option (Result Error Counts × W)

    abbrev pub is_spent : Option ℕ → ℕ → Bool
    is_spent none pages = false
    is_spent (some max_pages) pages = leb max_pages pages

    abbrev pub add_counts : Counts → Option Counts → Counts
    add_counts totals none = totals
    add_counts totals (some counts) = add totals counts

    unfoldable pub after_round :
        Loop
        → ℕ
        → Counts
        → Result Error (Option Counts × Option String × List String) × W
        → Option (Result Error Counts × W)
    after_round rest pages totals (err e, w) = some (err e, w)
    after_round rest pages totals (ok (counts, next_cursor, seen), w) = elim next_cursor [
      | none ↦ some (ok (add_counts totals counts), w)
      | some cursor ↦ rest (some cursor) seen (suc pages) (add_counts totals counts) w
    ]

    -- The loop of `sync`: a page for each unit of fuel.
    unfoldable pub sync_pages : Pages W R → Option ℕ → ℕ → Loop
    unfolding sync_round after_round
    sync_pages source max_pages zero cursor seen pages totals w = none
    sync_pages source max_pages (suc fuel) cursor seen pages totals w =
        let next =
          after_round (sync_pages source max_pages fuel) pages totals
            (sync_round source cursor seen w) in
        if is_spent max_pages pages then some (ok totals, w) else next

    abbrev pub first_cursor : Pages W R → Option String → Option String
    first_cursor (by_strategy strategy fetch_page) none = strategy.first
    first_cursor _ cursor = cursor

    abbrev pub first_seen : Option String → List String
    first_seen none = []
    first_seen (some cursor) = fingerprint cursor ∷ []

    abbrev is_positive : Option ℕ → Bool
    is_positive none = true
    is_positive (some max_pages) = leb 1 max_pages

    resumed : Bool → Action W Error (Option String)
    resumed resume = if resume then stream.accepted_cursor else pure none

    sync_after :
        Pages W R
        → Option ℕ
        → ℕ
        → Result Error (Option String) × W
        → Option (Result Error Counts × W)
    unfolding sync_pages
    sync_after source max_pages fuel (err e, w) = some (err e, w)
    sync_after source max_pages fuel (ok cursor, w) =
        let first = first_cursor source cursor in
        sync_pages source max_pages fuel first (first_seen first) 0 no_counts w

    -- `sync`. Each page but the last adds to the history of cursors, so two pages more than the
    -- limit of the history are enough.
    unfoldable pub sync :
        Pages W R → (resume : Bool) → Option ℕ → W → Option (Result Error Counts × W)
    unfolding resumed sync_after
    sync source resume max_pages w =
        if is_positive max_pages
        then sync_after source max_pages (max_cursor_history + 2) (resumed resume w)
        else some (err bad_max_pages, w)
