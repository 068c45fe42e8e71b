-- ===== src/Ingest/Tests.antt =====
-- The witnesses of the properties of stream paging, at a source of two pages.
use agent_connector_sdk.Base.{
  ℕ, ◌+◌, String, ◌≡◌, refl, true, false, Option, none, some, List, [], ◌∷◌, Result, ok, Action,
  pure, lift, ◌>>=◌,
}
use agent_connector_sdk.Ingest.Sync.{
  Error, Counts, Continuation, ended, at, cursored, Stream, remember_cursor, map_records,
  commit_page, sync_page, fetch, sync_round, sync,
}
use agent_connector_sdk.Ingest.Sync.Progress.{Advances, sync_round-Advances, sync_total}

abbrev fingerprint : String → String
fingerprint cursor = cursor

-- The service counts what it accepts, and the world counts its calls.
abbrev stream : Stream ℕ String
stream = record {
  mappers = ("issue", λ records. ok (record { entities = records; documents = [] })) ∷ [];
  has_document_binding = false;
  accepted_cursor = λ calls. (ok none, calls);
  mapped = λ mapped cursor calls. (ok (some (record { nodes = 1; edges = 0 })), calls + 1);
  submit_cursor = λ cursor calls. (ok (some (record { nodes = 0; edges = 0 })), calls + 1);
}

abbrev two_pages : Option String → Action ℕ Error (List String × Continuation)
two_pages none calls = (ok ("a" ∷ [], at "p2"), calls)
two_pages (some cursor) calls = (ok ("b" ∷ [], ended), calls)

sync_round-Advances_example : Advances fingerprint 8 [] "p2" ("p2" ∷ [])
unfolding sync_round fetch remember_cursor sync_page map_records commit_page pure lift ◌>>=◌
sync_round-Advances_example =
    sync_round-Advances fingerprint 8 stream "issue" (cursored two_pages) none [] ("p2" ∷ [])
      (some (record { nodes = 1; edges = 0 })) "p2" 0 refl

sync_total_example :
    (out : Result Error Counts × ℕ) × (sync fingerprint 8 stream "issue"
        (cursored two_pages)
        true
        none
        0
      ≡ some out)
sync_total_example = sync_total fingerprint 8 stream "issue" (cursored two_pages) true none 0
