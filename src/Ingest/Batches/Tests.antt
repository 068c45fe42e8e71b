-- ===== src/Ingest/Batches/Tests.antt =====
-- The witnesses of the properties of batches, at three entities and two relationships in batches of
-- two.
use agent_connector_sdk.Base.{
  ℕ, ◌+◌, String, refl, true, false, some, [], ◌∷◌, ok, arith, ◌>>=◌, pure,
}
use agent_connector_sdk.Ingest.Batches.{
  Mapped, Stream, submit, slices, submit_batches, finish_commit, commit_batches, commit_entities,
}
use agent_connector_sdk.Ingest.Batches.Coverage.Commit.{
  IsCovered, IsOrdered, commit_entities_complete, commit_entities-IsOrdered,
}

abbrev stream : Stream ℕ String String String
stream = record {
  batch_size = some 2;
  has_document_binding = false;
  best_effort = false;
  submit =
      λ to_documents change_set calls. (ok (some (record { nodes = 1; edges = 1 })), calls + 1);
}

abbrev issues : Mapped String String String
issues = record {
  entities = "a" ∷ "b" ∷ "c" ∷ [];
  documents = [];
  relationships = "a-b" ∷ "b-c" ∷ [];
}

commit_entities_complete_example :
    IsCovered stream issues
      (commit_entities stream issues [] (some "p2") true (record { world = 0; submissions = [] })).1
unfolding commit_entities commit_batches submit_batches finish_commit slices submit ◌>>=◌ pure
commit_entities_complete_example =
    commit_entities_complete stream issues 2 "a" ("b" ∷ "c" ∷ []) [] (some "p2") true 0 _ _
      (omega arith) refl refl refl

commit_entities-IsOrdered_example :
    IsOrdered stream issues
      (commit_entities stream issues [] (some "p2") true (record { world = 0; submissions = [] })).1
commit_entities-IsOrdered_example =
    commit_entities-IsOrdered stream issues 2 "a" ("b" ∷ "c" ∷ []) [] (some "p2") true 0
      (omega arith) refl refl
