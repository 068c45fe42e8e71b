-- ===== src/Runner/Tests.antt =====
-- The witnesses of the properties of a sync pass, at a stream of two pages.
use agent_connector_sdk.Base.{
  Bool, Action, ℕ, ◌+◌, String, true, false, none, some, [], ◌∷◌, ok, leb, ◌&&◌,
}
use agent_connector_sdk.Runner.Syncing.{
  Error, Receipt, Request, delta, review, SchemaContract, RecordPage, SyncTarget, Ports,
}
use agent_connector_sdk.Runner.Syncing.Pass.{sync_pages}
use agent_connector_sdk.Runner.Syncing.Pass.Chain.{Chained, sync_pages-Chained}

abbrev contract : SchemaContract
contract = record { canonical_schema = "schema"; identifier_fields = "id" ∷ [] }

abbrev target : SyncTarget
target = record {
  connector = "issues";
  max_pages = 2;
  empty_approval = none;
  schema_contract = some contract;
  evolution_policy = review;
  has_stages = false;
}

abbrev page_at : ℕ → RecordPage String String String ℕ
page_at n = record {
  mode = delta;
  strict_schema = true;
  records = "a" ∷ [];
  relationships = [];
  withdrawals = [];
  checkpoint = n;
  live_ids = none;
  exhausted = false;
  schema_contract = some contract;
}

abbrev done : RecordPage String String String ℕ → Bool → Action ℕ Error (Unit {0})
done page accepted n = (ok tt, n)

-- The world is the checkpoint of the next page.
abbrev ports : Ports ℕ String String String ℕ
ports = record {
  digest = λ request. "digest";
  same = λ a b. leb a b && leb b a;
  changes = λ old new policy. [];
  discover =
      λ n. (ok (record { stream = "open"; schema_contract = none; evolution_policy = review }), n);
  paused = none;
  source_status = λ connector stream n. (ok none, n);
  extract = λ checkpoint n. (ok (page_at n), n + 1);
  submit = λ request n. (
    ok (record {
      batch_digest = "digest";
      accepted_checkpoint = request.provider_checkpoint;
      mode = request.mode;
      affected_count = 1;
    }),
    n,
  );
  finish_page = some done;
}

sync_pages-Chained_example :
    Chained ports target none
      (sync_pages ports 2 "open" target none 0 0 0
        (record { world = 1; submissions = []; extracted = [] })).1.submissions
sync_pages-Chained_example = sync_pages-Chained ports target none 2 "open" 1

abbrev receipt_of : Request String String String ℕ → Receipt ℕ
receipt_of request = record {
  batch_digest = "digest";
  accepted_checkpoint = request.provider_checkpoint;
  mode = request.mode;
  affected_count = 1;
}
