-- ===== src/Lib.antt =====
-- Verification of the connector SDK's core logic: governed write-back and its sinks, pagination,
-- retries, the paging and sync of streams and sources, entitlements and payments.
--
-- Write-back (scion_sdk/writeback) changes one entity of a source system on behalf of an approved
-- change set. `GovernedWriteBack` (service.py) calls the ports: the clock, the authorization
-- verifier, the optional proof gate, the audit reservation and the transport.
-- `DurableWritableConnector` (connector.py) runs it over a ledger of receipts, from which it finds
-- out after a restart whether an effect may have happened (recovery.py).
-- - WriteBack/Contract: the records that are exchanged. `Contract` holds the code of the package
--   epistemic_graph, json and hashlib as parameters: digests, encodings and equality.
-- - WriteBack/Validation: validation.py and dry_run_binding.py.
-- - WriteBack/Ports, WriteBack/Governed: service.py. A port call is a function of a world, and may
--   raise. The state is `_unresolved`, the world, and the history of port calls, which the code
--   does not keep and the statements are about. Governed/Trace has the rules for histories,
--   Guard, Once, Unresolved, Answers and Reconciled what they give.
-- - WriteBack/Common, WriteBack/Memory: _transport_common.py and memory.py.
-- - WriteBack/FileTransport: durable_transport.py. `earlier` has the files before each write, which
--   the code does not keep: where the process stops, it leaves one of them.
-- - WriteBack/Recovery, WriteBack/Ledger: recovery.py, durable_ledger.py and `receipt_page`.
-- - WriteBack/Connector: connector.py and inflight.py.
--
-- The sinks (scion_sdk/writeback_sinks/core.py) are the entry for whole target systems:
-- `run_writeback` decides whether a sink is refused, previewed, queued for approval or executed.
-- Sinks has the registry and the results, Sinks/Run the decision; `execute_governed`, which runs one
-- sink through the governed service, is a port.
--
-- Pagination (scion_sdk/httpsupport) walks the pages of an HTTP collection within budgets.
-- - HttpSupport/Values: pagination_page.py, the origins of pagination_walk.py and http/pagination.py.
-- - HttpSupport/Walk: pagination_walk.py and pagination_tokens.py, in all modes.
-- - HttpSupport/Iteration: pagination.py and pagination_iteration.py.
--
-- Retries (scion_sdk/http/retry.py, scion_sdk/resilience.py) are Http/Retry and Http/Resilience.
--
-- Stream paging (scion_sdk/ingest/_stream_paging.py, `sync`, and the offset paging of paging.py) is
-- Ingest/Sync; the submission of a page is an interface of it. Ingest/Batches is `mapped` and
-- `_commit_entities`, which submit a mapped page in batches.
--
-- The sync of declared sources (scion_sdk/ingest/source_sync.py and its parts) reads pages of a
-- source tool, submits its new records in batches and stores a checkpoint after each.
-- - Ingest/Source: the state of a run, `_take` and `_flush`. The ports (session, ingest service,
--   checkpoint store, clock) are functions of a world. `accepted` and `stored` are history that the
--   code does not keep: the records that an accepted call of `submit` was given, and the last
--   checkpoint. Handed and Marks say which pending records such a call is given.
-- - Ingest/Source/Sweep: the pages, the budget, the handling of errors, and `sync`.
--
-- The sync pass of a worker (scion_sdk/runner/syncing.py) commits each page of a stream before it
-- reads the next. Runner/Syncing has its records and requests, Runner/Syncing/Pass the loop, the
-- receipts, the drift check and the callbacks of ports/page_completion.py. `submissions` and
-- `extracted` are history that the code does not keep. The checkpoints and the
-- equality of them are the engine's, a parameter, as is the comparison of two schemas.
--
-- Entitlements (scion_sdk/entitlements.py) are Access/Entitlements: which tools and resources a
-- caller's capabilities reach. Payments (payments.py, _payment_guard.py) are Access/Payments.
--
-- Base has the shared names: tests, lists, dictionaries in insertion order, results, actions.
--
-- Bounds and fuel. The recovery loop has a page of fuel for each receipt and one more; each page
-- but the last consumes a receipt with a higher number. The sweep has as many pages of fuel as the
-- page budget, which the code itself enforces. `sync` has two pages more than the limit of its
-- history of cursors, which each page but the last adds to. The page loop of a source has as many
-- rounds as `max_pages` and one that stops. `_handle_sync_error` calls itself when its flush fails,
-- which the code does not bound; the results hold for each depth. A sync pass of the runner has as
-- many rounds as `max_pages`. A list has at most as many slices as elements. Numbers are unbounded,
-- as in Python.
--
-- Not modelled: coroutines of one connector that interleave within a call (the claims in flight
-- refuse a second one for a key), floats (a parameter with the operations used), urllib, json,
-- hashlib and the clock (parameters), the scan of the Link header (a parameter), the asynchronous
-- twin of the sweep, the fan-out of `for_each` over a parent source, and the comparison of two JSON
-- schemas (a parameter). The other packages of the SDK are clients of third-party frameworks or
-- mappings of vendors' data.
pub mod Base
pub mod WriteBack
pub mod HttpSupport
pub mod Http
pub mod Ingest
pub mod Access
pub mod Sinks
pub mod Runner
