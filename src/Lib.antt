-- ===== src/Lib.antt =====
-- baerly-storage is a document database over an object store. A collection is a few objects: a
-- manifest `current.json`, which readers and maintenance agree on through compare-and-swap, a log of
-- numbered entries `log/<seq>.json`, each created once by the writer that commits it, and snapshots
-- that the compactor folds the log into. Predicates travel as lists of clauses; documents are JSON.
--
-- The files and the code:
--   Common, Common/*: names, Boolean tests, lists, texts, signed and decimal numbers.
--   Errors: packages/protocol/src/errors.ts, the error codes. A call that may throw is a `Result`.
--   Json, Json/*: packages/protocol/src/json.ts, `jsonValueEqual` and `merge`.
--   Query, Query/*: packages/protocol/src/query: the wire form (wire.ts), the scalars
--     (_internals.ts), `matchesWire` (matches.ts), `assertWireSatisfiable` (satisfiable.ts),
--     `mergePredicateWires` (merge.ts) and `validateWire` (validate.ts), which takes any JSON value.
--   Storage, Storage/*: packages/protocol/src/storage/key.ts and memory.ts, the reference object
--     store: its state is the `#objects` map and `#etagCounter`; `get`, `put`, `delete` and `list` are
--     functions from state to state. The calls of other clients are lists of `Op`.
--   CurrentJson, CurrentJson/*: packages/protocol/src/coordination/current-json.ts: the manifest, its
--     shape guard, the transition rules, `casUpdateCurrentJson`, `claimWriter`.
--   Log, Log/*: packages/protocol/src/log-key.ts, and packages/server/src/log-tail.ts (`Log/Tail`),
--     log-retention.ts (`Log/Retention`), log-conflict-adoption.ts (`Log/Adoption`); `Log/Walk` and
--     `Log/Fold` are `walkLogRangeWithBytes` and `foldLogEntriesOnto` of log-walk.ts;
--     `Log/Lsn` is the padded base-32 numbers of packages/protocol/src/types.ts.
--   Writer, Writer/*: packages/server/src/writer.ts, the loop of the committing create in
--     `#singleAttemptCommit`, and in `Writer/Attempt` the attempt around it, from the manifest's read
--     or `#provisionCurrentJson` to `#assertCommitAboveDeleteFloor`. A round has what its one send meets, a
--     `Send`, and the calls of other clients before the create, the readback and the probe.
--   Snapshot, Snapshot/*: packages/server/src/snapshot.ts, `snapshotKey` and `loadSnapshotAsMap`.
--   Compactor, Compactor/*: packages/server/src/compactor.ts, `compact`: the store and the calls of
--     other clients before its reads and writes go in, the store and the outcome come out. SHA-256
--     and the length of an encoded body are parameters. `Compactor` reads and applies the fold,
--     `Compactor/Steps` is the run around it; `Compactor/View` says what readers see with a
--     manifest, `Compactor/Prefix` what a fold applies, `Compactor/Runs` what a run has done,
--     `Compactor/Shown` what other clients may do.
--   GcPending, GcPending/*: packages/protocol/src/coordination/gc-pending.ts: the ledger of objects
--     that wait for their deletion, `casUpdateGcPending` and `mergeGcPending`.
--   Gc, Gc/*: packages/server/src/gc.ts: the keys that it classifies, the arms that drop a candidate and
--     the sweep are in `Gc`, `runGc` on the store in `Gc/Run`. `Date.parse` and `toISOString` are parameters.
--   Implication, Implication/*: packages/server/src/query-planner-implies.ts, `predicateImplies`:
--     the clauses of a field are collected into an `OperatorBundle`, and the query's must prove the
--     filter's (`Implication/Check`).
--   Planner, Planner/*: packages/server/src/query-planner.ts, `planQuery`: the partition of the clauses
--     (`Planner`), the candidates, their ranking and the plan (`Planner/Choice`), what a document that
--     satisfies the predicate has in the fields of the index (`Planner/Walks`), and which filter the
--     index may have (`Planner/Complete`). IndexDefinition is of packages/protocol/src/indexes.ts.
--   Retry, Retry/*: packages/protocol/src/storage/retry.ts, `retryStorageCall`, on a state of the world
--     that the request and the sleep act on.
--   Examples, Examples/*: the theorems at concrete inputs.
--
-- How the parts interact: the manifest's operations run on the store and take as arguments the calls
-- that other clients make between a read and the write that depends on it. The tail search and log
-- retirement run on the same store, retirement through the manifest's compare-and-swap. The
-- compactor reads the log through the tail probe and the walk, and swaps the manifest. The planner asks
-- the implication check about the filters of indexes.
--
-- Numbers, bounds and fuel: sequence numbers, counters and ETags are natural numbers, and the source's
-- numbers are taken to stay below 2^53. A string is its code units. A finite number of a document is
-- counted in units of 2^-1074, the least positive double, which keeps order and equality. Loops
-- without a structural bound run on fuel: `jsonValueEqual` gets the size of its left argument, the
-- galloping probe 17 doublings, which pass the cap of 100000, and the bisection the width of its
-- bracket. The loop of a commit takes a list of rounds, and the cap on probes bounds how many it needs.
-- The theorems on these loops include that the fuel suffices. The retry loop runs on the number of
-- retries that are left, which the options give.
--
-- Simplified: adoption compares two entries as JSON text, here as records, which leaves out the order of
-- keys and members the type does not have. Documents have their own properties only, so that a lookup
-- never sees a prototype. The requests that the source issues together, the deletes of a sweep and the
-- reads of a chunk, go one after the other, and all deletes go; the first failure is the one reported.
--
-- Left out: abort signals, content types and metrics, which no modelled decision depends on; the times
-- that a pass of garbage collection reads off its clock are part of what goes in;
-- the bytes of a body, which is the value that `JSON.parse` gives for it; the remote stores, the HTTP
-- server, the client, the command line and the adapters, which are input and output around the modelled
-- parts; of the writer, the optional integrity walk, guarded inserts, index markers and the
-- dispatch of maintenance; and the keys of indexes, the execution of plans, the
-- normalization of predicates, cursors and the schedule of maintenance, which are the parts not yet in
-- this library.
pub mod Common
pub mod Errors
pub mod Json
pub mod Query
pub mod Storage
pub mod CurrentJson
pub mod Log
pub mod Snapshot
pub mod Compactor
pub mod GcPending
pub mod Gc
pub mod Implication
pub mod Retry
pub mod Planner
pub mod Writer
pub mod Examples
