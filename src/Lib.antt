-- ===== src/Lib.antt =====
-- The runtime kernel of Tego: its state store, coordination, capability versions, process framing
-- and contracts.
--
-- A runtime keeps its state in a store (records, an operation journal, an outbox, a change log),
-- elects leaders and fences stale writers through a coordination provider, plans where and how the
-- components of its deployments run, within the permissions granted to them, and lets workers run
-- calls whose results they keep until these are acknowledged. The modelled files are under
-- packages/ of the repository; a file of this library names at its top what it is about.
--
-- Contracts: contracts/src. Json (json.ts: wire values, serializeWireValue), Identity (identity.ts:
--   the patterns and parseGeneration), Strings and State (state.ts: portable strings, order keys,
--   the data of the store), Diagnostic (the codes that are thrown), Platform (dates and JSON sizes,
--   which the program takes from its platform and the model as a parameter, as it does the JSON and
--   UTF-8 codecs of Framing).
-- Contracts/Permissions: contracts/src/permission.ts and permission-grant.ts, with the gate on calls,
--   runtime/src/permissions/gate.ts. Input and Names read the fields, Canonical is
--   canonicalizePermissionSet, Grant is validatePermissionGrant, Gate is gatePermission. Inputs are
--   plain JSON data; domainToASCII of node is a parameter.
-- Store: drivers-local/src/memory-state-store.ts. Transaction is MemoryTransaction, and
--   Transaction/Callback the client's `work` as a tree of its calls; State is MemoryStateStore with
--   open, close and watch; Commit is #commit (Commit/Checks its checks); Session is transact and
--   read; Outbox is claimOutbox and acknowledgeOutbox; Fencing and System hold what is proved of
--   fences and of whole runs (System/Updates: of what transactions read); Reads has the scans, and
--   Reads/Lookup what they find. A commit, a claim and an acknowledgement are one step each, as the
--   store's commit queue makes them; System interleaves them freely with the beginnings of
--   transactions.
-- Watch: the watch iterators of the store and of local-coordination.ts. A promise is a ticket.
-- Coordination: drivers-local/src/local-coordination.ts, LocalCoordinationProvider.
-- ResultBuffer, Dedupe: transport-websocket/src/result-buffer.ts and capability-dedupe.ts. A result is
--   kept as its wire form (Contracts/Json), in which an object lists its keys as JavaScript does.
-- Framing: executor-node/src/process/framing.ts, the frames between a host and its child process:
--   Bytewise is a machine that takes a byte at a time, which Chunks and RoundTrip build on.
-- Outbound: executor-node/src/process/outbound-writer.ts, ProcessOutboundWriter; Balance has its
--   invariant, Drain its end and Drain/Admission the order in which it serves.
-- Selection: executor-node/src/selection.ts, selectExecutor.
-- Versions: runtime/src/capabilities/version.ts; Parse and Ranges have its parsers and comparators,
--   Order its order.
-- Controller: runtime/src/leadership-controller.ts, LeadershipController: one step for each answer
--   that its loop awaits; Orderly, Handlers and Discipline have the order of its calls, Ending
--   what a stop does.
-- Components: runtime/src/reconcile/component-lifecycle.ts.
-- Reconcile: runtime/src/reconcile/placement.ts (Placement) and plan.ts (Identities, the names of
--   instances and operations; Plan, with Steps for one instance or component and Whole for
--   planReconcile). Legal and Settled hold what is proved of the steps. Placement asks the gate of
--   Contracts/Permissions, and the steps are measured by the table of Components. The SHA-256 digest
--   of a long name is a parameter.
-- WorkerEpochs: transport-websocket/src/state-worker-epoch-allocator.ts, as the work of a transaction
--   of Store (Store/Transaction/Callback); Staged has what it stages, and
--   Increase what its commit does to the stored epoch.
-- Supervisor: runtime/src/driver-supervisor.ts, DriverSupervisor.
-- Recovery: runtime/src/recovery.ts, recoverOperations, over the journal of the memory store
--   (Store/Reads/Paging).
-- Retry, Lifecycle: runtime/src/reconcile/retry.ts and runtime/src/runtime-state.ts.
-- Base: tests, lists, stable sorting, maps in insertion order, texts and thrown errors.
-- Examples: runs on concrete data.
--
-- Numbers: revisions, sequences and epochs are decimal strings or bigints in the source and natural
-- numbers here, without a bound; counts are checked against Number.MAX_SAFE_INTEGER where the source
-- does. The hash of Retry is written out modulo 2 ^ 32. Loops on fuel: the eviction loop of Dedupe
-- runs on the number of entries, and each round removes one; the decoder of Framing runs on the bytes
-- of a chunk, and each round takes one; the complexity check runs on the nodes it may count; the
-- recovery loop takes its rounds as an argument, and one for every 100 entries and one more suffice.
-- A text is a list of UTF-16 code units.
--
-- Not modelled: messages and details of diagnostics, health checks, the stores on SQLite and
-- PostgreSQL (their logic is SQL), processes, threads, sockets and files, the reconciler's
-- own loop, the registry of capability schemas, the capability resolver, the task service and the
-- worker's session.
pub mod Base
pub mod Components
pub mod Contracts
pub mod Store
pub mod Supervisor
pub mod Versions
pub mod Watch
pub mod Framing
pub mod Outbound
pub mod Recovery
pub mod Reconcile
pub mod WorkerEpochs
pub mod Selection
pub mod Controller
pub mod Coordination
pub mod Retry
pub mod Lifecycle
pub mod Dedupe
pub mod ResultBuffer
pub mod Examples
