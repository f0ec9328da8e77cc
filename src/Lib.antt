-- ===== src/Lib.antt =====
-- Antigravity Browser: the core of the browser automation server, modelled and verified.
--
-- The program lets an agent drive browsers through an MCP server and an HTTP API, hands a browser
-- over to a human and back, and spreads crawl tasks over workers. The parts modelled here decide
-- who may act, who owns a task, which URL is taken and how much is retained; the parts that speak
-- to a browser, a socket or a disk call them.
--
-- - Lease (src/browser/control-lease.ts): `ControlLeaseManager`. Lease/Types has the records,
--   Lease/Action the state-and-exception monad whose state survives a throw, Lease/Checks the
--   validation of arguments and tokens, Lease/Expiry the constructor, `expireIfDue`, `expireLease`
--   and the timers, Lease/Handoff `requestHandoff`, `takeover`, `release`, `resume` and
--   `recoverExpired`, Lease/Guards the guards that every write of a session passes, and `dispose`.
--   The clock, the random source, SHA-256 and base64url are the fields of the record `Host`. A
--   JavaScript value of unknown type is the data type `JsValue`. The proofs are in Lease/Invariant
--   and Lease/Trace (histories of calls and fired timers), Lease/Authority, Lease/Released, Lease/Tokens,
--   Lease/Deadline and Lease/Protocol.
-- - Tenant (src/distributed/tenant.ts): tenant ids, and the keys of the maps of the queue.
-- - Queue (src/distributed/queue-adapter.ts, src/distributed/types.ts): `MemoryQueueAdapter`.
--   Queue/Types has the records, Queue/Adapter the operations on tasks (`enqueueTask`,
--   `dequeueTask`, `updateTask`, ...), Queue/Claims the claims of URLs, lists and heartbeats. A
--   `Map` is an association list in insertion order (Base/Dictionary). Queue/History has the
--   histories of calls and their invariant, Queue/Pending the queue of keys, Queue/Fencing and
--   Queue/Leases what a worker that holds a task may rely on, Queue/Urls the claims.
-- - Scheduler (src/distributed/scheduler.ts): `submitTask`, `submitBatch`, `cancelTask`,
--   `retryTask` and `getClusterStatus` over the memory queue. Scheduler/Tasks checks and builds
--   records, Scheduler/Submit and Scheduler/Control have the operations, Scheduler/Outcomes,
--   Scheduler/Accepted and Scheduler/Lifecycle the proofs. There the URL policy is a parameter.
-- - Snapshots (src/browser/snapshot-history.ts): the retention of `SnapshotHistory`. Snapshots/Types,
--   Snapshots/Prune and Snapshots/Retain have the state and the operations, Snapshots/Bounds,
--   Snapshots/Calls and Snapshots/Reads the proofs.
-- - Guard (src/mcp/runtime-guard.ts): `McpRuntimeGuard`, its token bucket (Guard/Calls, Guard/Rate)
--   and its metrics (Guard/Metrics).
-- - Team (src/team/access-store.ts): `TeamAccessStore` without its file. Team/Store has the state and
--   the operations, Team/Withdrawn the histories of calls and revocations, Team/Suspended the
--   suspension of members.
-- - Worker (src/distributed/worker-daemon.ts): Worker/Settle has what happens to a task that was
--   executed, by what the execution gave and how the write was answered; Worker/Attempts has the tasks
--   that fail every time.
-- - Targets (src/browser/target-registry.ts): the references to elements of a page. Targets/Types,
--   Targets/Reading and Targets/Semantics have targets, locators and what is read of an element,
--   Targets/Refs the references, Targets/Registry `TargetRegistry` with `register` and `resolve`.
--   Targets/History has the histories of calls, Targets/Bounds, Targets/Lookups and
--   Targets/Resolved the proofs. `opaqueRef` writes its counter with fuel one above it.
-- - Url (src/policy/url-policy.ts, and the host rules of src/config.ts): `UrlPolicy`. Url/Ipv4 and
--   Url/Ipv6 classify addresses, Url/Hosts has the names and the rules, Url/Policy the state, its
--   constructor and the exceptions, Url/Resolve `resolveAllowed`, cut at its `await` so that other
--   calls may run while DNS is asked, and `clearDnsCache`. `isIP`, the URL parser and `domainToASCII`
--   are the record `Net`. The proofs are in Url/Blocks (the registries' blocks), Url/Mapped and
--   Url/Embedded (the parser of IPv6), Url/Wildcards, Url/Allowed, Url/Approval, Url/History
--   (histories of answers), Url/Addresses and Url/Metadata.
-- - Auth (src/auth/tenant-auth.ts, src/auth/totp.ts): Auth/Tenants has `TenantAuthenticator`,
--   Auth/Configured whom its configuration lets in, Auth/Base32 `base32ToBuffer` beside the encoding of
--   RFC 4648, Auth/Secrets that one undoes the other. The bytes of a text are a parameter.
-- - Workflow (src/browser/workflow.ts): the workflows an agent sends. Workflow/Json has values that
--   are not trusted, Workflow/Checks the checks that throw, Workflow/Limits the limits,
--   Workflow/Fields, Workflow/Choices, Workflow/Steps and Workflow/Normalize the validation.
--   Workflow/Status, Workflow/Failures and Workflow/Summary read what the adapter gives,
--   Workflow/Run has a step's calls and Workflow/Loop `runUncached` step by step: the answers of
--   the adapter and the readings of the clock are the record `Turn`, given for each step, and what
--   the run does to the adapter is a list of events. Workflow/Result bounds a result, with
--   `Measures` for the sizes of UTF-8 and for the text of its first bytes, on fuel above `weight` (Workflow/Shrink), which
--   every round makes smaller. Workflow/Execute is a whole run, Workflow/StableJson and
--   Workflow/Fingerprint the text that tells requests apart, Workflow/Cache the executor, and
--   Workflow/Runner (with src/browser/workflow-runner.ts) what calls it. The proofs are in
--   Workflow/Accepted, Workflow/Within and Workflow/Bounded (what is accepted), Workflow/Rounds,
--   Workflow/Stops, Workflow/Quiet, Workflow/Writes, Workflow/Guarded and Workflow/Runs (runs),
--   Workflow/Fits (results), Workflow/Kept and Workflow/Remembered (the memory).
-- - Automation (src/browser/automation-policy.ts): the ceilings of the policies and their parser.
-- - Base: the names shared by all, Boolean tests, lists and texts, dictionaries, amounts.
--
-- The session of a browser holds a control lease and asks its guards before each write; the guard of
-- the MCP server reads the control state of that session. The scheduler writes to the queue that
-- workers take tasks from, and claims a URL before it queues the task for it.
--
-- Texts are lists of UTF-16 code units, times are milliseconds. The loops that evict, prune or
-- search walk the list they consume; on fuel are only the digits of numbers and the bound of a
-- result. Numbers that the code keeps as doubles are natural numbers; a number that a caller gives
-- stands by its floor (Base/Amounts), and `not_finite` is also NaN where the code treats the two
-- alike; the limits of the registry of targets and the durations of the guard keep NaN apart. The
-- guard's tokens are exact, in ten-thousandths of a call, with rates in tenths of a call per second.
-- A generated id and a reading of the clock are arguments.
--
-- Not modelled: the browser sessions, launchers, the HTTP and MCP servers, the Redis adapter, the
-- polling and the shutdown of the worker, and all other input and output; the parts of the
-- scheduler that only forward to the adapter; the normalisation and the diff of snapshots; the walk
-- over a page that registers its elements; the texts of error messages.
pub mod Auth
pub mod Automation
pub mod Base
pub mod Guard
pub mod Lease
pub mod Queue
pub mod Scheduler
pub mod Snapshots
pub mod Targets
pub mod Team
pub mod Tenant
pub mod Url
pub mod Worker
pub mod Workflow
