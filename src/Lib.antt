-- ===== src/Lib.antt =====
-- Wacht: the server's monitoring, its store, webhooks and requests, and the buffer and scheduler
-- of the probe.
--
-- The program. Probes run checks and report results and heartbeats to a server. The server keeps
-- the truth in memory (internal/monitoring): a machine per probe, a machine per pair of check and
-- probe, and a machine per check that takes a majority vote, decides what is stable, and opens
-- and closes incidents. Every accepted change is written to a store (internal/store) before it is
-- kept, and two sweepers expire what has become old. After a restart the memory is built again
-- from the store. The store also holds the webhooks that a change of an incident owes; workers
-- (internal/alert) claim, send and retry them. What probes send and what users ask comes through
-- internal/server.
--
-- The files.
--   Shared and its children: lists, texts, maps as association lists (the order of the list is
--     the order of `range`), Go's integers and instants, and `Action`, a method that changes its
--     receiver and may fail.
--   Checks.antt: internal/checks/check.go, the record `Check`.
--   Proto.antt: internal/proto, check.go and result.go.
--   Alert/Payload.antt: internal/alert/webhook.go, the payload.
--   Store/Writes.antt: the values of internal/store/monitoring.go and incident_notifications.go,
--     and the store as a record of operations over a state of any type. It stands for the
--     interfaces heartbeatStore, resultBatchStore, sweeperStore and recoveryStore; each call may
--     fail and may change the state in any way.
--   Store/Tables.antt: the tables of internal/store/migrations/000001_init.up.sql as lists of
--     records.
--   Store/Connection.antt: Go's database/sql as the store uses it: statements, and transactions,
--     which put the tables back when the body or the commit fails, or the body returns before the
--     commit. A connection holds which of its next statements fail for reasons of their own, so
--     that every theorem speaks of any such failures.
--   Store/CheckId.antt: check_identity.go.
--   Store/CheckStates.antt, MonitoringWrites.antt, Recovered.antt: monitoring.go: the state of an
--     assignment, PersistMonitoringBatch, the queries of recovery, and `monitoring_store`, which
--     fills the record of Store/Writes.antt.
--   Store/Notifications.antt, Deliveries.antt: incident_notifications.go: incidents that open and
--     are resolved, and webhooks that are claimed, delivered and put off.
--   Store/CheckRows.antt: store.go, the checks.
--   Store/AccountRows.antt, Accounts.antt: auth.go, the statements and the calls.
--   Store/Probes.antt: probes.go. SHA-256 is a parameter, and random texts are arguments.
--   Alert/Sender.antt: internal/alert/sender.go, one attempt and one round of a worker.
--   Server/Errors.antt, ProbeProcessor.antt: internal/server/errors.go and probe_processor.go.
--   Server/AuthProcessor.antt: internal/server/auth_processor.go.
--   Server/RateLimiter.antt, ClientIp.antt: internal/server/auth.go.
--   Monitoring/Types.antt: types.go, machine_types.go, and the errors of runtime.go.
--   Monitoring/Stateless.antt: the library github.com/qmuntal/stateless, which the repository
--     does not hold: `fire` is a parameter with two laws, that the one permitted transition is
--     made, and that a trigger without one is refused.
--   Monitoring/ProbeMachine.antt, CheckMachine.antt, QuorumMachine.antt: probe_machine.go,
--     check_machine.go and quorum_machine.go, method by method. `Recompute` is cut into `tally`
--     (the loop), `decide_state`, `promote` and `incident_after` (the three fields it sets).
--   Monitoring/Ids.antt, Runtime.antt: runtime.go, uniqueIDs and the type Runtime with its
--     methods.
--   Monitoring/Heartbeat.antt: ApplyHeartbeat of heartbeat.go.
--   Monitoring/Notice.antt, Result.antt, Batch.antt: result.go: what an incident writes, the
--     result of one probe with its rollback, and ApplyResultBatch.
--   Monitoring/ProbeSweep.antt, CheckSweep.antt: SweepProbes and SweepChecks of sweepers.go.
--   Monitoring/Recovery.antt: LoadRuntime of recovery.go.
--   Monitoring/Reachable.antt: the critical sections as steps, in any order and with any store.
--   Probe/Api.antt: internal/api/probe/client.go, IsRetryablePostResultsError.
--   Probe/Batcher.antt: cmd/wacht-probe/result_batcher.go, function by function;
--     Probe/Batcher/Flow.antt: its calls as steps, where results are enqueued while a batch is
--     uploaded.
--   Probe/Scheduler.antt: cmd/wacht-probe/scheduler.go, Reconcile and Close on the running
--     workers. A worker is the number of workers started before it.
--   Tests and its children: concrete runs.
-- The modules below a component hold its lemmas: `Fire`, `Streak`, `Votes`, `Incidents`,
-- `WellFormed`, `Methods`, `Degradation`, `Effect`, `Expiry`, `Rollback`, `Atomicity`, `Down`,
-- `Kept`, `Silent`, `Complete`, `Restored`, `Unique`, `Bounds`, `Ordered`, `Enqueued`,
-- `Answered`, `Order`, `Shutdown`, `Rounds`, `Settled`, `Latest`, `Accounted`, `Updates`,
-- `Rollback`, `Rules`, `Leaving`, `Atomic`, `RoundTrip`, `Together`, `Consistent`, `Statements`,
-- `Opening`, `Resolving`, `Work`, `Deleting`, `Persisting`, `Lifecycle`, `Live`, `Backoff`,
-- `Dispatch`, `Vouched`, `Normalized`, `AllOrNothing`, `Admitted`, `Chosen`, `Once`,
-- `Credentials`, `Seeded`, `Active`, `Login`.
--
-- How the code is read. A method holds the lock of the runtime from its first statement to its
-- last, so it is one step; a sweep takes the lock anew for each probe or assignment, so its round
-- is a step. A method that changes its receiver is an `Action`: it returns the receiver also
-- beside an error, so a change that an error leaves behind is seen. A nil runtime or store is
-- `none`.
--
-- Bounds. The loops go through lists, but for flushPendingForShutdown, which gets fuel; more
-- rounds than there are results in the buffer are enough, since a round that goes on takes at
-- least one. An instant is a number of nanoseconds since Go's zero time, without an upper bound;
-- the product of an interval and two seconds and the shift that delays a retry wrap at 64 bits as
-- in Go. Streaks and counts are unbounded: each grows by one for a result.
--
-- SQL. A statement is a function on the tables with the meaning of its text; constraints are
-- errors. Columns hold instants to the nanosecond here, where Postgres keeps microseconds; texts
-- have no character 0; a text sorts by its code points, and a payload stays the text that it was.
-- The clock stands still during a call. A transaction runs alone.
--
-- Not modelled: the HTTP handlers, the loop and the shutdown of the webhook workers, the network
-- policy, the execution of checks, configuration, logging and the mock targets, which are input
-- and output around this core; JSON, bcrypt, UUIDs, address parsing and random tokens, which are
-- parameters; and the zone of an instant.
pub mod Shared
pub mod Checks
pub mod Proto
pub mod Store
pub mod Server
pub mod Alert
pub mod Monitoring
pub mod Probe
pub mod Tests
