-- ===== src/Lib.antt =====
-- Witshield: a model of the parts of the program that decide what happens to a host, with proofs.
--
-- The program is a controller, an agent on each host, and a small privileged helper beside the agent.
-- The agent collects reports and events and queues them while the controller is away; the controller
-- admits and stores them, decides on bans, and sends commands; the helper runs the typed actions of
-- these commands, each with a rollback, and leaves a durable receipt. This development follows that
-- path from the privileged end.
--
-- Base               names and lemmas that the modules share: Boolean tests, lists measured by native
--                    numbers, and maps as association lists.
-- Engine             internal/action/engine.go and types.go. Seal has sealState, openState and the
--                    digests; Lifecycle has the phases of Run (runResult, runApply,
--                    recoverApplyFailure and the switch) on the state Run: the receipt, the
--                    invocation, the host and the number of clock readings; Requests has the
--                    construction of the engine, the guards of Run, and Run itself; Local has the entry
--                    points for local callers. A playbook is a record of functions on a host of any
--                    type. Toy is a playbook for tests.
-- Limits             internal/httpapi/agent_limits.go: Window is windowLimiter, Weighted is
--                    weightedWindowLimiter, SyncGate is syncGate. The first two hold a mutex for the
--                    whole call, so a call is one step; a step of the gate is one critical section or
--                    one operation of the channel, and Interleaving runs goroutines over these steps.
-- Helper             cmd/witshield-helper: Files is the receipt directory; Capacity is ensureCapacity;
--                    Receipts is load, begin, save and write (receipt_cache.go); Server is handle,
--                    handleObservation and authenticate (main.go), and calls the model of Run.
--                    Requests that execute, roll back or confirm hold one mutex, so they are handled
--                    one after the other.
-- Defense            internal/defense/correlator.go: Correlator is ValidatePolicy, Evaluate and
--                    DefaultPolicy.
-- PackagePlan        internal/action/package_plan_guard.go: Names has the patterns of
--                    package_upgrade.go; Plan is parseAPTVersion3Plan; Guard is the validation of the
--                    specification and of the plan, and RunPackagePlanGuard; Files is the reading of
--                    the specification and of the result.
-- Agent              internal/agent/queue.go: Queue is Enqueue, files and Flush.
-- Actions            internal/store, the actions: Tables has the rows; Statement has transactions as
--                    chains of statements and the rules for what all statements keep; Approval and
--                    Transitions are the calls of settings_actions_defense.go on one action; Policy is
--                    the policy actions of action_results.go and PutDefensePolicyAndCancelQueued;
--                    PolicyGrants is PutPolicyGrant and PlanDrafts CreateActionFromResponsePlan
--                    (security_engineer.go); Gate is StartActionCommand; Expiry and Queue are the commands of reports_commands.go
--                    (ExpireStaleActionCommands, EnqueueCommand, ClaimCommands, CompleteCommand), with
--                    the JSON of their audit in Details; Receipt, Submission and Judgement are what
--                    CompleteCommandAndActionWithOutcome believes of a submitted result, and its Honest
--                    takes the receipts of Engine; Completion is what it then writes, and Revocation what
--                    RevokeDevice (auth_devices.go) does to commands and actions; Calls has sequences
--                    of the calls. Lifecycle has the
--                    steps of one action, beside the code; Stop has the race of a stop with the gate.
-- Events             internal/store/security_events.go: Rows has the tables; Trim is the deletion of all
--                    rows but the first ones of an order; Retention is pruneSecurityEventsTx,
--                    AddSecurityEvent and the health signal; Windows is the sliding window of a source
--                    (incrementSecurityEventWindowTx); Calls has sequences of these and of the
--                    deletions of Maintain.
-- Bans               the rest of ProcessSecurityEvent for a counted login failure: Targets has the protected
--                    addresses of internal/action/ip_ban.go; Verdict is the decision, on the bans that
--                    are stored; Process is its writes, on the tables of Actions; Hourly has sequences
--                    of failures.
-- Outbox             internal/store/notification_outbox.go: Leases is the claim, completion, cancellation
--                    and release of a delivery, each transaction a step on the table of rows by id;
--                    Enqueue is enqueueNotificationTx; Exclusion has sequences of these steps. Worker is
--                    the worker of a channel, internal/httpapi/notification_worker.go, over rounds that
--                    name what it meets; Attempts counts what is left for it to do.
--
-- Numbers and texts. Numbers are natural numbers; no code that is modelled subtracts below zero, as
-- times are later than every window is long and SQL has MAX(0, ...) where a count could be less; and
-- the sums of sizes and costs stay far below 2 ^ 63 by the limits that the code checks, so no wrap-around
-- is written out. The counts of failures and bans are counts of rows. Times are natural numbers on
-- one clock, with none or 0 for the zero time where the code tests it.
-- A byte text is a String, and what is hashed is its list of code points.
--
-- Maps are association lists in which a new key is at the end; a loop over a map follows the list. A
-- directory is such a map from names to files.
--
-- Fuel. Only the decimal text of a number uses fuel, one more than the number, which is at least its
-- number of digits. All other functions are structural.
--
-- Parameters. Code outside the repository is a field of a record that the definitions take: JSON, hashes
-- and the clock (Engine.Types.Library, with its documented behaviour in JsonRoundTrip and Framed), JSON
-- and hashes of the receipts (Helper.Files.Codec), the answers of the operating system (Disk, Outside),
-- net (Net), net/netip (Netip), strings and fmt (Text), and the controller behind the network as a function of what was
-- sent before (Outside). The random choice of a map's first key by allowEvicting is a parameter too.
--
-- SQL. A table is a list of rows, which hold decoded JSON and times; a condition of a statement is a
-- Boolean test. Where it matters, primary and foreign keys are constraints that fail a transaction; a
-- fault of the disk, which ends a transaction without effect as well, is left out.
--
-- Not modelled: the concrete playbooks; the rest of the store over SQLite, such as the reports, the
-- incidents and notifications that an event leads to; of a completion with a receipt, the answer to a
-- replay, the notification and the response plan; of a revocation, the status and the tokens of the
-- device; the deletion of old rows by Compact; PutDefensePolicy, which nothing calls, and the enrollment
-- of a device, which may switch its automatic bans off; the settings of notifications
-- (PutNotificationSettings); the errors of entry.Info and of the reading of a receipt in ensureCapacity;
-- the limit of 4 MiB and one byte on what the parser of a plan reads; the HTTP handlers behind the
-- admission guards; the agent's sensors, the check library and scanner, the transports of notifications,
-- the investigation by a language model, the identity and secret layers, and the commands' wiring;
-- contexts and deadlines but for the cancellation that a flush tests; partial files that a failed
-- removal would leave. The receipt cache drops final receipts at its capacity, so a replay long after
-- is no matter of the results below.

pub mod Base
pub mod Engine
pub mod Limits
pub mod Helper
pub mod Defense
pub mod PackagePlan
pub mod Actions
pub mod Events
pub mod Bans
pub mod Agent
pub mod Outbox
