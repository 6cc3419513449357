-- ===== src/Lib.antt =====
-- Work Engine: a verification library for the core of the app server (app-server/src).
--
-- The app server keeps roles of an agent team running across reloads of its own code. The parts
-- modelled here, and how they interact:
--
-- * Pressure (context-pressure-controller.mjs) turns observations of context use into one of four
--   dispositions, with hysteresis. Pressure.antt holds the policy, the observations and the
--   controller, whose operation is `observe`.
-- * Generation (executable-generation-store.mjs, executable-generation-manager.mjs,
--   run-extension-bundle-contract.mjs) replaces the executable generation. Generation/Store.antt and
--   Generation/Reloads.antt are the durable store: each operation reads the state of the file and
--   returns what it writes, and `write` is the lock round it. Generation/Admission.antt,
--   Generation/Advance.antt and Generation/Jobs.antt are the manager: admissions pin work to a
--   generation, a reload request raises a fence and takes the substrate token, and what the manager
--   then awaits of the store is a queue of jobs, one for each write, run in the order of the store's
--   write tail. `advance` goes from one write to the next (Generation/Stages.antt names where it
--   stands); what follows `#reopen`, the retirement of the predecessor, goes on beside that queue, in
--   any order. Generation/Jobs/Machine.antt composes them to a step relation.
-- * Bindings (role-binding-registry.mjs) binds a role to a thread with a revision, and records the
--   deliveries of user messages. Operations are those of FileRoleBindingRegistry.
-- * Coordination (services/workspace-coordination/) leases resources with fencing tokens and admits
--   mutations under a lease. Coordination.antt is the store in memory, Coordination/Sqlite.antt the
--   store in SQLite, Coordination/Service.antt the service over the store in memory.
-- * Ledger (context-lifecycle-ledger.mjs) is a chain of entries bound by revisions. Ledger.antt holds
--   the entries and their checks, Ledger/Values.antt the normalization of their details.
-- * Campaign (services/slice-campaign/) takes a slice of work from acceptance through candidates and
--   reviews to its close. Campaign/Types.antt is the durable state, Campaign/Contract.antt,
--   Campaign/Claims.antt and Campaign/Selections.antt the checks of contract.mjs and of
--   services/claim-evidence/production-path-contract.mjs, Campaign/Stores.antt the store in memory,
--   Campaign/Sqlite.antt the store in SQLite. An operation of service.mjs is a function from the
--   campaign that was read to an `Edit` of it, which Campaign/Publishing.antt publishes; one that
--   waits for another owner has a part before the wait and a part after it.
-- * Lifecycle (active-turn-lifecycle-scheduler.mjs, sqlite-app-server-state.mjs) prepares the reserve
--   of an active turn, with retries. Lifecycle.antt is the table of its rows,
--   Lifecycle/Scheduler.antt the scheduler.
--
-- Conventions. Code that throws returns `Result`: `ok` with the value, `err` with the error. A
-- function's name is the source's in snake case. State that a class keeps is a record that an
-- operation takes and returns. Numbers are natural numbers; where a caller may pass another value,
-- it is a RawNumber; `safe_between` is the test for a safe integer, `integer_from` for an integer.
-- Objects and Maps with text keys are association lists in insertion order. Clocks and fresh
-- identifiers are arguments, as are the answers of callbacks, SHA-256 of a canonical text, the test
-- whether `Date.parse` reads a text and the order of texts. Instants are milliseconds, in Lifecycle
-- texts. Recursion is structural; only the scheduler's run takes fuel, one unit for each round: the
-- retries that a finite limit leaves and one more are enough.
--
-- Not modelled: files, sockets and the database engine; canonical JSON; the owners that the campaign
-- service calls (review closure, candidates, receipts, publication), the transition lease, the hosts,
-- and the parts of the state store that hold other tables.
--
-- Tests holds concrete inputs.
pub mod Common
pub mod Pressure
pub mod Generation
pub mod Bindings
pub mod Coordination
pub mod Ledger
pub mod Campaign
pub mod Lifecycle
pub mod Tests
