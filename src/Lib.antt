-- ===== src/Lib.antt =====
-- Vericompute: a market for computing jobs whose results are verified.
--
-- A buyer describes a job (packages/job-spec), providers offer machines (packages/pricing) or bid
-- (apps/scheduler), a provider runs the job (executors, agents/provider-node) and signs a receipt
-- (packages/receipts), and a verifier checks it (packages/verification, apps/verifier), records its
-- decision and sends it to the chain, which settles the escrow.
--
-- The files, and the code that each models:
--   Prelude            what the modules share: Boolean tests, lists, error results (`throw` is
--                      `err`), integers, texts by code points, hexadecimal bytes, sorting
--   Json               JSON values and the schema library's checks that the code uses
--   Policies           packages/verification/policies.ts
--   JobSpec            packages/job-spec/index.ts: `jobSpecSchema` is `JobSpec.Parse.parse`,
--                      `superRefine` is `JobSpec.Refine.refine_checks`
--   ExecutionPolicy    packages/policy/index.ts
--   Opa                packages/policy/opa.ts: a run over the child's and the timer's events
--   Pricing            packages/pricing/index.ts
--   Receipts           packages/receipts/index.ts
--   Verification       packages/verification: Receipt (index.ts), Redundancy, Challenge,
--                      Attestation and Proof
--   Scheduler          apps/scheduler/src: Select, Leases (the table of
--                      migrations/20260911120000_v2-orchestration.sql behind insforge-leases.ts)
--                      and Coordinator
--   Storage            packages/storage/index.ts
--   Verifier           apps/verifier/src/verify.ts: Evidence, Decide and Settle are the three
--                      stages of `verifyBundle`; Daemon is a pass of daemon.ts
--   Indexer            apps/indexer/src/indexer.ts: Rows is `project`, Tables the database function
--                      of migrations/20260910113000_agent-policies.sql, Reconcile, Prices and
--                      History the methods of the class
--   AgentPolicy        packages/agent-policy/index.ts
--   Benchmark          packages/benchmark/index.ts
--   ReleaseReadiness   packages/release-readiness/index.ts
--   Journal            agents/provider-node/journal.ts
--   MockBackend        executors/mock/index.ts
--   Provider           agents/provider-node/cli.ts, the commands execute and recover: Challenge and
--                      Bundle are what they send and store, Execute the commands
--   Samples, Tests     values that the tests share, and the theorems at concrete values
--
-- A field or function has the source's name in snake case. Where the source mutates a table, a map
-- or a file, the model's function takes it and returns it; `verifyBundle`, the
-- indexer's methods and the worker's commands are actions on a record of their tables, which keep the writes made before an
-- exception. Times and amounts are natural numbers, or integers where the code subtracts; a number
-- that may be no integer is `Prelude.Int.Number`. Telemetry is whole numbers.
--
-- What is not under the repository is an argument: `Receipts.Libraries` (hashes, signatures, base
-- 58 and 64, canonical JSON, the uuid format), `Verifier.Services` (chain, bucket, indexer),
-- `Indexer.Reconcile.Services` (chain, decoder, whether the database takes a write),
-- `Provider.Services` (chain, API, the executors behind their interface), the attestation tool, the proof tool, what `JSON.parse` makes of the policy server's output, clocks and random
-- values. The theorems hold for all of them, but for those that name what the
-- chain lists and two that name documented behaviour of the libraries: `Receipts.Laws.IsKeyPair` and
-- `WritesHashes`, with `Provider.Honest.IsReliable` and `AgentPolicy.Proofs.IsCollisionFree`.
--
-- Recursion is on the data, with two exceptions. The rounds of the allowlist tree run on as much
-- fuel as there are leaves; each round shortens the level, so that is enough. The pages of the
-- indexer's history run on fuel too; a page holds a transaction or is the last one, so more fuel
-- than there are transactions is enough.
--
-- Not modelled: the API, the SDK, the provider's daemon and hardware detection, the container
-- executors, the reputation score (floating point), the web application, the scripts, and the
-- on-chain program.
pub mod Prelude
pub mod Json
pub mod Policies
pub mod JobSpec
pub mod Receipts
pub mod ExecutionPolicy
pub mod Pricing
pub mod Verification
pub mod Scheduler
pub mod Storage
pub mod Verifier
pub mod ReleaseReadiness
pub mod Benchmark
pub mod AgentPolicy
pub mod Indexer
pub mod Journal
pub mod MockBackend
pub mod Opa
pub mod Provider
pub mod Samples
mod Tests
