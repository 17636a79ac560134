-- ===== src/Tests.antt =====
-- The theorems of the market, the scheduler, the verifier's run and the providers at concrete values.
mod Market
mod Leases
mod Records
mod Indexing
mod Runs
mod Working
mod Accepted
mod Allowlist
