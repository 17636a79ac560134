-- ===== src/Verification.antt =====
-- packages/verification: what a verifier checks of a job's evidence, one module for each level.
mod Tests
pub mod Receipt
pub mod Redundancy
pub mod Challenge
pub mod Attestation
pub mod Proof
