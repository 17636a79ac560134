-- ===== src/Verifier/Bundles.antt =====
-- What a run of `verifyBundle` that returns has done.
pub mod Actions
pub mod Keeping
pub mod Settled
pub mod Decided
pub mod Backed
