-- ===== src/Scheduler.antt =====
-- apps/scheduler: the choice of a bid, and the lease that makes one scheduler the leader.
pub mod Select
pub mod Leases
pub mod Coordinator
