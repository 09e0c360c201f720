-- ===== src/Life.antt =====
-- The life of a job (job.go, and the operations of enqueue.go, claim.go, lease.go and resolve.go).
pub mod Abstract
pub mod Moves
pub mod Acts
pub mod Writes
pub mod Simulation
pub mod History
pub mod Resolution
pub mod Lease
