-- ===== src/Sched.antt =====
-- internal/sched/sched.go: the scheduler core, one goroutine that owns the registry of running jobs
-- and handles events one at a time.
pub mod State
pub mod Runs
pub mod Ads
pub mod Exits
pub mod Teardown
pub mod Periodic
pub mod Sweep
pub mod Handle
pub mod Registry
mod Matching
mod Failures
mod Inert
mod Leases
pub mod RunJob
mod Reports
pub mod Sample
mod Examples
