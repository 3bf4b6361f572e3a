-- ===== src/Sched/Registry.antt =====
-- The registry of running jobs, its gauge and the drain, through every handler of
-- internal/sched/sched.go.
mod Kept
mod Steady
mod Handlers
pub mod Ended
pub mod Registered
mod Recovery
pub mod Gauge
pub mod Drain
