-- ===== src/Queue.antt =====
-- internal/queue: the job queue, its transactions, its authorization and the queue actions.
pub mod State
pub mod AuthzConfig
pub mod TxnState
pub mod Authz
pub mod Txn
pub mod Commit
mod Permission
pub mod Materialized
mod Aftermath
mod Forced
pub mod Open
mod Deleted
mod Staging
pub mod Actions
mod ActionRules
pub mod Sched
pub mod Factory
mod FactoryLaws
mod ActionAds
mod ActionEffects
pub mod Sample
mod Examples
mod ActionExamples
mod FactoryExamples
