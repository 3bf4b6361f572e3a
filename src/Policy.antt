-- ===== src/Policy.antt =====
-- internal/policy/policy.go: the user job policy, from its expressions to a decision.
mod Types
mod Eval
mod Analyze
mod Rules
mod Safety
mod Examples
pub use Types.*
unfoldable pub use Eval.*
unfoldable pub use Analyze.*
