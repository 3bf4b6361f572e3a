-- ===== src/Factory.antt =====
-- internal/factory: the late materialization of procs. A parsed digest and the rows of its items are
-- arguments. The macro engine is config.Config of github.com/bbockelm/golang-htcondor, a parameter.
-- Proc ids are not negative.
mod Strings
mod Row
mod Engine
mod Bounds
mod Examples
unfoldable pub use Strings.*
unfoldable pub use Row.*
unfoldable pub use Engine.*
