-- ===== src/ClassAd.antt =====
-- The ClassAd library, github.com/PelicanPlatform/classad, as far as the schedd's sources use it. It
-- is not part of the repository, so it is a parameter: the operations in `ClassAdLib`, and what the
-- sources rely on in `ClassAdLaws`.
mod Interface
pub mod Sample
pub use Interface.*
