-- ===== src/Text.antt =====
-- Go strings as lists of bytes, with the functions of package strings that the modelled code calls.
-- Case is that of ASCII letters: attribute names, domains and keywords are ASCII.
mod Basic
mod Laws
mod Decimal
mod DecimalLaws
unfoldable pub use Decimal.*
pub use DecimalLaws.*
unfoldable pub use Basic.*
pub use Laws.*
