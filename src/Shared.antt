-- ===== src/Shared.antt =====
-- The shared vocabulary: the sentinel errors (internal/repository/errors.go and the others that
-- handlers compare with `errors.Is`), and money.
mod Errors
pub mod Money
pub use Errors.*
