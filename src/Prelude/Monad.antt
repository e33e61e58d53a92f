-- ===== src/Prelude/Monad.antt =====
-- Go's `(value, error)` results, run-time panics, and calls that also change a state.
mod Defs
mod Preserving
mod Inversion
unfoldable pub use Defs.*
pub use Preserving.*
pub use Inversion.*
