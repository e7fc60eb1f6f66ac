-- ===== src/Os.antt =====
-- The operating system as the Go code meets it: cleaned paths, a tree of files, and the calls of
-- `os`, `path/filepath`, `log` and `time` as functions on a state, with a schedule of faults.
mod Paths
mod Tree
mod Calls
pub mod Reads
pub mod Spares
pub mod Keeps
pub mod Endings
pub mod Appends
pub mod Still
pub mod Room
pub mod Leaves
pub mod Yields
unfoldable pub use Paths.*
unfoldable pub use Tree.*
unfoldable pub use Calls.*
