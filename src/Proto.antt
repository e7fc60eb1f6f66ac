-- ===== src/Proto.antt =====
-- The messages of proto/baselineintegrity/v1 (common.proto, trust.proto, telemetry.proto) that the
-- Go code reads or builds, and how it compares them. A message field is an `Option`, nil being
-- `none`; a scalar is its value, empty or 0 when it is not set. Unknown fields are left out.
mod Messages
mod Equality
unfoldable pub use Messages.*
unfoldable pub use Equality.*
