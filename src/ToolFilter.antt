-- ===== src/ToolFilter.antt =====
-- A group's filter as the dashboard holds it, and what it sends (web/src/lib/tool-filter.ts).
mod Unique
mod Parse
unfoldable pub use Unique.*
unfoldable pub use Parse.*
pub mod Defs
pub mod RoundTrip
pub mod Stored
pub mod Meaning
pub mod Problem
mod Tests
pub mod Edits
pub mod Clamp
