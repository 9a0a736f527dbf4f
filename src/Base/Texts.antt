-- ===== src/Base/Texts.antt =====
-- Byte strings: the operations, and what they give.
pub mod Defs
pub mod Cut
pub mod Split
unfoldable pub use Defs.*
pub use Split.*
pub use Cut.*
