-- ===== src/Policy.antt =====
-- The name policy engine of policy/.
pub mod Labels
pub mod Types
pub mod Mailbox
pub mod Network
pub mod Matching
pub mod Constraints
pub mod Engine
pub mod Entry
pub mod Dedupe
pub mod Build
pub mod Options
mod Examples
mod EngineExamples
