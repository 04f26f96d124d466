-- ===== src/Cli/Objects.antt =====
-- src/deska/cli/DbInteraction.cpp: objects named by a context stack, the cache of existing objects, and
-- the modifications that are sent for them.
pub mod Key
pub mod State
pub mod Exists
pub mod Expand
pub mod Nested
pub mod Contained
pub mod Transitive
pub mod Modify
pub mod Context
pub mod Laws
mod Cached
pub mod Changed
mod Restored
mod Expanded
mod Named
pub mod Embedded
mod Created
mod View
mod Histories
pub mod Settled
mod Kept
pub mod Coherence
pub mod Answers
pub mod Example
mod Tests
