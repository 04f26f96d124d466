-- ===== src/Cli/Diff.antt =====
-- src/deska/cli/CliCommands_DiffRebase.cpp: the order of modifications, their three-way merge into
-- the file that the user edits, and the removal of child deletions.
pub mod Compare
pub mod Converters
pub mod Children
mod Cleared
pub mod Merge
mod Steps
mod Visits
mod Sides
mod Attributes
mod Ours
mod Finish
mod Tests
