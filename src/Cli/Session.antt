-- ===== src/Cli/Session.antt =====
-- The changeset that the user works in: the commands of src/deska/cli/CliCommands.cpp that start,
-- resume, commit, detach and abort it, and rebase of src/deska/cli/CliCommands_DiffRebase.cpp.
pub mod Interface
mod Commands
pub mod Rebase
pub mod Triples
mod Laws
mod Calls
mod Rebased
mod Single
mod Agrees
mod Tests
