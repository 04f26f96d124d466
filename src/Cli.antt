-- ===== src/Cli.antt =====
-- src/deska/cli: the command line client.
pub mod Modification
pub mod Path
pub mod Diff
pub mod Session
pub mod Relations
pub mod Objects
pub mod Signals
pub mod Ui
