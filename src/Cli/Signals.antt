-- ===== src/Cli/Signals.antt =====
-- src/deska/cli/ParserSignals.cpp and .h: the signals of the parser for one line, which are confirmed by
-- the user one after the other and applied after that.
pub mod Interface
pub mod Handler
pub mod Reached
mod Balanced
mod Tests
