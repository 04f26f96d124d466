-- ===== src/Cli/Ui.antt =====
-- src/deska/cli/UserInterface.cpp: the confirmation of signals and the loop over the lines of the user.
mod State
mod Confirm
mod Apply
mod Run
mod Wired
mod Detached
mod Loop
mod Tests
