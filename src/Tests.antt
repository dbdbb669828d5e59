-- ===== src/Tests.antt =====
-- Runs of the code at concrete inputs, in a toy runtime with a toy hash and signature scheme that keep
-- the laws.
mod World
mod Runs
mod Examples
mod Commands
mod Wire
mod Returned
mod Crash
mod Threads
mod Edited
mod Scripts
mod DemoRun
