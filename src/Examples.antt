-- ===== src/Examples.antt =====
-- examples/ and scripts/: the mock server and its client, the demo, and the script that tampers with a log.
pub mod Server
pub mod Post
pub mod Client
pub mod Files
pub mod Calls
pub mod Tamper
pub mod Demo
pub mod Sequence
pub mod Replaced
pub mod Attested
