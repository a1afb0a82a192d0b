-- ===== src/Cli.antt =====
-- cmd/pupptyeer: the parts of the command line program that compute.
pub mod Keys
pub mod Matcher
pub mod Args
pub mod Load
pub mod Expect
pub mod AttachLoop
pub mod ExpectLoop
pub mod Ctl
mod Tests
mod RunTests
