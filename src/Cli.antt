-- ===== src/Cli.antt =====
-- crates/wormhole-svm-cli/src/main.rs: the command `svm-vaa`.
pub mod SignedVaa
pub mod Errors
pub mod Address
pub mod Input
pub mod Commands
