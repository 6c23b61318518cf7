-- ===== src/Submit.antt =====
-- crates/wormhole-svm-submit: submitting a VAA through the executor-account-resolver protocol.
pub mod Connection
pub mod Protocol
pub mod Resolve
pub mod Execute
pub mod Signatures
pub mod Broadcast
pub mod Rpc
