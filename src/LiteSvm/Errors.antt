-- ===== src/LiteSvm/Errors.antt =====
-- crates/wormhole-svm-test/src/litesvm.rs: the errors of the test crate.
use wormhole_svm_utils.Prelude.{List}
use wormhole_svm_utils.Prelude.Bytes.{Bytes}
use wormhole_svm_utils.Submit.Protocol.{SubmitError}
use wormhole_svm_utils.LiteSvm.{LiteSvmError}

-- What a message of `WormholeTestError::LoadError` says: the operation, and what it prints of the
-- virtual machine's failure (of type `F`) or of the closure's error (of type `E`).
pub data LoadFailure (F E : Type 0) : Type 0 where
  program : Bytes → F → LoadFailure F E
  close_signatures_failed : F → LoadFailure F E
  user_closure_failed vaa_verification_failed closure_failed : E → LoadFailure F E

-- `WormholeTestError`, over the virtual machine's failures, the decoder's and the closure's errors,
-- and `std::io::Error`. The messages of the four failed checks, and the help text, are constants.
pub data WormholeTestError (F D E I : Type 0) : Type 0 where
  program_not_found : Bytes → List Bytes → WormholeTestError F D E I
  io_error : I → WormholeTestError F D E I
  load_error : LoadFailure F E → WormholeTestError F D E I
  verification_bypass : WormholeTestError F D E I
  emitter_chain_bypass : WormholeTestError F D E I
  emitter_address_bypass : WormholeTestError F D E I
  replay_protection_missing : WormholeTestError F D E I
  submit_error : SubmitError (LiteSvmError F) D → WormholeTestError F D E I
