-- ===== src/Workflow.antt =====
-- The parts together, in the flows that crates/wormhole-svm-test/tests run: the closures that
-- tests/verify_vaa_example.rs hands to `with_vaa`.
pub mod Emission
pub mod Delivery
pub mod Running
pub mod Skipping
pub mod Verifying
use wormhole_svm_utils.Prelude.{ℕ, List, [], ◌∷◌, Option, none, some, Result, panic, map_err}
use wormhole_svm_utils.Prelude.Bytes.{Bytes}
use wormhole_svm_utils.Solana.{Pubkey, Instruction}
use wormhole_svm_utils.Submit.Connection.{Sdk, Exec}
use wormhole_svm_utils.Verifier.{
  VerifierDeps, build_verify_vaa_instruction, build_skip_verify_instruction,
}
use wormhole_svm_utils.LiteSvm.{LiteSvm}
use wormhole_svm_utils.LiteSvm.Checks.{World}

-- `tx_failed` is the text of `format!("tx failed: {:?}", e)`.
module _ {S : Sdk} (L : LiteSvm S) (tx_failed : L.Failure → Bytes) where
  unfoldable pub send_signed : Option S.Transaction → Exec (World L) Bytes (Unit {0})
  send_signed none s = (panic, s)
  send_signed (some tx) s =
      let (r, svm) = L.send_transaction tx s.0 in (map_err tx_failed r, (svm, s.1))

  -- One instruction in a transaction that the payer signs, sent to the virtual machine.
  unfoldable pub send_instruction : S.Keypair → Instruction → Exec (World L) Bytes (Unit {0})
  unfolding send_signed
  send_instruction payer ix s =
      let blockhash = L.latest_blockhash s.0 in
      send_signed (S.new_signed_with_payer (ix ∷ []) (some (S.pubkey payer)) (payer ∷ []) blockhash)
        s

  module _ (V : VerifierDeps) (payer : S.Keypair) (guardian_set : Pubkey)
      (guardian_set_bump : ℕ) where
    -- The closure of `test_with_vaa_helper`.
    unfoldable pub verify_closure : Pubkey → Bytes → Exec (World L) Bytes (Unit {0})
    unfolding send_instruction
    verify_closure sigs_pubkey vaa_body = send_instruction payer (
        build_verify_vaa_instruction V (S.pubkey payer) guardian_set sigs_pubkey guardian_set_bump
          vaa_body)

    -- The closure of `test_with_vaa_catches_unverified_program`.
    unfoldable pub skip_closure : Pubkey → Bytes → Exec (World L) Bytes (Unit {0})
    unfolding send_instruction
    skip_closure sigs_pubkey vaa_body = send_instruction payer (
        build_skip_verify_instruction V (S.pubkey payer) guardian_set sigs_pubkey guardian_set_bump
          vaa_body)
