-- ===== src/Submit/Signatures.antt =====
-- crates/wormhole-svm-submit/src/signatures.rs: the account of guardian signatures, posted and
-- closed. The instruction encodings of the shim's crate are parameters.
use wormhole_svm_utils.Prelude.{ℕ, ◌%◌, ◌^◌, List, [], ◌∷◌, length, some, ok, panic, ok_or}
use wormhole_svm_utils.Prelude.Bytes.{Bytes}
use wormhole_svm_utils.Solana.{Pubkey, Instruction}
use wormhole_svm_utils.Submit.Connection.{Sdk, SolanaConnection, Exec, ◌>>=◌, lift, draw, map_error}
use wormhole_svm_utils.Submit.Protocol.{SubmitError, connection}

-- `PostSignatures { .. }.instruction()`, with `PostSignaturesData::new` of an index, a number and the
-- signatures, and `CloseSignatures { .. }.instruction()`.
pub record Shim : Type 0 where
  pub post_signatures_instruction : Pubkey → Pubkey → Pubkey → ℕ → ℕ → List Bytes → Instruction
  pub close_signatures_instruction : Pubkey → Pubkey → Pubkey → Instruction

pub record PostedSignatures (S : Sdk) : Type 0 where
  pub keypair : S.Keypair
  pub pubkey : Pubkey

module _ (shim : Shim) where
  unfoldable pub build_post_signatures_ix : Pubkey → Pubkey → Pubkey → ℕ → List Bytes → Instruction
  build_post_signatures_ix payer guardian_signatures_keypair verify_vaa_shim guardian_set_index
        signatures =
      shim.post_signatures_instruction verify_vaa_shim payer guardian_signatures_keypair
        guardian_set_index (length signatures % 2 ^ 8) signatures

  unfoldable pub build_close_signatures_ix : Pubkey → Pubkey → Pubkey → Instruction
  build_close_signatures_ix verify_vaa_shim guardian_signatures refund_recipient =
      shim.close_signatures_instruction verify_vaa_shim guardian_signatures refund_recipient

  module _ {S : Sdk} (W : SolanaConnection S) {D : Type 0} where
    unfoldable pub post_signatures :
        S.Keypair
        → Pubkey
        → ℕ
        → List Bytes
        → Exec W.State (SubmitError W.Error D) (PostedSignatures S)
    post_signatures payer verify_vaa_shim guardian_set_index signatures = do
      guardian_sigs_keypair ← draw W.new_keypair
      blockhash ← map_error connection W.get_latest_blockhash
      tx ← lift (
          ok_or
            (S.new_signed_with_payer
              (build_post_signatures_ix (S.pubkey payer) (S.pubkey guardian_sigs_keypair)
                  verify_vaa_shim guardian_set_index signatures
                ∷ [])
              (some (S.pubkey payer)) (payer ∷ guardian_sigs_keypair ∷ []) blockhash)
            panic)
      _ ← map_error connection (W.send_and_confirm tx)
      lift
          (ok (record { keypair = guardian_sigs_keypair; pubkey = S.pubkey guardian_sigs_keypair }))

    unfoldable pub close_signatures :
        S.Keypair → Pubkey → Pubkey → Exec W.State (SubmitError W.Error D) (Unit {0})
    close_signatures payer verify_vaa_shim signatures_pubkey = do
      blockhash ← map_error connection W.get_latest_blockhash
      tx ← lift (
          ok_or
            (S.new_signed_with_payer
              (build_close_signatures_ix verify_vaa_shim signatures_pubkey (S.pubkey payer) ∷ [])
              (some (S.pubkey payer)) (payer ∷ []) blockhash)
            panic)
      _ ← map_error connection (W.send_and_confirm tx)
      lift (ok tt)
