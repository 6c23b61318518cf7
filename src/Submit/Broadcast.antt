-- ===== src/Submit/Broadcast.antt =====
-- crates/wormhole-svm-submit/src/lib.rs: `broadcast_vaa`, the whole flow. The source runs it over an
-- RPC client, which is one `SolanaConnection`; its progress messages are left out.
pub mod Flow
pub mod Unsent
pub mod Signing
pub mod Returns
use wormhole_svm_utils.Prelude.{
  ℕ, Bool, true, false, ◌==◌, list_eq, any, List, Result, ok, err, panic,
}
use wormhole_svm_utils.Prelude.Bytes.{Bytes, to_be_bytes}
use wormhole_svm_utils.Solana.{Pubkey}
use wormhole_svm_utils.Submit.Connection.{Sdk, SolanaConnection, Exec, ◌>>=◌, ◌>>◌, lift}
use wormhole_svm_utils.Submit.Protocol.{
  Protocol, InstructionGroup, SubmitError, execution, shim_not_used,
}
use wormhole_svm_utils.Submit.Resolve.{ResolverResult, resolve_execute_vaa_v1}
use wormhole_svm_utils.Submit.Execute.{uses, execute_instruction_groups}
use wormhole_svm_utils.Submit.Signatures.{Shim, PostedSignatures, post_signatures, close_signatures}

abbrev pub max_resolver_iterations : ℕ
max_resolver_iterations = 10

-- What the source takes from wormhole-svm-definitions.
pub record Definitions : Type 0 where
  pub find_guardian_set_address : Bytes → Pubkey → Pubkey × ℕ
  pub verify_vaa_shim_program_id : Pubkey

-- `if let Err(_) = close` and then the result that was kept; a panic goes on as a panic.
abbrev pub after : {X A T : Type 0} → Result X A → Result X (Unit {0}) × T → Result X A × T
after result (ok _, s) = (result, s)
after result (err _, s) = (result, s)
after result (panic, s) = (panic, s)

-- A call's end, and then `close` whether the call returned or failed.
abbrev pub then_close :
    {X A T : Type 0} → Result X A × T → (T → Result X (Unit {0}) × T) → Result X A × T
then_close (ok a, t) close = after (ok a) (close t)
then_close (err e, t) close = after (err e) (close t)
then_close (panic, t) close = (panic, t)

module _ (P : Protocol) (D : Definitions) (shim : Shim) {S : Sdk} (W : SolanaConnection S) where
  abbrev pub Failure : Type 0
  Failure = SubmitError W.Error P.DecodeError

  -- Whether an instruction names the placeholder of the signatures account.
  unfoldable pub uses_shim : List InstructionGroup → Bool
  uses_shim groups = any (uses P.resolver_pubkey_shim_vaa_sigs) groups

  module _ (payer : S.Keypair) (guardian_set_index : ℕ) (guardian_signatures : List Bytes)
      (guardian_set : Pubkey) where
    -- What follows the resolution.
    unfoldable pub broadcast_resolved : ResolverResult → Exec W.State Failure (List S.Signature)
    broadcast_resolved resolved s = elim (uses_shim resolved.instruction_groups) [
      | false ↦ lift (err (execution shim_not_used)) s
      | true ↦
          (post_signatures shim W payer D.verify_vaa_shim_program_id guardian_set_index
                guardian_signatures
              >>= λ posted t.
                  then_close
                    (execute_instruction_groups P W payer resolved.instruction_groups posted.pubkey
                      guardian_set t)
                    (close_signatures shim W payer D.verify_vaa_shim_program_id posted.pubkey))
            s
    ]

  unfoldable pub broadcast_vaa :
      S.Keypair → Pubkey → ℕ → Bytes → List Bytes → Pubkey → Exec W.State Failure (List S.Signature)
  broadcast_vaa payer program_id guardian_set_index vaa_body guardian_signatures core_bridge =
      let guardian_set =
        (D.find_guardian_set_address (to_be_bytes 4 guardian_set_index) core_bridge).0 in
      resolve_execute_vaa_v1 P W program_id payer vaa_body guardian_set max_resolver_iterations
      >>= λ resolved.
          broadcast_resolved payer guardian_set_index guardian_signatures guardian_set resolved
