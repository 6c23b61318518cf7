-- ===== src/LiteSvm/Submitting.antt =====
-- crates/wormhole-svm-test/src/resolver.rs: the resolver and the submission of a VAA over LiteSVM,
-- wrapped in the checks of `with_vaa`.
pub mod Checked
use wormhole_svm_utils.Prelude.{ℕ, List}
use wormhole_svm_utils.Prelude.Bytes.{Bytes, to_be_bytes}
use wormhole_svm_utils.Solana.{Pubkey}
use wormhole_svm_utils.Guardian.{Crypto, TestGuardianSet}
use wormhole_svm_utils.Vaa.{TestVaa}
use wormhole_svm_utils.Submit.Connection.{Sdk, Exec, ◌>>=◌, map_error}
use wormhole_svm_utils.Submit.Protocol.{Protocol, SubmitError}
use wormhole_svm_utils.Submit.Resolve
use wormhole_svm_utils.Submit.Resolve.{ResolverResult}
use wormhole_svm_utils.Submit.Execute.{execute_instruction_groups}
use wormhole_svm_utils.Submit.Signatures.{Shim}
use wormhole_svm_utils.Submit.Broadcast.{Definitions}
use wormhole_svm_utils.LiteSvm.{LiteSvm, LiteSvmError, litesvm_connection}
use wormhole_svm_utils.LiteSvm.Mainnet.{Mainnet}
use wormhole_svm_utils.LiteSvm.Checks.{World, TestError, with_vaa}

abbrev pub max_resolver_iterations : ℕ
max_resolver_iterations = 10

-- The text of a `SubmitError` is a parameter, `to_string`.
module _ (P : Protocol) {S : Sdk} (L : LiteSvm S)
    (to_string : SubmitError (LiteSvmError L.Failure) P.DecodeError → Bytes) where
  unfoldable pub resolve_execute_vaa_v1 :
      Pubkey → S.Keypair → Bytes → Pubkey → ℕ → Exec (World L) Bytes ResolverResult
  resolve_execute_vaa_v1 program_id payer vaa_body guardian_set max_iterations =
      map_error to_string (
        Resolve.resolve_execute_vaa_v1 P (litesvm_connection L) program_id payer vaa_body
          guardian_set max_iterations)

  -- The closure that `broadcast_vaa` hands to `with_vaa`.
  unfoldable pub submission :
      Pubkey → S.Keypair → Pubkey → Pubkey → Bytes → Exec (World L) Bytes (List S.Signature)
  unfolding resolve_execute_vaa_v1
  submission program_id payer guardian_set sigs_pubkey vaa_body = do
    resolved ← resolve_execute_vaa_v1 program_id payer vaa_body guardian_set max_resolver_iterations
    map_error to_string (
        execute_instruction_groups P (litesvm_connection L) payer resolved.instruction_groups
          sigs_pubkey guardian_set)

  unfoldable pub broadcast_vaa :
      Definitions
      → Mainnet
      → Shim
      → (C : Crypto) → {I : Type 0} → S.Keypair
      → Pubkey
      → TestGuardianSet C
      → ℕ
      → TestVaa
      → Exec (World L) (TestError L P.DecodeError Bytes I) (List S.Signature)
  unfolding submission
  broadcast_vaa D M shim C payer program_id guardians guardian_set_index v =
      let guardian_set =
        (D.find_guardian_set_address (to_be_bytes 4 guardian_set_index)
          M.core_bridge_program_id).0 in
      with_vaa D shim L C payer guardians guardian_set_index v
        (submission program_id payer guardian_set)
