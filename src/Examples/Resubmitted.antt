-- ===== src/Examples/Resubmitted.antt =====
-- A VAA submitted under `with_vaa`, over a toy LiteSVM that runs the program.
use wormhole_svm_utils.Prelude.{
  ℕ, ◌≡◌, refl, Bool, false, ◌==◌, list_eq, nat_eq, if◌then◌else◌, any, List, [], ◌∷◌, ◌++◌, concat,
  Result, ok, err,
}
use native.Mathlib.Decide.{ℕ_discrete}
use wormhole_svm_utils.Prelude.Bytes.{Bytes, to_be_bytes, to_le_bytes}
use wormhole_svm_utils.Solana.{Instruction}
use wormhole_svm_utils.Guardian.{sign_vaa_body, sign_body, sign, copy_at}
use wormhole_svm_utils.Vaa.{body, guardian_signatures}
use wormhole_svm_utils.Submit.Signatures
use wormhole_svm_utils.Submit.Signatures.{Shim}
use wormhole_svm_utils.LiteSvm.{LiteSvm}
use wormhole_svm_utils.LiteSvm.Mainnet.{Mainnet}
use wormhole_svm_utils.LiteSvm.Modified.{update_at, wrong_sequence, wrong_chain, wrong_address}
use wormhole_svm_utils.LiteSvm.Checks
use wormhole_svm_utils.LiteSvm.Checks.{TestError, with_vaa, with_vaa_unchecked, World}
use wormhole_svm_utils.Submit.Resolve.{
  round, resolve_execute_vaa_v1, add_missing, interpret, resolver_ix, resolver_data, resolve_loop,
  missing_meta, substitute_placeholder,
}
use wormhole_svm_utils.Submit.Execute.{
  discover_keypairs, execute_instruction_groups, convert_instruction, convert_account,
  keypair_placeholders, execute_each, execute_group, group_transaction, substitute, discover_among,
}
use wormhole_svm_utils.LiteSvm.Submitting
use wormhole_svm_utils.LiteSvm.Submitting.{broadcast_vaa, submission}
use wormhole_svm_utils.LiteSvm.Submitting.Checked.{Submits, broadcast_vaa-Submits}
use wormhole_svm_utils.Examples.Signing.{vaa}
use wormhole_svm_utils.Examples.Toy.{toy_sdk, definitions, Sent, toy_protocol}
use wormhole_svm_utils.Examples.Environment.{toy_svm}
use wormhole_svm_utils.Examples.Checked.{sum_crypto, signers, posting_shim, last_data, start}

-- The virtual machine runs the program of the resolved group: it refuses to run it twice, or with
-- other signatures than the VAA's.
abbrev runs_program : List Instruction → Bool
runs_program [] = false
runs_program (ix ∷ ixs) = ix.program_id == 50 ∷ []

abbrev ran : Sent → Bool
ran txs = any (λ (tx : List Instruction × List ℕ). runs_program tx.0) txs

abbrev strict_svm : LiteSvm toy_sdk
strict_svm = record toy_svm {
  send_transaction = λ tx svm.
      if runs_program tx.0
      then if ran svm
        then (err 3, svm)
        else if last_data svm == concat (guardian_signatures sum_crypto vaa signers)
        then (ok tt, svm ++ (tx ∷ []))
        else (err 1, svm)
      else (ok tt, svm ++ (tx ∷ []));
}

abbrev pub mainnet : Mainnet
mainnet = record {
  core_bridge_program_id = 62 ∷ [];
  core_bridge_config = 63 ∷ [];
  core_bridge_fee_collector = 64 ∷ [];
  post_message_shim_program_id = 65 ∷ [];
}

abbrev submitted : Result (TestError strict_svm (Unit {0}) Bytes ℕ) (List ℕ) × World strict_svm
submitted =
    broadcast_vaa toy_protocol strict_svm (λ e. []) definitions mainnet posting_shim sum_crypto 20
      (50 ∷ []) signers 0 vaa start

submitted_ok :
    broadcast_vaa toy_protocol strict_svm
      (λ e. [])
      definitions
      mainnet
      posting_shim
      sum_crypto
      {I = ℕ}
      20
      (50 ∷ [])
      signers
      0
      vaa
      start
    ≡ (ok (2 ∷ []), submitted.1)
unfolding broadcast_vaa submission Submitting.resolve_execute_vaa_v1 with_vaa Checks.negative_test
    Checks.on_clone Checks.post_signatures Signatures.post_signatures Checks.fail_if_ok list_eq body
    to_be_bytes Signatures.build_post_signatures_ix guardian_signatures sign_vaa_body sign_body sign
    copy_at wrong_sequence Checks.when wrong_chain wrong_address ℕ_discrete Checks.close_signatures
    Checks.closed Checks.is_non_replayable Checks.positive_test Checks.send_close update_at
    Signatures.build_close_signatures_ix to_le_bytes nat_eq resolve_execute_vaa_v1 resolve_loop
    round interpret resolver_ix add_missing missing_meta substitute_placeholder resolver_data
    execute_instruction_groups execute_each execute_group group_transaction convert_instruction
    convert_account substitute discover_keypairs discover_among keypair_placeholders
submitted_ok = refl

broadcast_vaa-Submits_example :
    Submits toy_protocol strict_svm
      (λ e. [])
      definitions
      mainnet
      posting_shim
      sum_crypto
      ℕ
      20
      (50 ∷ [])
      signers
      0
      vaa
      (2 ∷ [])
      start
      submitted.1
broadcast_vaa-Submits_example =
    broadcast_vaa-Submits toy_protocol strict_svm (λ e. []) definitions mainnet posting_shim
      sum_crypto ℕ 20 (50 ∷ []) signers 0 vaa (2 ∷ []) start submitted.1 submitted_ok
