-- ===== src/Workflow/Skipping.antt =====
-- `with_vaa` over the instruction of the verifier program that verifies nothing:
-- `test_with_vaa_catches_unverified_program` of tests/verify_vaa_example.rs, for every VAA.
use wormhole_svm_utils.Prelude.{ℕ, ◌^◌, ◌<◌, ◌≡◌, refl, sym, subst, List, [], length, ok, err}
use wormhole_svm_utils.Prelude.Bytes.{Bytes}
use wormhole_svm_utils.Solana.{Pubkey, Instruction}
use wormhole_svm_utils.Guardian.{Crypto, TestGuardianSet}
use wormhole_svm_utils.Vaa.{TestVaa, body, guardian_signatures}
use wormhole_svm_utils.Submit.Connection.{Sdk, Exec}
use wormhole_svm_utils.Submit.Signatures.{Shim, PostedSignatures}
use wormhole_svm_utils.Submit.Broadcast.{Definitions}
use wormhole_svm_utils.Verifier.{VerifierDeps, process_instruction, build_skip_verify_instruction}
use wormhole_svm_utils.Verifier.Skip.{process_instruction-build_skip_verify_instruction_data}
use wormhole_svm_utils.LiteSvm.{LiteSvm}
use wormhole_svm_utils.LiteSvm.Errors.{verification_bypass}
use wormhole_svm_utils.LiteSvm.Modified.{wrong_sequence}
use wormhole_svm_utils.LiteSvm.Checks.{World, post_signatures, with_vaa}
use wormhole_svm_utils.LiteSvm.Checks.Fails.{verification, admitted}
use wormhole_svm_utils.LiteSvm.Checks.Fails.Exact.{with_vaa-Fails}
use wormhole_svm_utils.Workflow.{skip_closure}
use wormhole_svm_utils.Workflow.Running.{RunsVerifier, IsSent, four, runs, send_instruction-ok}

module _ (D : Definitions) (shim : Shim) {S : Sdk} (L : LiteSvm S) (tx_failed : L.Failure → Bytes)
    (F I : Type 0) (V : VerifierDeps) (M : RunsVerifier L V) (payer : S.Keypair) where
  module _ (C : Crypto) (guardians : TestGuardianSet C) (guardian_set_index : ℕ) (v : TestVaa)
      (guardian_set : Pubkey) (guardian_set_bump : ℕ) where
    abbrev skip : Pubkey → Bytes → Exec (World L) Bytes (Unit {0})
    skip = skip_closure L tx_failed V payer guardian_set guardian_set_bump

    abbrev pub skip_ix : Pubkey → Bytes → Instruction
    skip_ix sigs vaa_body =
        build_skip_verify_instruction V (S.pubkey payer) guardian_set sigs guardian_set_bump
          vaa_body

    skip_closure-ok :
        (sigs : Pubkey) (vaa_body : Bytes) (s : World L) (tx : S.Transaction)
        → length vaa_body < 2 ^ 32
        → IsSent L payer (skip_ix sigs vaa_body) s.0 tx
        → M.Admits s.0 tx
        → (svm : L.Svm) × (skip sigs vaa_body s ≡ (ok tt, (svm, s.1)))
    unfolding skip_closure build_skip_verify_instruction
    skip_closure-ok sigs vaa_body s tx small signed admits =
        let ix =
          build_skip_verify_instruction V (S.pubkey payer) guardian_set sigs guardian_set_bump
            vaa_body in
        let (a, b, c, d, same, _, _, _) =
          four (M.runtime s.0).key (M.infos s.0 ix.accounts) _ _ _ _
            (M.key-infos s.0 ix.accounts) in
        let ran : runs M s.0 ix ≡ ok tt =
          subst
            (λ (is : List (M.runtime s.0).AccountInfo).
              (process_instruction V (M.runtime s.0) is ix.ix_data).0 ≡ ok tt)
            (sym same)
            ((process_instruction-build_skip_verify_instruction_data V (M.runtime s.0) a b c d []
              guardian_set_bump vaa_body small).0) in
        send_instruction-ok L tx_failed V M payer ix s tx refl signed admits ran

    -- If the virtual machine runs the verifier program, the body is shorter than 2^32, the
    -- signatures of the VAA with the next sequence number were posted, and the virtual machine
    -- admits the payer's transaction of the instruction that verifies nothing: `with_vaa` over this
    -- instruction fails with the verification bypass, whatever checks the VAA asks for, and leaves
    -- the virtual machine as it was.
    pub with_vaa-skip_closure :
        (s t : World L) (posted : PostedSignatures S) (tx : S.Transaction)
        → length (body v) < 2 ^ 32
        → post_signatures D shim L {F = F} {E = Bytes} {I = I} payer guardian_set_index
            (guardian_signatures C (wrong_sequence v) guardians)
            s
          ≡ (ok posted, t)
        → IsSent L payer (skip_ix posted.pubkey (body v)) t.0 tx
        → M.Admits t.0 tx
        → with_vaa D shim L {F = F} {I = I} C payer guardians guardian_set_index v skip s
          ≡ (err verification_bypass, (s.0, t.1))
    with_vaa-skip_closure s t posted tx small posts signed admits =
        let (svm, accepts) = skip_closure-ok posted.pubkey (body v) t tx small signed admits in
        (with_vaa-Fails D shim L F I C payer guardians guardian_set_index v skip s
            verification_bypass (s.0, t.1)).1
          (verification (admitted refl posts accepts refl))
