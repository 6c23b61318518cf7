-- ===== src/Verifier/NoPanic.antt =====
-- The slice expressions of the program on every input.
use wormhole_svm_utils.Prelude.{◌≡◌, ◌≢◌, arith, List, [], ◌∷◌, length, Result, ok, err, panic}
use wormhole_svm_utils.Prelude.{◌==◌, nat_eq, list_eq, ==_iff, Bool-cases, inl, inr}
use wormhole_svm_utils.Prelude.Bytes.{Bytes}
use wormhole_svm_utils.Solana.{ProgramError, Runtime, Instruction}
use wormhole_svm_utils.Verifier.{
  VerifierDeps, process_verify_vaa, process_skip_verify, process_instruction,
}
use wormhole_svm_utils.Verifier.Frames.{read_body-ReadEnds, whole, has_no_header, is_cut}
use wormhole_svm_utils.Verifier.Skip.{skip_steps, skip_refused}
use wormhole_svm_utils.Verifier.Verified.{verify_outcome, verify_steps, refused_frame, wrong_shim}

module _ (D : VerifierDeps) (R : Runtime) (keccak_length : (bs : Bytes) → length (D.keccak bs) ≡ 32)
    (invoke_returns : (ix : Instruction) (infos : List R.AccountInfo)
      → R.invoke ix infos ≢ panic) where
  outcome-ne-panic :
      (r : Result ProgramError (Unit {0})) (ix : Instruction) (infos : List R.AccountInfo)
      (b : Bytes)
      → r ≢ panic
      → (verify_outcome D R r ix infos b).0 ≢ panic
  outcome-ne-panic (ok _) ix infos b h e = cc
  outcome-ne-panic (err x) ix infos b h e = cc
  outcome-ne-panic panic ix infos b h e = h e

  four_accounts-ne-panic :
      (payer gs sigs shim : R.AccountInfo) (more : List R.AccountInfo) (frame : Bytes)
      → (process_verify_vaa D R (payer ∷ gs ∷ sigs ∷ shim ∷ more) frame).0 ≢ panic
  four_accounts-ne-panic payer gs sigs shim more frame h =
      elim (Bool-cases (R.key shim == D.verify_vaa_shim_program_id)) [
        | inr other ↦ cc (wrong_shim D R keccak_length payer gs sigs shim more frame other)
        | inl same ↦
            let key = (==_iff (R.key shim) D.verify_vaa_shim_program_id).0 same in
            elim (read_body-ReadEnds R.AccountInfo frame) [
              | whole bump tail split long e ↦ outcome-ne-panic _ _ _ _ (invoke_returns _ _) (
                  rw (verify_steps D R keccak_length payer gs sigs shim more frame bump _ key e) at
                    h)
              | has_no_header short e ↦
                  cc (refused_frame D R keccak_length payer gs sigs shim more frame _ _ key e)
              | is_cut long short e ↦
                  cc (refused_frame D R keccak_length payer gs sigs shim more frame _ _ key e)
            ]
      ]

  process_verify_vaa-ne-panic :
      (accounts : List R.AccountInfo) (frame : Bytes)
      → (process_verify_vaa D R accounts frame).0 ≢ panic
  unfolding process_verify_vaa
  process_verify_vaa-ne-panic [] frame h = cc
  process_verify_vaa-ne-panic (_ ∷ []) frame h = cc
  process_verify_vaa-ne-panic (_ ∷ _ ∷ []) frame h = cc
  process_verify_vaa-ne-panic (_ ∷ _ ∷ _ ∷ []) frame h = cc
  process_verify_vaa-ne-panic (payer ∷ gs ∷ sigs ∷ shim ∷ more) frame h =
      four_accounts-ne-panic payer gs sigs shim more frame h

  four_accounts_skip-ne-panic :
      (a b c d : R.AccountInfo) (more : List R.AccountInfo) (frame : Bytes)
      → (process_skip_verify D R (a ∷ b ∷ c ∷ d ∷ more) frame).0 ≢ panic
  four_accounts_skip-ne-panic a b c d more frame h = elim (read_body-ReadEnds R.AccountInfo frame) [
    | whole bump tail split long e ↦ cc (skip_steps D R a b c d more frame bump _ e)
    | has_no_header short e ↦ cc (skip_refused D R a b c d more frame _ _ e)
    | is_cut long short e ↦ cc (skip_refused D R a b c d more frame _ _ e)
  ]

  process_skip_verify-ne-panic :
      (accounts : List R.AccountInfo) (frame : Bytes)
      → (process_skip_verify D R accounts frame).0 ≢ panic
  unfolding process_skip_verify
  process_skip_verify-ne-panic [] frame h = cc
  process_skip_verify-ne-panic (_ ∷ []) frame h = cc
  process_skip_verify-ne-panic (_ ∷ _ ∷ []) frame h = cc
  process_skip_verify-ne-panic (_ ∷ _ ∷ _ ∷ []) frame h = cc
  process_skip_verify-ne-panic (a ∷ b ∷ c ∷ d ∷ more) frame h =
      four_accounts_skip-ne-panic a b c d more frame h

  -- If the hash has 32 bytes and no CPI panics, no run of the program panics.
  pub process_instruction-ne-panic :
      (accounts : List R.AccountInfo) (ix_data : Bytes)
      → (process_instruction D R accounts ix_data).0 ≢ panic
  unfolding process_instruction
  process_instruction-ne-panic accounts [] h = cc
  process_instruction-ne-panic accounts (selector ∷ rest) h =
      ground (
        arith,
        process_verify_vaa-ne-panic accounts rest,
        process_skip_verify-ne-panic accounts rest,
      )
