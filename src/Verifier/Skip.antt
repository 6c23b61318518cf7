-- ===== src/Verifier/Skip.antt =====
-- The instruction that skips the verification, which the program has in order to show the hole.
use wormhole_svm_utils.Prelude.{ℕ, ◌^◌, ◌<◌, ◌≡◌, List, [], ◌∷◌, ◌++◌, length}
use wormhole_svm_utils.Prelude.{All, All-append, leb, Bool-cases, inl, inr, ok, err}
use wormhole_svm_utils.Prelude.Bytes.{Bytes}
use wormhole_svm_utils.Prelude.Windows.{window}
use wormhole_svm_utils.Solana.{ProgramError, Runtime, Event, log, cpi}
use wormhole_svm_utils.Verifier
use wormhole_svm_utils.Verifier.{
  Log, VerifierDeps, process_skip_verify, process_instruction, read_body,
}
use wormhole_svm_utils.Verifier.{build_skip_verify_instruction_data}
use wormhole_svm_utils.Verifier.Steps.{read_body-frame, log_body_info_lem, body_info}
use wormhole_svm_utils.Verifier.Frames.{
  frame_length, read_body-ReadEnds, whole, has_no_header, is_cut,
}

-- An event that is no CPI call.
abbrev pub IsLog : {I : Type 0} → Event Log I → Type 0
IsLog (log _) = Unit {0}
IsLog (cpi _ _ _) = ⊥

module _ (D : VerifierDeps) (R : Runtime) where
  pub skip_steps :
      (a b c d : R.AccountInfo) (more : List R.AccountInfo) (frame : Bytes) (bump : ℕ)
      (body : Bytes)
      → read_body {I = R.AccountInfo} frame ≡ (ok (bump, body), [])
      → process_skip_verify D R (a ∷ b ∷ c ∷ d ∷ more) frame ≡ (
        ok tt,
        log Verifier.processing_skip_verify
            ∷ (body_info Verifier.vaa_body_info_not_verified body
                ++ (log Verifier.skipping_verification ∷ log Verifier.success_not_verified ∷ [])),
      )
  unfolding process_skip_verify
  skip_steps a b c d more frame bump body e =
      rw (e, log_body_info_lem Verifier.vaa_body_info_not_verified body)

  pub skip_refused :
      (a b c d : R.AccountInfo) (more : List R.AccountInfo) (frame : Bytes) (x : ProgramError)
      (l : Log)
      → read_body {I = R.AccountInfo} frame ≡ (err x, log l ∷ [])
      → process_skip_verify D R (a ∷ b ∷ c ∷ d ∷ more) frame
        ≡ (err x, log Verifier.processing_skip_verify ∷ log l ∷ [])
  unfolding process_skip_verify
  skip_refused a b c d more frame x l e = rw e

  body_info-IsLog :
      (line : ℕ → ℕ → Log) (b : Bytes) → All (IsLog {I = R.AccountInfo}) (body_info line b)
  body_info-IsLog line b = elim (Bool-cases (leb 51 (length b))) [
    | inl e ↦ rw e (tt, tt)
    | inr e ↦ rw e tt
  ]

  four_accounts-IsLog :
      (a b c d : R.AccountInfo) (more : List R.AccountInfo) (frame : Bytes)
      → All (IsLog {I = R.AccountInfo}) (process_skip_verify D R (a ∷ b ∷ c ∷ d ∷ more) frame).1
  four_accounts-IsLog a b c d more frame = elim (read_body-ReadEnds R.AccountInfo frame) [
    | whole bump tail split long e ↦
        let body = window 5 (frame_length frame) frame in
        rw (skip_steps a b c d more frame bump body e) (
          tt,
          All-append (IsLog {I = R.AccountInfo})
              (body_info Verifier.vaa_body_info_not_verified body)
              (log Verifier.skipping_verification ∷ log Verifier.success_not_verified ∷ [])
              (body_info-IsLog Verifier.vaa_body_info_not_verified body) (tt, (tt, tt)),
        )
    | has_no_header short e ↦ rw (skip_refused a b c d more frame _ _ e) (tt, (tt, tt))
    | is_cut long short e ↦ rw (skip_refused a b c d more frame _ _ e) (tt, (tt, tt))
  ]

  -- The skipping instruction makes no CPI call, on any input: all that it leaves behind are log
  -- lines.
  pub process_skip_verify-IsLog :
      (accounts : List R.AccountInfo) (frame : Bytes)
      → All (IsLog {I = R.AccountInfo}) (process_skip_verify D R accounts frame).1
  unfolding process_skip_verify
  process_skip_verify-IsLog [] frame = (tt, tt)
  process_skip_verify-IsLog (_ ∷ []) frame = (tt, tt)
  process_skip_verify-IsLog (_ ∷ _ ∷ []) frame = (tt, tt)
  process_skip_verify-IsLog (_ ∷ _ ∷ _ ∷ []) frame = (tt, tt)
  process_skip_verify-IsLog (a ∷ b ∷ c ∷ d ∷ more) frame = four_accounts-IsLog a b c d more frame

  -- With four accounts, whatever they are, a run of the skipping instruction on what the builder
  -- frames of a body shorter than 2^32 succeeds, and makes no CPI call.
  pub process_instruction-build_skip_verify_instruction_data :
      (a b c d : R.AccountInfo) (more : List R.AccountInfo) (bump : ℕ) (body : Bytes)
      → length body < 2 ^ 32
      → let run =
          process_instruction D R
            (a ∷ b ∷ c ∷ d ∷ more)
            (build_skip_verify_instruction_data bump body) in
        (run.0 ≡ ok tt) × All (IsLog {I = R.AccountInfo}) run.1
  unfolding process_instruction build_skip_verify_instruction_data
  process_instruction-build_skip_verify_instruction_data a b c d more bump body h = (
    rw (skip_steps a b c d more _ bump body (read_body-frame bump body h)),
    process_skip_verify-IsLog (a ∷ b ∷ c ∷ d ∷ more) _,
  )
