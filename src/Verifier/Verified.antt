-- ===== src/Verifier/Verified.antt =====
-- The instruction that verifies: what it asks of the shim, and when it succeeds.
use wormhole_svm_utils.Prelude.{ℕ, ◌+◌, ◌^◌, ◌≤◌, ◌<◌, ◌≡◌, inl, inr, refl, arith}
use wormhole_svm_utils.Prelude.{
  list_eq, List, [], ◌∷◌, ◌++◌, length, Result, ok, err, panic, ==_self, ==_iff, ◌==◌, Bool-cases,
  false, Result-cases,
}
use wormhole_svm_utils.Prelude.Bytes.{Bytes}
use wormhole_svm_utils.Prelude.Windows.{window, slice, slice_ok}
use wormhole_svm_utils.Solana.{
  ProgramError, incorrect_program_id, Runtime, Event, log, cpi, Instruction, Run,
}
use wormhole_svm_utils.Verifier
use wormhole_svm_utils.Verifier.{
  Log, VerifierDeps, process_verify_vaa, process_instruction, read_body,
}
use wormhole_svm_utils.Verifier.{build_instruction_data}
use wormhole_svm_utils.Verifier.Steps.{read_body-frame, log_body_info_lem, log_payload_lem}
use wormhole_svm_utils.Verifier.Frames.{
  frame_length, read_body-ReadEnds, whole, has_no_header, is_cut,
}
use wormhole_svm_utils.Verifier.Steps.{body_info, payload_info}

module _ (D : VerifierDeps) (R : Runtime) where
  -- The CPI on a body: the shim checks the double hash of the body against the signatures account.
  abbrev pub verify_ix : R.AccountInfo → R.AccountInfo → ℕ → Bytes → Instruction
  verify_ix gs sigs bump b =
      D.verify_hash_instruction D.verify_vaa_shim_program_id (R.key gs) (R.key sigs) bump
        (D.keccak (D.keccak b))

  -- The events up to the CPI and with it, and those of the rest.
  abbrev pub verify_events :
      Instruction
      → List R.AccountInfo
      → Bytes
      → List (Event Log R.AccountInfo)
      → List (Event Log R.AccountInfo)
  verify_events ix infos b rest =
      log Verifier.processing_verify_vaa
      ∷ (body_info Verifier.vaa_body_info b
          ++ (log (Verifier.vaa_digest (window 0 8 (D.keccak (D.keccak b))))
              ∷ cpi ix infos []
              ∷ rest))

  -- How the run ends, by the shim's answer.
  abbrev pub verify_outcome :
      Result ProgramError (Unit {0})
      → Instruction
      → List R.AccountInfo
      → Bytes
      → Run Log R.AccountInfo (Unit {0})
  verify_outcome (ok _) ix infos b = (
    ok tt,
    verify_events ix infos b
        (log Verifier.vaa_verified ∷ (payload_info b ++ (log Verifier.success ∷ []))),
  )
  verify_outcome (err e) ix infos b = (err e, verify_events ix infos b [])
  verify_outcome panic ix infos b = (panic, verify_events ix infos b [])

  -- What a successful run has checked.
  pub data Checked (accounts : List R.AccountInfo) (frame : Bytes) : Type 0 where
    checked :
        (payer gs sigs shim : R.AccountInfo) (more : List R.AccountInfo) (bump : ℕ) (tail : Bytes)
        → accounts ≡ payer ∷ gs ∷ sigs ∷ shim ∷ more
        → frame ≡ bump ∷ tail
        → 5 + frame_length frame ≤ length frame
        → R.key shim ≡ D.verify_vaa_shim_program_id
        → R.invoke (verify_ix gs sigs bump (window 5 (frame_length frame) frame)) (gs ∷ sigs ∷ [])
          ≡ ok tt
        → Checked accounts frame

  module _ (keccak_length : (bs : Bytes) → length (D.keccak bs) ≡ 32) where
    pub verify_steps :
        (payer gs sigs shim : R.AccountInfo) (more : List R.AccountInfo) (instruction_data : Bytes)
        (bump : ℕ) (b : Bytes)
        → R.key shim ≡ D.verify_vaa_shim_program_id
        → read_body {I = R.AccountInfo} instruction_data ≡ (ok (bump, b), [])
        → let ix = verify_ix gs sigs bump b in
          let infos = gs ∷ sigs ∷ [] in
          process_verify_vaa D R (payer ∷ gs ∷ sigs ∷ shim ∷ more) instruction_data
          ≡ verify_outcome (R.invoke ix infos) ix infos b
    unfolding process_verify_vaa
    verify_steps payer gs sigs shim more instruction_data bump b key frame =
        let digest = D.keccak (D.keccak b) in
        let fits : slice {E = ProgramError} 0 8 digest ≡ ok (window 0 8 digest) =
          slice_ok 0 8 digest (omega arith) (omega (arith, keccak_length (D.keccak b))) in
        let ix = verify_ix gs sigs bump b in
        let infos = gs ∷ sigs ∷ [] in
        rw
          (
            key,
            ==_self D.verify_vaa_shim_program_id,
            frame,
            log_body_info_lem Verifier.vaa_body_info b,
            fits,
          )
          (elim (Result-cases (R.invoke ix infos)) [
            | inl (_, e) ↦ rw (e, log_payload_lem b)
            | inr (inl (_, e)) ↦ rw e
            | inr (inr e) ↦ rw e
          ])

    -- If the hash has 32 bytes, the fourth account is the shim and the body is shorter than 2^32: a
    -- run on what the builder frames asks the shim once, for the double hash of the body that was
    -- framed, logs what it read, and ends as the shim answers.
    pub process_instruction-build_instruction_data :
        (payer gs sigs shim : R.AccountInfo) (more : List R.AccountInfo) (bump : ℕ) (b : Bytes)
        → R.key shim ≡ D.verify_vaa_shim_program_id
        → length b < 2 ^ 32
        → let ix = verify_ix gs sigs bump b in
          let infos = gs ∷ sigs ∷ [] in
          process_instruction D R (payer ∷ gs ∷ sigs ∷ shim ∷ more) (build_instruction_data bump b)
          ≡ verify_outcome (R.invoke ix infos) ix infos b
    unfolding process_instruction build_instruction_data
    process_instruction-build_instruction_data payer gs sigs shim more bump b key h =
        verify_steps payer gs sigs shim more _ bump b key (read_body-frame bump b h)

    pub refused_frame :
        (payer gs sigs shim : R.AccountInfo) (more : List R.AccountInfo) (frame : Bytes)
        (e : ProgramError) (es : List (Event Log R.AccountInfo))
        → R.key shim ≡ D.verify_vaa_shim_program_id
        → read_body {I = R.AccountInfo} frame ≡ (err e, es)
        → (process_verify_vaa D R (payer ∷ gs ∷ sigs ∷ shim ∷ more) frame).0 ≡ err e
    unfolding process_verify_vaa
    refused_frame payer gs sigs shim more frame e es key h =
        rw (key, ==_self D.verify_vaa_shim_program_id, h)

    pub outcome_ok :
        (r : Result ProgramError (Unit {0})) (ix : Instruction) (infos : List R.AccountInfo)
        (b : Bytes)
        → (verify_outcome r ix infos b).0 ≡ ok tt
        → r ≡ ok tt
    outcome_ok (ok _) ix infos b h = refl
    outcome_ok (err e) ix infos b h = cc
    outcome_ok panic ix infos b h = cc

    four_accounts :
        (payer gs sigs shim : R.AccountInfo) (more : List R.AccountInfo) (frame : Bytes)
        → R.key shim ≡ D.verify_vaa_shim_program_id
        → (process_verify_vaa D R (payer ∷ gs ∷ sigs ∷ shim ∷ more) frame).0 ≡ ok tt
        → Checked (payer ∷ gs ∷ sigs ∷ shim ∷ more) frame
    four_accounts payer gs sigs shim more frame key h =
        elim (read_body-ReadEnds R.AccountInfo frame) [
          | whole bump tail split long e ↦
              let b = window 5 (frame_length frame) frame in
              checked payer gs sigs shim more bump tail refl split long key (
                outcome_ok _ (verify_ix gs sigs bump b) (gs ∷ sigs ∷ []) b
                  (rw (verify_steps payer gs sigs shim more frame bump b key e) at h))
          | has_no_header short e ↦ cc (refused_frame payer gs sigs shim more frame _ _ key e)
          | is_cut long short e ↦ cc (refused_frame payer gs sigs shim more frame _ _ key e)
        ]

    pub wrong_shim :
        (payer gs sigs shim : R.AccountInfo) (more : List R.AccountInfo) (frame : Bytes)
        → (R.key shim == D.verify_vaa_shim_program_id) ≡ false
        → (process_verify_vaa D R (payer ∷ gs ∷ sigs ∷ shim ∷ more) frame).0
          ≡ err incorrect_program_id
    unfolding process_verify_vaa
    wrong_shim payer gs sigs shim more frame e = rw e

    -- If the hash has 32 bytes: the verifying instruction succeeds only if four accounts were
    -- given, the fourth is the shim, the frame is whole, and the CPI on the double hash of exactly
    -- the framed body and the second and third account succeeded.
    pub process_verify_vaa-Checked :
        (accounts : List R.AccountInfo) (frame : Bytes)
        → (process_verify_vaa D R accounts frame).0 ≡ ok tt
        → Checked accounts frame
    unfolding process_verify_vaa
    process_verify_vaa-Checked [] frame h = cc
    process_verify_vaa-Checked (_ ∷ []) frame h = cc
    process_verify_vaa-Checked (_ ∷ _ ∷ []) frame h = cc
    process_verify_vaa-Checked (_ ∷ _ ∷ _ ∷ []) frame h = cc
    process_verify_vaa-Checked (payer ∷ gs ∷ sigs ∷ shim ∷ more) frame h =
        elim (Bool-cases (R.key shim == D.verify_vaa_shim_program_id)) [
          | inl same ↦
              four_accounts payer gs sigs shim more frame
                ((==_iff (R.key shim) D.verify_vaa_shim_program_id).0 same) h
          | inr other ↦ cc (wrong_shim payer gs sigs shim more frame other)
        ]
