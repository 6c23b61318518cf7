-- ===== src/Verifier.antt =====
-- programs/vaa-verifier-example/src/lib.rs: the example program that verifies a VAA body through
-- the Verify VAA Shim, and its instruction that does not.
pub mod Steps
pub mod Frames
pub mod Skip
pub mod NoPanic
pub mod Verified
pub mod TestVaas
use wormhole_svm_utils.Prelude.{
  ℕ, zero, suc, ◌+◌, ◌-◌, ◌%◌, ◌^◌, ltb, leb, ◌==◌, nat_eq, list_eq, not,
}
use wormhole_svm_utils.Prelude.{
  Bool, true, false, List, [], ◌∷◌, ◌++◌, length, take, Result, ok, err, panic,
}
use wormhole_svm_utils.Prelude.Bytes.{Bytes, from_le_bytes, from_be_bytes, to_le_bytes}
use wormhole_svm_utils.Prelude.Windows.{index, array_or, slice, slice_from}
use wormhole_svm_utils.Solana.{Pubkey, AccountMeta, writable, readonly, Instruction, ProgramError}
use wormhole_svm_utils.Solana.{invalid_instruction_data, incorrect_program_id, Runtime, Event, Run}
use wormhole_svm_utils.Solana.{◌>>=◌, ◌>>◌, msg, lift, reject_if, when, call, next_account_info}

-- The lines that the program logs, with what they print.
pub data Log : Type 0 where
  empty_instruction_data unknown_instruction processing_verify_vaa processing_skip_verify : Log
  invalid_shim_program_id instruction_data_too_short too_short_for_body : Log
  vaa_body_info vaa_body_info_not_verified : ℕ → ℕ → Log
  vaa_digest : Bytes → Log
  vaa_verified : Log
  payload_length : ℕ → Log
  payload_prefix : ℕ → ℕ → ℕ → ℕ → Log
  success skipping_verification success_not_verified : Log

abbrev pub ix_verify_vaa : ℕ
ix_verify_vaa = 0

abbrev pub ix_skip_verify : ℕ
ix_skip_verify = 1

abbrev pub body_emitter_chain_offset : ℕ
body_emitter_chain_offset = 8

abbrev pub body_sequence_offset : ℕ
body_sequence_offset = 42

abbrev pub body_payload_offset : ℕ
body_payload_offset = 51

-- What the program takes from other crates: the shim's address, the hash of solana-program, and
-- `VerifyHash { .. }.instruction()` of the shim's crate.
pub record VerifierDeps : Type 0 where
  pub verify_vaa_shim_program_id : Pubkey
  pub program_id : Pubkey
  pub keccak : Bytes → Bytes
  pub verify_hash_instruction : Pubkey → Pubkey → Pubkey → ℕ → Bytes → Instruction

-- `[bump (1), body_len (4), body_bytes...]`, which both handlers read in the same way.
module _ {I : Type 0} where
  unfoldable pub read_body : Bytes → Run Log I (ℕ × Bytes)
  unfolding index
  read_body instruction_data = do
    reject_if (ltb (length instruction_data) 5) instruction_data_too_short invalid_instruction_data
    guardian_set_bump ← lift (index 0 instruction_data)
    len_bytes ← lift (array_or (err invalid_instruction_data) 4 1 5 instruction_data)
    let body_len = from_le_bytes len_bytes
    reject_if (ltb (length instruction_data) (5 + body_len)) too_short_for_body
        invalid_instruction_data
    vaa_body ← lift (slice 5 (5 + body_len) instruction_data)
    lift (ok (guardian_set_bump, vaa_body))

  -- The log line on the emitter chain and the sequence, for bodies with a whole header.
  unfoldable pub log_body_info : (ℕ → ℕ → Log) → Bytes → Run Log I (Unit {0})
  log_body_info line vaa_body = when (leb body_payload_offset (length vaa_body)) (do
    chain ←
        lift (array_or panic 2 body_emitter_chain_offset (body_emitter_chain_offset + 2) vaa_body)
    sequence ← lift (array_or panic 8 body_sequence_offset (body_sequence_offset + 8) vaa_body)
    msg (line (from_be_bytes chain) (from_be_bytes sequence)))

  unfoldable pub log_prefix : Bytes → Run Log I (Unit {0})
  unfolding index
  log_prefix payload = do
    a ← lift (index 0 payload)
    b ← lift (index 1 payload)
    c ← lift (index 2 payload)
    d ← lift (index 3 payload)
    msg (payload_prefix a b c d)

  -- The log lines on the payload, after the verification.
  unfoldable pub log_payload : Bytes → Run Log I (Unit {0})
  log_payload vaa_body = when (ltb body_payload_offset (length vaa_body)) (do
    payload ← lift (slice_from body_payload_offset vaa_body)
    msg (payload_length (length payload))
    when (leb 4 (length payload)) (log_prefix payload))

module _ (D : VerifierDeps) (R : Runtime) where
  unfoldable pub process_verify_vaa : List R.AccountInfo → Bytes → Run Log R.AccountInfo (Unit {0})
  process_verify_vaa accounts instruction_data = do
    msg processing_verify_vaa
    (_, accounts) ← lift (next_account_info accounts)
    (guardian_set, accounts) ← lift (next_account_info accounts)
    (guardian_signatures, accounts) ← lift (next_account_info accounts)
    (shim_program, _) ← lift (next_account_info accounts)
    reject_if (not (R.key shim_program == D.verify_vaa_shim_program_id)) invalid_shim_program_id
        incorrect_program_id
    (guardian_set_bump, vaa_body) ← read_body instruction_data
    log_body_info vaa_body_info vaa_body
    let message_hash = D.keccak vaa_body
    let digest = D.keccak message_hash
    first_bytes ← lift (slice 0 8 digest)
    msg (vaa_digest first_bytes)
    let verify_ix =
        D.verify_hash_instruction D.verify_vaa_shim_program_id (R.key guardian_set)
          (R.key guardian_signatures) guardian_set_bump digest
    let infos : List R.AccountInfo = guardian_set ∷ guardian_signatures ∷ []
    call (R.invoke verify_ix infos) verify_ix infos []
    msg vaa_verified
    log_payload vaa_body
    msg success

  unfoldable pub process_skip_verify : List R.AccountInfo → Bytes → Run Log R.AccountInfo (Unit {0})
  process_skip_verify accounts instruction_data = do
    msg processing_skip_verify
    (_, accounts) ← lift (next_account_info accounts)
    (_, accounts) ← lift (next_account_info accounts)
    (_, accounts) ← lift (next_account_info accounts)
    (_, _) ← lift (next_account_info accounts)
    (_, vaa_body) ← read_body instruction_data
    log_body_info vaa_body_info_not_verified vaa_body
    msg skipping_verification
    msg success_not_verified

  -- The entry point: a byte that selects the handler, then the handler's data.
  unfoldable pub process_instruction : List R.AccountInfo → Bytes → Run Log R.AccountInfo (Unit {0})
  unfolding nat_eq
  process_instruction accounts [] = reject_if true empty_instruction_data invalid_instruction_data
  process_instruction accounts (selector ∷ rest) = elim (selector == ix_verify_vaa) [
    | true ↦ process_verify_vaa accounts rest
    | false ↦ elim (selector == ix_skip_verify) [
      | true ↦ process_skip_verify accounts rest
      | false ↦ reject_if true unknown_instruction invalid_instruction_data
    ]
  ]

unfoldable pub build_instruction_data : ℕ → Bytes → Bytes
build_instruction_data guardian_set_bump vaa_body =
    ix_verify_vaa ∷ guardian_set_bump ∷ (to_le_bytes 4 (length vaa_body % 2 ^ 32) ++ vaa_body)

unfoldable pub build_skip_verify_instruction_data : ℕ → Bytes → Bytes
build_skip_verify_instruction_data guardian_set_bump vaa_body =
    ix_skip_verify ∷ guardian_set_bump ∷ (to_le_bytes 4 (length vaa_body % 2 ^ 32) ++ vaa_body)

module _ (D : VerifierDeps) where
  verifier_accounts : Pubkey → Pubkey → Pubkey → List AccountMeta
  verifier_accounts payer guardian_set guardian_signatures =
      readonly payer true
      ∷ readonly guardian_set false
      ∷ readonly guardian_signatures false
      ∷ readonly D.verify_vaa_shim_program_id false
      ∷ []

  unfoldable pub build_verify_vaa_instruction : Pubkey → Pubkey → Pubkey → ℕ → Bytes → Instruction
  unfolding verifier_accounts build_instruction_data
  build_verify_vaa_instruction payer guardian_set guardian_signatures guardian_set_bump vaa_body =
      record {
        program_id = D.program_id;
        accounts = verifier_accounts payer guardian_set guardian_signatures;
        ix_data = build_instruction_data guardian_set_bump vaa_body;
      }

  unfoldable pub build_skip_verify_instruction : Pubkey → Pubkey → Pubkey → ℕ → Bytes → Instruction
  unfolding verifier_accounts build_skip_verify_instruction_data
  build_skip_verify_instruction payer guardian_set guardian_signatures guardian_set_bump vaa_body =
      record {
        program_id = D.program_id;
        accounts = verifier_accounts payer guardian_set guardian_signatures;
        ix_data = build_skip_verify_instruction_data guardian_set_bump vaa_body;
      }
