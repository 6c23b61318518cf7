-- ===== src/Examples/Programs.antt =====
-- The two example programs, run against a shim that accepts.
use wormhole_svm_utils.Prelude.{
  ℕ, ◌+◌, ◌%◌, ◌^◌, ◌<◌, ◌≡◌, ◌≢◌, refl, arith, List, [], ◌∷◌, length, replicate, All,
}
use wormhole_svm_utils.Prelude.{Result, ok, panic, false, list_eq, nat_eq}
use wormhole_svm_utils.Prelude.Bytes.{Bytes}
use wormhole_svm_utils.Solana.{Pubkey, Runtime, readonly}
use wormhole_svm_utils.Verifier
use wormhole_svm_utils.Verifier.{
  VerifierDeps, process_verify_vaa, process_skip_verify, build_skip_verify_instruction_data,
  read_body,
}
use wormhole_svm_utils.Verifier.Verified.{
  Checked, process_verify_vaa-Checked, process_instruction-build_instruction_data, verify_ix,
  verify_outcome,
}
use wormhole_svm_utils.Verifier.NoPanic.{process_instruction-ne-panic}
use wormhole_svm_utils.Verifier.{log_body_info, log_payload}
use wormhole_svm_utils.Emitter
use wormhole_svm_utils.Emitter.{EmitterDeps, find_emitter_address}
use wormhole_svm_utils.Emitter.Posting.{
  Accounts, listed, post_outcome, process_instruction-build_instruction_data_emit,
}

abbrev pub toy_deps : VerifierDeps
toy_deps = record {
  verify_vaa_shim_program_id = 99 ∷ [];
  program_id = 98 ∷ [];
  keccak = λ bs. (length bs % 256) ∷ replicate 31 7;
  verify_hash_instruction = λ program gs sigs bump digest. record {
    program_id = program;
    accounts = readonly gs false ∷ readonly sigs false ∷ [];
    ix_data = bump ∷ digest;
  };
}

-- An account is its key, and every CPI succeeds.
abbrev pub accepting : Runtime
accepting = record {
  AccountInfo = Pubkey;
  key = λ k. k;
  invoke = λ ix infos. ok tt;
  invoke_signed = λ ix infos seeds. ok tt;
}

abbrev four_accounts : List Pubkey
four_accounts = (1 ∷ []) ∷ (2 ∷ []) ∷ (3 ∷ []) ∷ (99 ∷ []) ∷ []

abbrev frame : Bytes
frame = 254 ∷ 3 ∷ 0 ∷ 0 ∷ 0 ∷ 7 ∷ 8 ∷ 9 ∷ []

verified : (process_verify_vaa toy_deps accepting four_accounts frame).0 ≡ ok tt
unfolding process_verify_vaa list_eq read_body wormhole_svm_utils.Prelude.Windows.array_or
    wormhole_svm_utils.Prelude.Bytes.from_le_bytes Verifier.log_body_info Verifier.log_payload
verified = refl

process_verify_vaa-Checked_example : Checked toy_deps accepting four_accounts frame
process_verify_vaa-Checked_example =
    process_verify_vaa-Checked toy_deps accepting (λ bs. refl) four_accounts frame verified

process_instruction-build_instruction_data_example :
    Verifier.process_instruction toy_deps accepting four_accounts
      (Verifier.build_instruction_data 254 (7 ∷ 8 ∷ []))
    ≡ verify_outcome toy_deps accepting
        (ok tt)
        (verify_ix toy_deps accepting (2 ∷ []) (3 ∷ []) 254 (7 ∷ 8 ∷ []))
        ((2 ∷ []) ∷ (3 ∷ []) ∷ [])
        (7 ∷ 8 ∷ [])
process_instruction-build_instruction_data_example =
    process_instruction-build_instruction_data toy_deps accepting (λ bs. refl) (1 ∷ []) (2 ∷ [])
      (3 ∷ []) (99 ∷ []) [] 254 (7 ∷ 8 ∷ []) refl (omega arith)

process_instruction-ne-panic_example :
    (Verifier.process_instruction toy_deps accepting four_accounts (0 ∷ frame)).0 ≢ panic
process_instruction-ne-panic_example =
    process_instruction-ne-panic toy_deps accepting (λ bs. refl) (λ ix infos p. cc) four_accounts
      (0 ∷ frame)

abbrev pub emitter_deps : EmitterDeps
emitter_deps = record {
  program_id = 97 ∷ [];
  post_message_shim_program_id = 96 ∷ [];
  core_bridge_program_id = 95 ∷ [];
  clock_id = 94 ∷ [];
  system_program_id = 93 ∷ [];
  post_message_selector = replicate 8 5;
  find_program_address = λ seeds program. (92 ∷ [], 255);
  find_core_bridge_config_address = λ program. (91 ∷ [], 255);
  find_shim_message_address = λ emitter program. (90 ∷ [], 255);
  find_emitter_sequence_address = λ emitter program. (89 ∷ [], 255);
  find_fee_collector_address = λ program. (88 ∷ [], 255);
  find_event_authority_address = λ program. (87 ∷ [], 255);
}

abbrev pub emitter_accounts : Accounts emitter_deps accepting
emitter_accounts = record {
  core_bridge_config = 91 ∷ [];
  message = 90 ∷ [];
  emitter = 92 ∷ [];
  sequence = 89 ∷ [];
  payer = 1 ∷ [];
  fee_collector = 88 ∷ [];
  clock = 94 ∷ [];
  system_program = 93 ∷ [];
  core_bridge_program = 95 ∷ [];
  event_authority = 87 ∷ [];
  post_message_shim = 96 ∷ [];
}

emitter_key : (92 ∷ []) ≡ (find_emitter_address emitter_deps).0
unfolding find_emitter_address
emitter_key = refl

process_instruction-build_instruction_data_emit_example :
    Emitter.process_instruction emitter_deps accepting
      (listed emitter_deps accepting emitter_accounts)
      (Emitter.build_instruction_data 6 1 (7 ∷ 8 ∷ []))
    ≡ post_outcome emitter_deps accepting (ok tt) emitter_accounts 6 1 (7 ∷ 8 ∷ [])
process_instruction-build_instruction_data_emit_example =
    process_instruction-build_instruction_data_emit emitter_deps accepting emitter_accounts 6 1
      (7 ∷ 8 ∷ []) emitter_key refl (omega arith) (omega arith)
