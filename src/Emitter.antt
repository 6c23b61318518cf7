-- ===== src/Emitter.antt =====
-- programs/message-emitter-example/src/lib.rs: the example program that posts a message through
-- the Post Message Shim.
pub mod Posting
use wormhole_svm_utils.Prelude.{
  ℕ, ◌+◌, ◌%◌, ◌^◌, ltb, ◌==◌, list_eq, not, List, [], ◌∷◌, ◌++◌, length,
}
use wormhole_svm_utils.Prelude.{Bool, true, false, ok, err}
use wormhole_svm_utils.Prelude.Bytes.{Bytes, from_le_bytes, to_le_bytes}
use wormhole_svm_utils.Prelude.Windows.{index, array_or, slice}
use wormhole_svm_utils.Solana.{Pubkey, AccountMeta, writable, readonly, Instruction, ProgramError}
use wormhole_svm_utils.Solana.{
  invalid_instruction_data, incorrect_program_id, invalid_seeds, Runtime,
}
use wormhole_svm_utils.Solana.{Run, ◌>>=◌, ◌>>◌, msg, lift, reject_if, call, next_account_info}

-- The lines that the program logs, with what they print.
pub data Log : Type 0 where
  processing_emit_message instruction_data_too_short too_short_for_payload : Log
  emitting_message : ℕ → ℕ → ℕ → Log
  invalid_emitter_pda invalid_post_message_shim message_emitted : Log

-- What the program takes from other crates: addresses, the selector of `post_message`, and the
-- derivations of program addresses with their bumps.
pub record EmitterDeps : Type 0 where
  pub program_id : Pubkey
  pub post_message_shim_program_id : Pubkey
  pub core_bridge_program_id : Pubkey
  pub clock_id : Pubkey
  pub system_program_id : Pubkey
  pub post_message_selector : Bytes
  pub find_program_address : List Bytes → Pubkey → Pubkey × ℕ
  pub find_core_bridge_config_address : Pubkey → Pubkey × ℕ
  pub find_shim_message_address : Pubkey → Pubkey → Pubkey × ℕ
  pub find_emitter_sequence_address : Pubkey → Pubkey → Pubkey × ℕ
  pub find_fee_collector_address : Pubkey → Pubkey × ℕ
  pub find_event_authority_address : Pubkey → Pubkey × ℕ

-- b"emitter"
abbrev pub emitter_seed : Bytes
emitter_seed = 101 ∷ 109 ∷ 105 ∷ 116 ∷ 116 ∷ 101 ∷ 114 ∷ []

-- The 4-byte nonce, the finality and the payload of the instruction's data.
unfoldable pub read_message : {I : Type 0} → Bytes → Run Log I (ℕ × ℕ × Bytes)
unfolding index
read_message instruction_data = do
  reject_if (ltb (length instruction_data) 9) instruction_data_too_short invalid_instruction_data
  nonce ← lift (array_or (err invalid_instruction_data) 4 0 4 instruction_data)
  finality ← lift (index 4 instruction_data)
  len_bytes ← lift (array_or (err invalid_instruction_data) 4 5 9 instruction_data)
  let payload_len = from_le_bytes len_bytes
  reject_if (ltb (length instruction_data) (9 + payload_len)) too_short_for_payload
      invalid_instruction_data
  payload ← lift (slice 9 (9 + payload_len) instruction_data)
  lift (ok (from_le_bytes nonce, finality, payload))

module _ (D : EmitterDeps) where
  unfoldable pub find_emitter_address : Pubkey × ℕ
  find_emitter_address = D.find_program_address (emitter_seed ∷ []) D.program_id

  -- The data of the `post_message` instruction.
  unfoldable pub post_message_data : ℕ → ℕ → Bytes → Bytes
  post_message_data nonce finality payload =
      D.post_message_selector
      ++ (to_le_bytes 4 nonce ++ (finality ∷ (to_le_bytes 4 (length payload % 2 ^ 32) ++ payload)))

  module _ (R : Runtime) where
    unfoldable pub process_instruction :
        List R.AccountInfo → Bytes → Run Log R.AccountInfo (Unit {0})
    process_instruction accounts instruction_data = do
      msg processing_emit_message
      (nonce, finality, payload) ← read_message instruction_data
      msg (emitting_message nonce finality (length payload))
      (core_bridge_config, accounts) ← lift (next_account_info accounts)
      (message, accounts) ← lift (next_account_info accounts)
      (emitter, accounts) ← lift (next_account_info accounts)
      (sequence, accounts) ← lift (next_account_info accounts)
      (payer, accounts) ← lift (next_account_info accounts)
      (fee_collector, accounts) ← lift (next_account_info accounts)
      (clock, accounts) ← lift (next_account_info accounts)
      (system_program, accounts) ← lift (next_account_info accounts)
      (core_bridge_program, accounts) ← lift (next_account_info accounts)
      (event_authority, accounts) ← lift (next_account_info accounts)
      (post_message_shim, _) ← lift (next_account_info accounts)
      let (expected_emitter, emitter_bump) = find_emitter_address
      reject_if (not (R.key emitter == expected_emitter)) invalid_emitter_pda invalid_seeds
      reject_if (not (R.key post_message_shim == D.post_message_shim_program_id))
          invalid_post_message_shim incorrect_program_id
      let post_message_ix : Instruction = record {
        program_id = D.post_message_shim_program_id;
        accounts =
            writable (R.key core_bridge_config) false
            ∷ writable (R.key message) false
            ∷ readonly (R.key emitter) true
            ∷ writable (R.key sequence) false
            ∷ writable (R.key payer) true
            ∷ writable (R.key fee_collector) false
            ∷ readonly (R.key clock) false
            ∷ readonly (R.key system_program) false
            ∷ readonly (R.key core_bridge_program) false
            ∷ readonly (R.key event_authority) false
            ∷ readonly (R.key post_message_shim) false
            ∷ [];
        ix_data = post_message_data nonce finality payload;
      }
      let infos : List R.AccountInfo =
          core_bridge_config ∷ message ∷ emitter ∷ sequence ∷ payer ∷ fee_collector ∷ clock
          ∷ system_program ∷ core_bridge_program ∷ event_authority ∷ post_message_shim ∷ []
      let seeds : List (List Bytes) = (emitter_seed ∷ (emitter_bump ∷ []) ∷ []) ∷ []
      call (R.invoke_signed post_message_ix infos seeds) post_message_ix infos seeds
      msg message_emitted

unfoldable pub build_instruction_data : ℕ → ℕ → Bytes → Bytes
build_instruction_data nonce finality payload =
    to_le_bytes 4 nonce ++ (finality ∷ (to_le_bytes 4 (length payload % 2 ^ 32) ++ payload))

unfoldable pub build_emit_message_instruction : EmitterDeps → Pubkey → ℕ → ℕ → Bytes → Instruction
unfolding build_instruction_data find_emitter_address
build_emit_message_instruction D payer nonce finality payload =
    let (emitter, _) = find_emitter_address D in
    let (core_bridge_config, _) = D.find_core_bridge_config_address D.core_bridge_program_id in
    let (message, _) = D.find_shim_message_address emitter D.post_message_shim_program_id in
    let (sequence, _) = D.find_emitter_sequence_address emitter D.core_bridge_program_id in
    let (fee_collector, _) = D.find_fee_collector_address D.core_bridge_program_id in
    let (event_authority, _) = D.find_event_authority_address D.post_message_shim_program_id in
    record {
      program_id = D.program_id;
      accounts =
          writable core_bridge_config false
          ∷ writable message false
          ∷ readonly emitter false
          ∷ writable sequence false
          ∷ writable payer true
          ∷ writable fee_collector false
          ∷ readonly D.clock_id false
          ∷ readonly D.system_program_id false
          ∷ readonly D.core_bridge_program_id false
          ∷ readonly event_authority false
          ∷ readonly D.post_message_shim_program_id false
          ∷ [];
      ix_data = build_instruction_data nonce finality payload;
    }
