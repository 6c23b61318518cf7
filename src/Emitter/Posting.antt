-- ===== src/Emitter/Posting.antt =====
-- What the emitter program asks of the Post Message Shim, and when it succeeds.
use wormhole_svm_utils.Prelude.{ℕ, ◌+◌, ◌-◌, ◌%◌, ◌^◌, ◌≤◌, ◌<◌, ◌≡◌, refl, ap, ◌∙◌, arith}
use wormhole_svm_utils.Prelude.{
  List, [], ◌∷◌, ◌++◌, length, drop, get_elem?, some, ok, err, panic, Result,
}
use wormhole_svm_utils.Prelude.{
  length-append, get_elem?-append, ◌==◌, list_eq, ==_iff, true, false, Result-cases, inl, inr,
}
use wormhole_svm_utils.Prelude.Bytes.{Bytes, to_le_bytes, from_le_bytes}
use wormhole_svm_utils.Prelude.Bytes.{length-to_le_bytes, from_le_bytes-to_le_bytes}
use wormhole_svm_utils.Prelude.Windows.{
  window, window-at, window-all, drop-past, slice_ok, array_or_ok,
}
use wormhole_svm_utils.Solana.{
  ProgramError, invalid_instruction_data, Runtime, Event, log, cpi, Run,
}
use wormhole_svm_utils.Solana.{Instruction, writable, readonly}
use wormhole_svm_utils.Emitter
use wormhole_svm_utils.Emitter.{Log, EmitterDeps, emitter_seed, read_message, find_emitter_address}
use wormhole_svm_utils.Emitter.{post_message_data, process_instruction, build_instruction_data}

module _ {I : Type 0} where
  -- A whole frame is read.
  pub read_message_ok :
      (frame : Bytes) (finality n : ℕ)
      → get_elem? frame 4 ≡ some finality
      → from_le_bytes (window 5 4 frame) ≡ n
      → 9 + n ≤ length frame
      → read_message {I = I} frame
        ≡ (ok (from_le_bytes (window 0 4 frame), finality, window 9 n frame), [])
  unfolding read_message
  read_message_ok frame finality n at e h =
      let size : 9 + n - 9 ≡ n = omega arith in
      ground (
        arith,
        array_or_ok {E = ProgramError} (err invalid_instruction_data) 4 0 4 frame (omega arith)
            (omega arith),
        array_or_ok {E = ProgramError} (err invalid_instruction_data) 4 5 9 frame (omega arith)
            (omega arith),
        slice_ok {E = ProgramError} 9 (9 + n) frame (omega arith) h,
      )

  -- What the builder frames is read back.
  pub read_message-build_instruction_data :
      (nonce finality : ℕ) (payload : Bytes)
      → nonce < 2 ^ 32
      → length payload < 2 ^ 32
      → read_message {I = I} (build_instruction_data nonce finality payload)
        ≡ (ok (nonce, finality, payload), [])
  unfolding build_instruction_data
  read_message-build_instruction_data nonce finality payload hn hp =
      let n = length payload in
      let first = to_le_bytes 4 nonce in
      let word = to_le_bytes 4 (n % 2 ^ 32) in
      let raw = first ++ (finality ∷ (word ++ payload)) in
      let four : length first ≡ 4 = length-to_le_bytes 4 nonce in
      let four' : length word ≡ 4 = length-to_le_bytes 4 (n % 2 ^ 32) in
      let at_4 : drop 4 raw ≡ (finality ∷ []) ++ (word ++ payload) =
        drop-past raw first (finality ∷ (word ++ payload)) 0 4 refl four 4 refl in
      let at_5 : drop 5 raw ≡ word ++ payload =
        drop-past raw (finality ∷ []) (word ++ payload) 4 1 at_4 refl 5 refl in
      let at_9 : drop 9 raw ≡ payload = drop-past raw word payload 5 4 at_5 four' 9 refl in
      let whole : window 9 n raw ≡ payload =
        unfold window in rw at_9 (unfold window in window-all payload n refl) in
      let value : from_le_bytes (window 5 4 raw) ≡ n =
        ap from_le_bytes (window-at raw word payload 5 4 at_5 four')
        ∙ from_le_bytes-to_le_bytes 4 (n % 2 ^ 32) (omega arith)
        ∙ omega arith in
      let number : from_le_bytes (window 0 4 raw) ≡ nonce =
        ap from_le_bytes (window-at raw first (finality ∷ (word ++ payload)) 0 4 refl four)
        ∙ from_le_bytes-to_le_bytes 4 nonce hn in
      let size : 9 + n ≤ length raw =
        omega
          (arith, length-append first (finality ∷ (word ++ payload)), length-append word payload) in
      rw (
        read_message_ok raw finality n (get_elem?-append first (word ++ payload) finality 4 four)
            value size,
        number,
        whole,
      )

module _ (D : EmitterDeps) (R : Runtime) where
  -- The accounts of the instruction, by the order in which they are taken.
  pub record Accounts : Type 0 where
    pub core_bridge_config : R.AccountInfo
    pub message : R.AccountInfo
    pub emitter : R.AccountInfo
    pub sequence : R.AccountInfo
    pub payer : R.AccountInfo
    pub fee_collector : R.AccountInfo
    pub clock : R.AccountInfo
    pub system_program : R.AccountInfo
    pub core_bridge_program : R.AccountInfo
    pub event_authority : R.AccountInfo
    pub post_message_shim : R.AccountInfo

  abbrev pub listed : Accounts → List R.AccountInfo
  listed a =
      a.core_bridge_config ∷ a.message ∷ a.emitter ∷ a.sequence ∷ a.payer ∷ a.fee_collector
      ∷ a.clock ∷ a.system_program ∷ a.core_bridge_program ∷ a.event_authority ∷ a.post_message_shim
      ∷ []

  -- The layout of `post_message`: the selector, the nonce, the finality, and the payload behind its
  -- length.
  abbrev pub posted_data : ℕ → ℕ → Bytes → Bytes
  posted_data nonce finality payload =
      D.post_message_selector
      ++ (to_le_bytes 4 nonce ++ (finality ∷ (to_le_bytes 4 (length payload) ++ payload)))

  pub post_message_data-posted_data :
      (nonce finality : ℕ) (payload : Bytes)
      → length payload < 2 ^ 32
      → post_message_data D nonce finality payload ≡ posted_data nonce finality payload
  unfolding post_message_data
  post_message_data-posted_data nonce finality payload h =
      let fits : length payload % 2 ^ 32 ≡ length payload = omega arith in rw fits refl

  -- The CPI that posts a message: the emitter signs it, and so does the payer.
  abbrev pub post_ix : Accounts → ℕ → ℕ → Bytes → Instruction
  post_ix a nonce finality payload = record {
    program_id = D.post_message_shim_program_id;
    accounts =
        writable (R.key a.core_bridge_config) false
        ∷ writable (R.key a.message) false
        ∷ readonly (R.key a.emitter) true
        ∷ writable (R.key a.sequence) false
        ∷ writable (R.key a.payer) true
        ∷ writable (R.key a.fee_collector) false
        ∷ readonly (R.key a.clock) false
        ∷ readonly (R.key a.system_program) false
        ∷ readonly (R.key a.core_bridge_program) false
        ∷ readonly (R.key a.event_authority) false
        ∷ readonly (R.key a.post_message_shim) false
        ∷ [];
    ix_data = posted_data nonce finality payload;
  }

  abbrev pub emitter_seeds : List (List Bytes)
  emitter_seeds = (emitter_seed ∷ ((find_emitter_address D).1 ∷ []) ∷ []) ∷ []

  -- How the run ends, by the shim's answer.
  abbrev pub post_outcome :
      Result ProgramError (Unit {0}) → Accounts → ℕ → ℕ → Bytes → Run Log R.AccountInfo (Unit {0})
  post_outcome r a nonce finality payload =
      let head = λ (rest : List (Event Log R.AccountInfo)).
        log Emitter.processing_emit_message
        ∷ log (Emitter.emitting_message nonce finality (length payload))
        ∷ cpi (post_ix a nonce finality payload) (listed a) emitter_seeds
        ∷ rest in
      elim r [
        | ok _ ↦ (ok tt, head (log Emitter.message_emitted ∷ []))
        | err e ↦ (err e, head [])
        | panic ↦ (panic, head [])
      ]

  pub post_steps :
      (a : Accounts) (frame : Bytes) (nonce finality : ℕ) (payload : Bytes)
      → R.key a.emitter ≡ (find_emitter_address D).0
      → R.key a.post_message_shim ≡ D.post_message_shim_program_id
      → read_message {I = R.AccountInfo} frame ≡ (ok (nonce, finality, payload), [])
      → length payload < 2 ^ 32
      → process_instruction D R (listed a) frame
        ≡ post_outcome
            (R.invoke_signed (post_ix a nonce finality payload) (listed a) emitter_seeds)
            a
            nonce
            finality
            payload
  unfolding process_instruction
  post_steps a frame nonce finality payload emitter shim e hp =
      let own : (R.key a.emitter == (find_emitter_address D).0) ≡ true = (==_iff _ _).1 emitter in
      let known : (R.key a.post_message_shim == D.post_message_shim_program_id) ≡ true =
        (==_iff _ _).1 shim in
      rw (e, own, known, post_message_data-posted_data nonce finality payload hp)
        (elim (Result-cases
          (R.invoke_signed (post_ix a nonce finality payload) (listed a) emitter_seeds)) [
            | inl (_, e) ↦ rw e
            | inr (inl (_, e)) ↦ rw e
            | inr (inr e) ↦ rw e
          ])

  -- With the program's own address as the emitter and the shim among the accounts, a u32 nonce and
  -- a payload shorter than 2^32: a run on what the builder frames makes one CPI, signed by the
  -- emitter's seeds, over the accounts in the shim's order, whose data is the selector, the nonce,
  -- the finality, the payload's length and the payload, and it ends as the shim answers.
  pub process_instruction-build_instruction_data_emit :
      (a : Accounts) (nonce finality : ℕ) (payload : Bytes)
      → R.key a.emitter ≡ (find_emitter_address D).0
      → R.key a.post_message_shim ≡ D.post_message_shim_program_id
      → nonce < 2 ^ 32
      → length payload < 2 ^ 32
      → process_instruction D R (listed a) (build_instruction_data nonce finality payload)
        ≡ post_outcome
            (R.invoke_signed (post_ix a nonce finality payload) (listed a) emitter_seeds)
            a
            nonce
            finality
            payload
  process_instruction-build_instruction_data_emit a nonce finality payload emitter shim hn hp =
      post_steps a _ nonce finality payload emitter shim
        (read_message-build_instruction_data nonce finality payload hn hp) hp
