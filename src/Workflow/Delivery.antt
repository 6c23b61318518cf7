-- ===== src/Workflow/Delivery.antt =====
-- A message from the emitter program to the verifier program: `test_emit_capture_verify_roundtrip`
-- of tests/verify_vaa_example.rs.
use wormhole_svm_utils.Prelude.{
  ℕ, ◌+◌, ◌^◌, ◌<◌, ◌≡◌, refl, ap, ◌∙◌, arith, List, [], ◌∷◌, ◌++◌, length, ok,
}
use wormhole_svm_utils.Prelude.Bytes.{Bytes, AreBytes, IsByte}
use wormhole_svm_utils.Prelude.Windows.{window}
use wormhole_svm_utils.Solana.{Runtime, Event, log, cpi, Instruction}
use wormhole_svm_utils.Guardian.{Crypto, HasArrayTypes, TestGuardianSet}
use wormhole_svm_utils.Vaa.{TestVaa, body, sign, digest, guardian_signatures}
use wormhole_svm_utils.Vaa.Layout.{IsTyped, length-body, payload-body}
use wormhole_svm_utils.Cli.SignedVaa.{SignedVaa, parse_signed_vaa}
use wormhole_svm_utils.Cli.SignedVaa.RoundTrip.{parse_signed_vaa-sign}
use wormhole_svm_utils.Capture.{PostedMessageInfo, to_test_vaa, extract_posted_message_info_from_tx}
use wormhole_svm_utils.Emitter.{EmitterDeps, find_emitter_address}
use wormhole_svm_utils.Verifier
use wormhole_svm_utils.Verifier.{Log, VerifierDeps}
use wormhole_svm_utils.Verifier.Verified.{verify_ix, process_instruction-build_instruction_data}
use wormhole_svm_utils.Verifier.TestVaas.{payload_lines, body_info-body, payload_info-lines}
use wormhole_svm_utils.Workflow.Emission.{
  Emission, HasConstants, IsEmission, inner_list, info_of, extract-emit,
}

-- What the verifier logs of a message, and the CPI that it makes.
abbrev pub receipt :
    {A : Type 0} → ℕ → ℕ → Bytes → Bytes → Instruction → List A → List (Event Log A)
receipt chain sequence payload digest ix infos =
    log Verifier.processing_verify_vaa
    ∷ log (Verifier.vaa_body_info chain sequence)
    ∷ log (Verifier.vaa_digest (window 0 8 digest))
    ∷ cpi ix infos []
    ∷ log Verifier.vaa_verified
    ∷ (payload_lines payload ++ (log Verifier.success ∷ []))

module _ (D : EmitterDeps) (ER : Runtime) (discriminator anchor : Bytes) (C : Crypto)
    (V : VerifierDeps) (R : Runtime) where
  to_test_vaa-IsTyped :
      (m : Emission D ER discriminator anchor)
      → HasConstants D ER discriminator anchor
      → IsEmission D ER discriminator anchor m
      → AreBytes (find_emitter_address D).0
      → IsByte m.finality
      → AreBytes m.payload
      → IsTyped (to_test_vaa (info_of D ER discriminator anchor m))
  unfolding to_test_vaa
  to_test_vaa-IsTyped m K h he hf hp = record {
    timestamp_u32 = h.submission_time_u32;
    nonce_u32 = h.nonce_u32;
    emitter_chain_u16 = omega arith;
    length_emitter_address = K.length-emitter;
    emitter_address_bytes = he;
    sequence_u64 = h.sequence_u64;
    consistency_level_u8 = hf;
    guardian_set_index_u32 = omega arith;
    payload_bytes = hp;
  }

  module _ (T : HasArrayTypes C) (same_hash : (bs : Bytes) → V.keccak bs ≡ C.keccak256 bs) where
    -- An accepting run of the verifier on the body of a VAA.
    process_instruction-body :
        (payer gs sigs shim : R.AccountInfo) (more : List R.AccountInfo) (bump : ℕ) (v : TestVaa)
        → IsTyped v
        → length (body v) < 2 ^ 32
        → R.key shim ≡ V.verify_vaa_shim_program_id
        → let ix =
            V.verify_hash_instruction V.verify_vaa_shim_program_id
              (R.key gs)
              (R.key sigs)
              bump
              (digest C v) in
          R.invoke ix (gs ∷ sigs ∷ []) ≡ ok tt
          → Verifier.process_instruction V R
              (payer ∷ gs ∷ sigs ∷ shim ∷ more)
              (Verifier.build_instruction_data bump (body v))
            ≡ (
              ok tt,
              receipt v.emitter_chain v.sequence v.payload
                  (digest C v)
                  (V.verify_hash_instruction V.verify_vaa_shim_program_id
                    (R.key gs)
                    (R.key sigs)
                    bump
                    (digest C v))
                  (gs ∷ sigs ∷ []),
            )
    unfolding digest
    process_instruction-body payer gs sigs shim more bump v typed small key accepts =
        let twice : V.keccak (V.keccak (body v)) ≡ C.keccak256 (C.keccak256 (body v)) =
          same_hash (V.keccak (body v)) ∙ ap C.keccak256 (same_hash (body v)) in
        let answer : R.invoke (verify_ix V R gs sigs bump (body v)) (gs ∷ sigs ∷ []) ≡ ok tt =
          ap
            (λ (d : Bytes).
              R.invoke
                (V.verify_hash_instruction V.verify_vaa_shim_program_id (R.key gs) (R.key sigs) bump
                  d)
                (gs ∷ sigs ∷ []))
            twice
          ∙ accepts in
        rw (
          process_instruction-build_instruction_data V R
              (λ bs. ap length (same_hash bs) ∙ T.length-keccak256 bs) payer gs sigs shim more bump
              (body v) key small,
          answer,
          verify_ix,
          twice,
          body_info-body Verifier.vaa_body_info v typed,
          payload_info-lines (body v) v.payload (length-body v typed.length_emitter_address)
              (payload-body v typed.length_emitter_address),
        )

    -- For an emission as in Emission, of bytes, if both sides hash alike, the crates' arrays have
    -- their lengths, the body is shorter than 2^32, at most 255 guardians sign, the fourth account
    -- is the verifying shim, and the shim accepts the digest of the message's VAA: the message that
    -- the extraction finds in the transaction, made a VAA and signed, is parsed by the command line
    -- with the guardians' signatures, and the verifier program, run on what its client frames of
    -- the parsed body, succeeds, with one CPI about the VAA's digest, and logs Solana's chain id,
    -- the message's sequence number and its payload.
    pub process_instruction-emit :
        (K : HasConstants D ER discriminator anchor) (m : Emission D ER discriminator anchor)
        (guardians : TestGuardianSet C) (payer gs sigs shim : R.AccountInfo)
        (more : List R.AccountInfo) (bump : ℕ)
        → IsEmission D ER discriminator anchor m
        → AreBytes (find_emitter_address D).0
        → IsByte m.finality
        → AreBytes m.payload
        → 51 + length m.payload < 2 ^ 32
        → length guardians.guardians < 256
        → R.key shim ≡ V.verify_vaa_shim_program_id
        → let v = to_test_vaa (info_of D ER discriminator anchor m) in
          let ix =
            V.verify_hash_instruction V.verify_vaa_shim_program_id
              (R.key gs)
              (R.key sigs)
              bump
              (digest C v) in
          R.invoke ix (gs ∷ sigs ∷ []) ≡ ok tt
          → (info : PostedMessageInfo) × (extract_posted_message_info_from_tx
                D.post_message_selector discriminator
                (inner_list D ER discriminator anchor m ∷ [])
              ≡ ok (info ∷ []))
            × (r : SignedVaa) × (parse_signed_vaa (sign C (to_test_vaa info) guardians) ≡ ok r)
            × (r.signatures ≡ guardian_signatures C (to_test_vaa info) guardians)
            × (Verifier.process_instruction V R
                  (payer ∷ gs ∷ sigs ∷ shim ∷ more)
                  (Verifier.build_instruction_data bump r.body)
                ≡ (
                  ok tt,
                  receipt 1 m.sequence m.payload
                      (digest C (to_test_vaa info))
                      (V.verify_hash_instruction V.verify_vaa_shim_program_id
                        (R.key gs)
                        (R.key sigs)
                        bump
                        (digest C (to_test_vaa info)))
                      (gs ∷ sigs ∷ []),
                ))
    unfolding to_test_vaa
    process_instruction-emit K m guardians payer gs sigs shim more bump h he hf hp small few key
          accepts =
        let info = info_of D ER discriminator anchor m in
        let v = to_test_vaa info in
        let typed = to_test_vaa-IsTyped m K h he hf hp in
        (
          info,
          extract-emit D ER discriminator anchor K (m ∷ []) (h, tt),
          record {
            guardian_set_index = 0;
            signatures = guardian_signatures C v guardians;
            body = body v;
          },
          parse_signed_vaa-sign C T v guardians (omega arith) few,
          refl,
          process_instruction-body payer gs sigs shim more bump v typed
              (omega (arith, length-body v typed.length_emitter_address)) key accepts,
        )
