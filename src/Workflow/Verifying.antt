-- ===== src/Workflow/Verifying.antt =====
-- `with_vaa` over the instruction of the verifier program that verifies: `test_with_vaa_helper` of
-- tests/verify_vaa_example.rs, for every VAA.
use wormhole_svm_utils.Prelude.{
  ℕ, Bool, ◌^◌, ◌<◌, ◌≡◌, ◌≢◌, ◌↔◌, refl, sym, ap, ◌∙◌, List, [], ◌∷◌, length, Result, ok, err,
}
use wormhole_svm_utils.Prelude.Bytes.{Bytes}
use wormhole_svm_utils.Solana.{Pubkey, ProgramError, Instruction, Runtime, Run}
use wormhole_svm_utils.Guardian.{Crypto, TestGuardianSet}
use wormhole_svm_utils.Vaa.{TestVaa, body, guardian_signatures}
use wormhole_svm_utils.Submit.Connection.{Sdk, Exec, ok-ne-err}
use wormhole_svm_utils.Submit.Signatures.{Shim, PostedSignatures}
use wormhole_svm_utils.Submit.Broadcast.{Definitions}
use wormhole_svm_utils.Verifier.{
  Log, VerifierDeps, process_instruction, build_verify_vaa_instruction,
}
use wormhole_svm_utils.Verifier.Verified.{
  verify_ix, verify_outcome, outcome_ok, process_instruction-build_instruction_data,
}
use wormhole_svm_utils.LiteSvm.{LiteSvm}
use wormhole_svm_utils.LiteSvm.Modified.{wrong_sequence, wrong_chain, wrong_address}
use wormhole_svm_utils.LiteSvm.Checks.{World, TestError, post_signatures, with_vaa}
use wormhole_svm_utils.LiteSvm.Checks.Parts.{Guarded}
use wormhole_svm_utils.LiteSvm.Checks.Passes
use wormhole_svm_utils.LiteSvm.Checks.Passes.{with_vaa-Passes}
use wormhole_svm_utils.LiteSvm.Checks.Fails.{Guarded-svm}
use wormhole_svm_utils.Workflow.{verify_closure}
use wormhole_svm_utils.Workflow.Running.{
  RunsVerifier, IsSent, four, runs, send_instruction-ok, send_instruction_of_sent,
  send_instruction-IsSent, ok-send_instruction,
}

module _ {S : Sdk} (L : LiteSvm S) (tx_failed : L.Failure → Bytes) (V : VerifierDeps)
    (M : RunsVerifier L V) (payer : S.Keypair) (guardian_set : Pubkey) (guardian_set_bump : ℕ)
    (keccak_length : (bs : Bytes) → length (V.keccak bs) ≡ 32) where
  abbrev pub verify : Pubkey → Bytes → Exec (World L) Bytes (Unit {0})
  verify = verify_closure L tx_failed V payer guardian_set guardian_set_bump

  abbrev pub verify_ix_of : Pubkey → Bytes → Instruction
  verify_ix_of sigs b =
      build_verify_vaa_instruction V (S.pubkey payer) guardian_set sigs guardian_set_bump b

  -- Over the infos of the program's four accounts, the shim's answer to the double hash of a body
  -- and a signatures account.
  pub record Asks (svm : L.Svm) (sigs : Pubkey) (b : Bytes)
      (P : Result ProgramError (Unit {0}) → Type 0) : Type 0 where
    pub payer_info : (M.runtime svm).AccountInfo
    pub set_info : (M.runtime svm).AccountInfo
    pub sigs_info : (M.runtime svm).AccountInfo
    pub shim_info : (M.runtime svm).AccountInfo
    pub given :
        M.infos svm
          (build_verify_vaa_instruction V
            (S.pubkey payer)
            guardian_set
            sigs
            guardian_set_bump
            b).accounts
        ≡ payer_info ∷ set_info ∷ sigs_info ∷ shim_info ∷ []
    pub answer : P (
        (M.runtime svm).invoke
          (V.verify_hash_instruction V.verify_vaa_shim_program_id guardian_set sigs
            guardian_set_bump
            (V.keccak (V.keccak b)))
          (set_info ∷ sigs_info ∷ []))

  verify_outcome-ok :
      (r : Result ProgramError (Unit {0})) (R : Runtime) (ix : Instruction)
      (is : List R.AccountInfo) (b : Bytes)
      → ((verify_outcome V R r ix is b).0 ≡ ok tt) ↔ (r ≡ ok tt)
  verify_outcome-ok r R ix is b = (outcome_ok V R keccak_length r ix is b, λ h. rw h)

  -- The program's run on the instruction succeeds exactly where the shim answers so.
  runs-Asks :
      (svm : L.Svm) (sigs : Pubkey) (b : Bytes)
      → length b < 2 ^ 32
      → let ix =
          build_verify_vaa_instruction V (S.pubkey payer) guardian_set sigs guardian_set_bump b in
        Asks svm sigs b (λ r. (runs M svm ix ≡ ok tt) ↔ (r ≡ ok tt))
  unfolding build_verify_vaa_instruction
  runs-Asks svm sigs b small =
      let ix =
        build_verify_vaa_instruction V (S.pubkey payer) guardian_set sigs guardian_set_bump b in
      let R = M.runtime svm in
      let (a, c, d, e, same, set_key, sigs_key, shim_key) =
        four R.key (M.infos svm ix.accounts) _ _ _ _ (M.key-infos svm ix.accounts) in
      let asked : Pubkey → Pubkey → Result ProgramError (Unit {0}) = λ j k.
        R.invoke
          (V.verify_hash_instruction V.verify_vaa_shim_program_id j k guardian_set_bump
            (V.keccak (V.keccak b)))
          (c ∷ d ∷ []) in
      let keys : asked (R.key c) (R.key d) ≡ asked guardian_set sigs =
        ap (λ (j : Pubkey). asked j (R.key d)) set_key ∙ ap (asked guardian_set) sigs_key in
      let ran : runs M svm ix
          ≡ (verify_outcome V R (asked (R.key c) (R.key d)) (verify_ix V R c d guardian_set_bump b)
              (c ∷ d ∷ []) b).0 =
        ap (λ (is : List R.AccountInfo). (process_instruction V R is ix.ix_data).0) same
        ∙ ap (λ (p : Run Log R.AccountInfo (Unit {0})). p.0)
            (process_instruction-build_instruction_data V R keccak_length a c d e []
              guardian_set_bump b shim_key small) in
      let outcome =
        verify_outcome-ok (asked (R.key c) (R.key d)) R (verify_ix V R c d guardian_set_bump b)
          (c ∷ d ∷ []) b in
      record {
        payer_info = a;
        set_info = c;
        sigs_info = d;
        shim_info = e;
        given = same;
        answer = (λ h. sym keys ∙ outcome.0 (sym ran ∙ h), λ h. ran ∙ outcome.1 (keys ∙ h));
      }

  Asks-map :
      {P Q : Result ProgramError (Unit {0}) → Type 0} (svm : L.Svm) (sigs : Pubkey) (b : Bytes)
      → ((r : Result ProgramError (Unit {0})) → P r → Q r)
      → Asks svm sigs b P
      → Asks svm sigs b Q
  Asks-map svm sigs b f a = record {
    payer_info = a.payer_info;
    set_info = a.set_info;
    sigs_info = a.sigs_info;
    shim_info = a.shim_info;
    given = a.given;
    answer = f _ a.answer;
  }

  program_is_own :
      (sigs : Pubkey) (b : Bytes)
      → (build_verify_vaa_instruction V
          (S.pubkey payer)
          guardian_set
          sigs
          guardian_set_bump
          b).program_id
        ≡ V.program_id
  unfolding build_verify_vaa_instruction
  program_is_own sigs b = refl

  module _ (sigs : Pubkey) (b : Bytes) (s s' : World L) (small : length b < 2 ^ 32) where
    -- A run of the closure that succeeds.
    verify_closure-ok : verify sigs b s ≡ (ok tt, s') → Asks s.0 sigs b (λ r. r ≡ ok tt)
    unfolding verify_closure
    verify_closure-ok h =
        Asks-map s.0 sigs b
          (λ r both.
            both.0 (ok-send_instruction L tx_failed V M payer _ s s' (program_is_own sigs b) h))
          (runs-Asks s.0 sigs b small)

    -- A run of the closure that fails has sent a transaction, and if the machine admits it then
    -- the shim has not accepted.
    verify_closure-err :
        (e : Bytes)
        → verify sigs b s ≡ (err e, s')
        → (tx : S.Transaction) × IsSent L payer (verify_ix_of sigs b) s.0 tx
          × ((L.send_transaction tx s.0).0 ≢ ok tt)
          × (M.Admits s.0 tx → Asks s.0 sigs b (λ r. r ≢ ok tt))
    unfolding verify_closure
    verify_closure-err e h =
        let (tx, signed) =
          send_instruction-IsSent L tx_failed V M payer (verify_ix_of sigs b) s s' (err e) h
            (λ p. cc) in
        (
          tx,
          signed,
          λ sent.
              ok-ne-err tt e ((L.send_transaction tx s.0).1, s.1) s'
                (sym (send_instruction_of_sent L tx_failed V M payer _ s tx signed sent) ∙ h),
          λ admits.
              Asks-map s.0 sigs b
                (λ r both accepted.
                  let (svm, sent) =
                    send_instruction-ok L tx_failed V M payer _ s tx (program_is_own sigs b) signed
                      admits (both.1 accepted) in
                  ok-ne-err tt e (svm, s.1) s' (sym sent ∙ h))
                (runs-Asks s.0 sigs b small),
        )

  module _ (D : Definitions) (shim : Shim) (F I : Type 0) (C : Crypto)
      (guardians : TestGuardianSet C) (guardian_set_index : ℕ) (v : TestVaa) where
    abbrev posting :
        TestVaa → World L → Result (TestError L F Bytes I) (PostedSignatures S) × World L
    posting w =
        post_signatures D shim L payer guardian_set_index (guardian_signatures C w guardians)

    -- On a clone of the virtual machine and on the machine itself, signatures are posted, and a
    -- transaction with the same body follows. On the clone, where these are of the VAA of the next
    -- sequence number, it has failed, and if it was admitted then the shim has refused; on the
    -- machine, with the VAA's own, the shim has accepted.
    pub record Distinguishes (s : World L) : Type 0 where
      pub wrong : PostedSignatures S
      pub after_wrong : World L
      pub start : World L
      pub right : PostedSignatures S
      pub after_right : World L
      pub posts_wrong : posting (wrong_sequence v) s ≡ (ok wrong, after_wrong)
      pub wrong_tx : S.Transaction
      pub sent_wrong : IsSent L payer (verify_ix_of wrong.pubkey (body v)) after_wrong.0 wrong_tx
      pub fails_wrong : (L.send_transaction wrong_tx after_wrong.0).0 ≢ ok tt
      pub refuses :
          M.Admits after_wrong.0 wrong_tx
          → Asks after_wrong.0 wrong.pubkey (body v) (λ r. r ≢ ok tt)
      pub unchanged : start.0 ≡ s.0
      pub posts_right : posting v start ≡ (ok right, after_right)
      pub accepts : Asks after_right.0 right.pubkey (body v) (λ r. r ≡ ok tt)

    -- If the virtual machine runs the verifier program, hashes have 32 bytes and the body is
    -- shorter than 2^32: where `with_vaa` over the verifying instruction succeeds, two transactions
    -- about the same body were sent, with the guardian set's address and bump: the one beside the
    -- posted signatures of the VAA with the next sequence number failed, and if the virtual machine
    -- admits it then the shim did not accept; and, from the same virtual machine, beside the posted
    -- signatures of the VAA the shim accepted.
    pub with_vaa-verify_closure :
        (s s' : World L)
        → length (body v) < 2 ^ 32
        → with_vaa D shim L {F = F} {I = I} C payer guardians guardian_set_index v verify s
          ≡ (ok tt, s')
        → Distinguishes s
    with_vaa-verify_closure s s' small h =
        let p =
          (with_vaa-Passes D shim L F I C payer guardians guardian_set_index v verify tt s s').0
            h in
        let (tx, sent, fails, refuses) =
          verify_closure-err _ _ _ p.verification.after_call small p.verification.error
            p.verification.rejects in
        record {
          wrong = p.verification.posted;
          after_wrong = p.verification.after_post;
          start = p.s3;
          right = p.accepted.posted;
          after_right = p.accepted.after_post;
          posts_wrong = p.verification.posts;
          wrong_tx = tx;
          sent_wrong = sent;
          fails_wrong = fails;
          refuses = refuses;
          unchanged =
              svm (wrong_address v) p.address
              ∙ svm (wrong_chain v) p.chain
              ∙ ap (λ (t : World L). t.0) p.verification.drops;
          posts_right = p.accepted.posts;
          accepts = verify_closure-ok _ _ _ p.accepted.after_call small p.accepted.accepts;
        }
      where
        svm :
            (w : TestVaa) {b : Bool} {t t' : World L}
            → Guarded b
                (Passes.Refuses D shim L F I C payer guardians guardian_set_index v verify w)
                t
                t'
            → t'.0 ≡ t.0
        svm w g = Guarded-svm D shim L F I C payer guardians guardian_set_index v verify w g
