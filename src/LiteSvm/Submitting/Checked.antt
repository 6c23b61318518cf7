-- ===== src/LiteSvm/Submitting/Checked.antt =====
-- What a submission over LiteSVM has done when it returns.
use wormhole_svm_utils.Prelude.{ℕ, ◌≤◌, ◌≡◌, sym, ap, ◌∙◌, subst, Bool, List, [], Result, ok, err}
use wormhole_svm_utils.Prelude.Bytes.{Bytes, to_be_bytes}
use wormhole_svm_utils.Solana.{Pubkey}
use wormhole_svm_utils.Guardian.{Crypto, TestGuardianSet}
use wormhole_svm_utils.Vaa.{TestVaa, body, guardian_signatures}
use wormhole_svm_utils.Submit.Connection.{Sdk, >>=-returned, SolanaConnection}
use wormhole_svm_utils.Submit.Protocol.{Protocol, SubmitError}
use wormhole_svm_utils.Submit.Resolve.{ResolverResult}
use wormhole_svm_utils.Submit.Resolve.Rounds.{Resolves, resolve_execute_vaa_v1-Resolves}
use wormhole_svm_utils.Submit.Execute.{discover_keypairs, execute_instruction_groups}
use wormhole_svm_utils.Submit.Execute.Sending.{Runs, execute_instruction_groups-Runs}
use wormhole_svm_utils.Submit.Signatures.{Shim, PostedSignatures}
use wormhole_svm_utils.Submit.Broadcast.{Definitions}
use wormhole_svm_utils.LiteSvm.{LiteSvm, LiteSvmError, litesvm_connection}
use wormhole_svm_utils.LiteSvm.Resolving.{resolve_execute_vaa_v1-litesvm_connection}
use wormhole_svm_utils.LiteSvm.Mainnet.{Mainnet}
use wormhole_svm_utils.LiteSvm.Checks.{World}
use wormhole_svm_utils.LiteSvm.Checks.Parts.{Guarded, mapped-returned}
use wormhole_svm_utils.LiteSvm.Checks.Passes
use wormhole_svm_utils.LiteSvm.Checks.Fails
use wormhole_svm_utils.LiteSvm.Modified.{wrong_sequence, wrong_chain, wrong_address}
use wormhole_svm_utils.LiteSvm.Submitting.{
  max_resolver_iterations, submission, resolve_execute_vaa_v1, broadcast_vaa,
}

module _ (P : Protocol) {S : Sdk} (L : LiteSvm S)
    (to_string : SubmitError (LiteSvmError L.Failure) P.DecodeError → Bytes) where
  abbrev conn : SolanaConnection S
  conn = litesvm_connection L

  -- The closure of `broadcast_vaa` returned: rounds of simulation that leave the state as it was
  -- gave the groups, and these were sent.
  pub record Executes (program_id : Pubkey) (payer : S.Keypair) (guardian_set sigs_pubkey : Pubkey)
      (vaa_body : Bytes) (sigs : List S.Signature) (t u : World L) : Type 0 where
    pub resolved : ResolverResult
    pub resolves : Resolves P conn program_id payer vaa_body guardian_set 1 [] t resolved t
    pub iterations_le : resolved.iterations ≤ max_resolver_iterations
    pub runs :
        Runs P conn payer sigs_pubkey guardian_set
          (discover_keypairs P conn resolved.instruction_groups t).0
          resolved.instruction_groups
          (discover_keypairs P conn resolved.instruction_groups t).1
          (ok sigs)
          u

  submission-Executes :
      (program_id : Pubkey) (payer : S.Keypair) (guardian_set sigs_pubkey : Pubkey)
      (vaa_body : Bytes) (sigs : List S.Signature) (t u : World L)
      → submission P L to_string program_id payer guardian_set sigs_pubkey vaa_body t ≡ (ok sigs, u)
      → Executes program_id payer guardian_set sigs_pubkey vaa_body sigs t u
  unfolding submission
  submission-Executes program_id payer guardian_set sigs_pubkey vaa_body sigs t u h =
      let (resolved, w, e, k) =
        >>=-returned
          (resolve_execute_vaa_v1 P L to_string program_id payer vaa_body guardian_set
            max_resolver_iterations)
          _ t u h in
      let e' = mapped-returned to_string _ w e in
      let same : w ≡ t =
        sym (ap (λ (p : _ × World L). p.1) e')
        ∙ resolve_execute_vaa_v1-litesvm_connection P L program_id payer vaa_body guardian_set
            max_resolver_iterations t in
      let (r, bound) =
        (resolve_execute_vaa_v1-Resolves P conn program_id payer vaa_body guardian_set
            max_resolver_iterations t w resolved).0
          e' in
      let sent = mapped-returned to_string _ u k in
      record {
        resolved = resolved;
        resolves =
            subst (Resolves P conn program_id payer vaa_body guardian_set 1 [] t resolved) same r;
        iterations_le = bound;
        runs =
            (execute_instruction_groups-Runs P conn payer sigs_pubkey guardian_set
                resolved.instruction_groups t u (ok sigs) (λ p. cc)).0
              (subst
                (λ (t : World L).
                  execute_instruction_groups P conn payer resolved.instruction_groups sigs_pubkey
                    guardian_set t
                  ≡ (ok sigs, u))
                same sent);
      }

  module _ (D : Definitions) (M : Mainnet) (shim : Shim) (C : Crypto) (I : Type 0)
      (payer : S.Keypair) (program_id : Pubkey) (guardians : TestGuardianSet C)
      (guardian_set_index : ℕ) (v : TestVaa) where
    abbrev guardian_set : Pubkey
    guardian_set =
        (D.find_guardian_set_address (to_be_bytes 4 guardian_set_index) M.core_bridge_program_id).0

    abbrev submitting : Pubkey → Bytes → World L → Result Bytes (List S.Signature) × World L
    submitting = submission P L to_string program_id payer guardian_set

    abbrev Posts : List Bytes → World L → PostedSignatures S → World L → Type 0
    Posts sigs s posted t =
        Passes.posting D shim L P.DecodeError I C payer guardians guardian_set_index v submitting
          sigs s
        ≡ (ok posted, t)

    abbrev signed : TestVaa → List Bytes
    signed w = guardian_signatures C w guardians

    -- The virtual machine was changed by this alone: the VAA's signatures were posted, the groups
    -- that the resolver gave were sent, and the signatures were closed. On a clone of it before, the
    -- submission failed with the signatures of the VAA of the next sequence number.
    pub record Submits (sigs : List S.Signature) (s s' : World L) : Type 0 where
      pub wrong_posted : PostedSignatures S
      pub wrong_after_post : World L
      pub wrong_error : Bytes
      pub wrong_after : World L
      pub posts_wrong : Posts (signed (wrong_sequence v)) s wrong_posted wrong_after_post
      pub wrong_fails :
          submitting wrong_posted.pubkey (body v) wrong_after_post ≡ (err wrong_error, wrong_after)
      pub start : World L
      pub posted : PostedSignatures S
      pub after_post : World L
      pub after_groups : World L
      pub after_close : World L
      pub on_svm : start.0 ≡ s.0
      pub posts : Posts (signed v) start posted after_post
      pub executes :
          Executes program_id payer guardian_set posted.pubkey (body v) sigs after_post after_groups
      pub closes :
          Passes.closing D shim L P.DecodeError I C payer guardians guardian_set_index v submitting
            posted after_groups
          ≡ (ok tt, after_close)
      pub leaves : s'.0 ≡ after_close.0

    -- If `broadcast_vaa` over LiteSVM returns, then the submission failed on a clone with the
    -- signatures of the VAA of the next sequence number; and on the virtual machine, the VAA's
    -- signatures were posted, at most `MAX_RESOLVER_ITERATIONS` rounds of simulation gave the
    -- instruction groups, each group's transaction was sent in order, the signatures were closed,
    -- and nothing else changed the virtual machine.
    pub broadcast_vaa-Submits :
        (sigs : List S.Signature) (s s' : World L)
        → broadcast_vaa P L to_string D M shim C {I = I} payer program_id guardians
            guardian_set_index v s
          ≡ (ok sigs, s')
        → Submits sigs s s'
    unfolding broadcast_vaa
    broadcast_vaa-Submits sigs s s' h =
        let p =
          (Passes.with_vaa-Passes D shim L P.DecodeError I C payer guardians guardian_set_index v
              submitting sigs s s').0
            h in
        let a = p.accepted in
        record {
          wrong_posted = p.verification.posted;
          wrong_after_post = p.verification.after_post;
          wrong_error = p.verification.error;
          wrong_after = p.verification.after_call;
          posts_wrong = p.verification.posts;
          wrong_fails = p.verification.rejects;
          start = p.s3;
          posted = a.posted;
          after_post = a.after_post;
          after_groups = a.after_call;
          after_close = p.s4;
          on_svm =
              same (wrong_address v) p.address
              ∙ same (wrong_chain v) p.chain
              ∙ ap (λ (t : World L). t.0) p.verification.drops;
          posts = a.posts;
          executes =
              submission-Executes program_id payer guardian_set _ (body v) sigs _ _ a.accepts;
          closes = a.closes;
          leaves = same v p.replay;
        }
      where
        same :
            (w : TestVaa) {b : Bool} {s s' : World L}
            → Guarded b
                (Passes.Refuses D shim L P.DecodeError I C payer guardians guardian_set_index v
                  submitting w)
                s
                s'
            → s'.0 ≡ s.0
        same w g =
            Fails.Guarded-svm D shim L P.DecodeError I C payer guardians guardian_set_index v
              submitting w g
