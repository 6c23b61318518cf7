-- ===== src/Examples/Verifying.antt =====
-- `with_vaa` over a toy LiteSVM that runs the verifier program.
use wormhole_svm_utils.Prelude.{
  ℕ, ◌^◌, ◌<◌, ◌≡◌, refl, sym, ◌∙◌, ap, arith, false, ◌==◌, ==_self, list_eq, nat_eq, if◌then◌else◌,
  List, [], ◌∷◌, ◌++◌, map, concat, length, Result, ok, err, panic,
}
use wormhole_svm_utils.Prelude.Bytes.{Bytes, to_be_bytes, to_le_bytes, from_le_bytes}
use wormhole_svm_utils.Solana.{Pubkey, Instruction, Runtime, ProgramError, invalid_seeds}
use wormhole_svm_utils.Guardian.{sign_vaa_body, sign_body, sign, copy_at}
use wormhole_svm_utils.Vaa
use wormhole_svm_utils.Vaa.{TestVaa, VaaChecks, body, guardian_signatures}
use wormhole_svm_utils.Prelude.Bytes.{from_be_bytes}
use wormhole_svm_utils.Prelude.Windows.{window, array_or, slice, slice_from, index, try_into}
use native.Mathlib.Decide.{ℕ_discrete}
use wormhole_svm_utils.Submit.Signatures
use wormhole_svm_utils.Submit.Signatures.{PostedSignatures}
use wormhole_svm_utils.Verifier.{
  process_instruction, process_verify_vaa, build_verify_vaa_instruction,
  build_skip_verify_instruction, build_instruction_data, read_body, log_body_info, log_payload,
  log_prefix,
}
use wormhole_svm_utils.LiteSvm.{LiteSvm}
use wormhole_svm_utils.LiteSvm.Errors.{verification_bypass}
use wormhole_svm_utils.LiteSvm.Modified.{wrong_sequence}
use wormhole_svm_utils.LiteSvm.Checks
use wormhole_svm_utils.LiteSvm.Checks.{TestError, World, post_signatures, with_vaa}
use wormhole_svm_utils.Workflow.{verify_closure, skip_closure, send_instruction, send_signed}
use wormhole_svm_utils.Workflow.Running.{RunsVerifier, meta_key}
use wormhole_svm_utils.Workflow.Skipping.{with_vaa-skip_closure}
use wormhole_svm_utils.Workflow.Verifying.{Distinguishes, with_vaa-verify_closure}
use wormhole_svm_utils.Examples.Signing.{vaa}
use wormhole_svm_utils.Examples.Toy.{toy_sdk, definitions, Sent}
use wormhole_svm_utils.Examples.Environment.{toy_svm}
use wormhole_svm_utils.Examples.Programs.{toy_deps}
use wormhole_svm_utils.Examples.Checked.{sum_crypto, signers, posting_shim, last_data, start}

-- The VAA without the checks of its emitter and of replays.
abbrev plain : TestVaa
plain = record vaa {
  checks = record { emitter_chain = false; emitter_address = false; replay = Vaa.replayable };
}

-- The shim accepts where the signatures that were posted last are the VAA's.
abbrev shim_answer : Sent → Result ProgramError (Unit {0})
shim_answer svm =
    if last_data svm == concat (guardian_signatures sum_crypto plain signers)
    then ok tt
    else err invalid_seeds

abbrev answering : Sent → Runtime
answering svm = record {
  AccountInfo = Pubkey;
  key = λ k. k;
  invoke = λ ix infos. shim_answer svm;
  invoke_signed = λ ix infos seeds. ok tt;
}

abbrev sent_as : Result ProgramError (Unit {0}) → Result ℕ (Unit {0})
sent_as (ok _) = ok tt
sent_as (err e) = err 1
sent_as panic = err 2

abbrev run_first : List Instruction → Sent → Result ℕ (Unit {0})
run_first [] svm = ok tt
run_first (ix ∷ ixs) svm =
    if ix.program_id == toy_deps.program_id
    then sent_as
        (process_instruction toy_deps (answering svm) (map meta_key ix.accounts) ix.ix_data).0
    else ok tt

abbrev running_svm : LiteSvm toy_sdk
running_svm = record toy_svm { send_transaction = λ tx svm. (run_first tx.0 svm, svm ++ (tx ∷ [])) }

map_self : (ks : List Pubkey) → map (λ (k : Pubkey). k) ks ≡ ks
map_self [] = refl
map_self (k ∷ ks) = ap (λ (t : List Pubkey). k ∷ t) (map_self ks)

sent_as-ok : (r : Result ProgramError (Unit {0})) → sent_as r ≡ ok tt → r ≡ ok tt
sent_as-ok (ok _) h = refl
sent_as-ok (err e) h = cc
sent_as-ok panic h = cc

abbrev ran : Instruction → Sent → Result ProgramError (Unit {0})
ran ix svm = (process_instruction toy_deps (answering svm) (map meta_key ix.accounts) ix.ix_data).0

run_first-sent_as :
    (ix : Instruction) (ixs : List Instruction) (svm : Sent)
    → ix.program_id ≡ toy_deps.program_id
    → run_first (ix ∷ ixs) svm ≡ sent_as (ran ix svm)
run_first-sent_as ix ixs svm own = rw (own, ==_self toy_deps.program_id) refl

-- It admits the transactions that the payer signs.
running : RunsVerifier running_svm toy_deps
running = record {
  runtime = answering;
  infos = λ svm metas. map meta_key metas;
  Admits = λ svm tx. tx.1 ≡ 20 ∷ [];
  key-infos = λ svm metas. map_self (map meta_key metas);
  runs_ok = λ ix payer svm tx own signed h.
      let same : (ix ∷ [], payer ∷ []) ≡ tx = cc in
      sent_as-ok (ran ix svm) (sym (run_first-sent_as ix [] svm own) ∙ (rw (← same) at h));
  sends_ok = λ ix payer svm tx own signed admits h.
      let same : (ix ∷ [], payer ∷ []) ≡ tx = cc in
      rw (← same) (run_first-sent_as ix [] svm own ∙ ap sent_as h);
}

abbrev skip : Pubkey → Bytes → World running_svm → Result Bytes (Unit {0}) × World running_svm
skip = skip_closure running_svm (λ e. []) toy_deps 20 (2 ∷ []) 254

abbrev wrong_posted :
    Result (TestError running_svm ℕ Bytes ℕ) (PostedSignatures toy_sdk) × World running_svm
wrong_posted =
    post_signatures definitions posting_shim running_svm {F = ℕ} {E = Bytes} {I = ℕ} 20 0
      (guardian_signatures sum_crypto (wrong_sequence plain) signers) start

wrong_posted_ok :
    post_signatures definitions posting_shim running_svm {F = ℕ} {E = Bytes} {I = ℕ} 20 0
      (guardian_signatures sum_crypto (wrong_sequence plain) signers)
      start
    ≡ (ok (record { keypair = 105; pubkey = 105 ∷ [] }), wrong_posted.1)
unfolding post_signatures Signatures.post_signatures Signatures.build_post_signatures_ix list_eq
wrong_posted_ok = refl

body_small : length (body plain) < 2 ^ 32
unfolding body to_be_bytes to_le_bytes
body_small = omega arith

abbrev skip_ix_105 : Instruction
skip_ix_105 = build_skip_verify_instruction toy_deps (20 ∷ []) (2 ∷ []) (105 ∷ []) 254 (body plain)

skip_admitted : running.Admits wrong_posted.1.0 (skip_ix_105 ∷ [], 20 ∷ [])
unfolding running
skip_admitted = refl

with_vaa-skip_closure_example :
    with_vaa definitions posting_shim running_svm {F = ℕ} {I = ℕ} sum_crypto 20 signers 0 plain skip
      start
    ≡ (err verification_bypass, ([], wrong_posted.1.1))
with_vaa-skip_closure_example =
    with_vaa-skip_closure definitions posting_shim running_svm (λ e. []) ℕ ℕ toy_deps running 20
      sum_crypto signers 0 plain (2 ∷ []) 254 start wrong_posted.1
      (record { keypair = 105; pubkey = 105 ∷ [] }) (skip_ix_105 ∷ [], 20 ∷ []) body_small
      wrong_posted_ok refl skip_admitted

abbrev verify : Pubkey → Bytes → World running_svm → Result Bytes (Unit {0}) × World running_svm
verify = verify_closure running_svm (λ e. []) toy_deps 20 (2 ∷ []) 254

abbrev verified : Result (TestError running_svm ℕ Bytes ℕ) (Unit {0}) × World running_svm
verified =
    with_vaa definitions posting_shim running_svm {F = ℕ} {I = ℕ} sum_crypto 20 signers 0 plain
      verify start

verified_ok :
    with_vaa definitions posting_shim running_svm {F = ℕ} {I = ℕ} sum_crypto 20 signers 0 plain
      verify start
    ≡ (ok tt, verified.1)
unfolding with_vaa Checks.negative_test Checks.on_clone Checks.post_signatures
    Signatures.post_signatures Checks.fail_if_ok list_eq body to_be_bytes
    Signatures.build_post_signatures_ix guardian_signatures sign_vaa_body sign_body sign copy_at
    wrong_sequence Checks.when ℕ_discrete Checks.close_signatures Checks.closed
    Checks.is_non_replayable Checks.positive_test Checks.send_close
    Signatures.build_close_signatures_ix to_le_bytes nat_eq verify_closure send_instruction
    send_signed build_verify_vaa_instruction build_instruction_data process_instruction
    process_verify_vaa read_body array_or slice index window from_le_bytes log_body_info log_payload
    log_prefix from_be_bytes slice_from try_into
verified_ok = refl

with_vaa-verify_closure_example :
    Distinguishes running_svm
      (λ e. [])
      toy_deps
      running
      20
      (2 ∷ [])
      254
      (λ bs. refl)
      definitions
      posting_shim
      ℕ
      ℕ
      sum_crypto
      signers
      0
      plain
      start
with_vaa-verify_closure_example =
    with_vaa-verify_closure running_svm (λ e. []) toy_deps running 20 (2 ∷ []) 254 (λ bs. refl)
      definitions posting_shim ℕ ℕ sum_crypto signers 0 plain start verified.1 body_small
      verified_ok
