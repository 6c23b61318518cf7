-- ===== src/Examples/Checked.antt =====
-- A program that checks its VAAs, run under `with_vaa` over a toy LiteSVM.
use wormhole_svm_utils.Prelude.{
  ℕ, ◌+◌, ◌%◌, ◌≡◌, ◌≢◌, refl, Bool, true, false, ◌==◌, list_eq, nat_eq, if◌then◌else◌, any, List,
  [], ◌∷◌, ◌++◌, concat, replicate, some, Result, ok, err,
}
use native.Mathlib.Decide.{ℕ_discrete}
use wormhole_svm_utils.Prelude.Bytes.{Bytes, to_be_bytes, to_le_bytes}
use wormhole_svm_utils.Solana.{Pubkey, writable, Instruction}
use wormhole_svm_utils.Guardian.{
  Crypto, TestGuardian, TestGuardianSet, sign_vaa_body, sign_body, sign, copy_at,
}
use wormhole_svm_utils.Vaa.{body, guardian_signatures}
use wormhole_svm_utils.Submit.Connection.{Exec, mapped}
use wormhole_svm_utils.Submit.Signatures
use wormhole_svm_utils.Submit.Signatures.{Shim}
use wormhole_svm_utils.LiteSvm.Errors.{verification_bypass}
use wormhole_svm_utils.LiteSvm.Modified.{update_at, wrong_sequence, wrong_chain, wrong_address}
use wormhole_svm_utils.LiteSvm.Modified.Differs.{body-modified}
use wormhole_svm_utils.LiteSvm.Checks
use wormhole_svm_utils.LiteSvm.Checks.{TestError, with_vaa, with_vaa_unchecked, World}
use wormhole_svm_utils.LiteSvm.Checks.Passes.{Passes, with_vaa-Passes}
use wormhole_svm_utils.LiteSvm.Checks.Fails.{Fails}
use wormhole_svm_utils.LiteSvm.Checks.Fails.Exact.{Leaves, with_vaa-Fails, with_vaa-Leaves}
use wormhole_svm_utils.LiteSvm.Checks.Unchecked.{
  renamed, bracketed, unchecked, with_vaa_unchecked-with_posted_signatures, with_vaa-unchecked,
}
use wormhole_svm_utils.Vaa.Layout.{IsTyped}
use wormhole_svm_utils.Examples.Signing.{vaa, vaa-IsTyped}
use wormhole_svm_utils.Examples.Toy.{definitions, Sent, toy_shim}
use wormhole_svm_utils.Examples.Environment.{toy_svm}

abbrev total : Bytes → ℕ
total [] = 0
total (b ∷ bs) = b + total bs

-- Hashes and signatures by the sum of the bytes.
abbrev pub sum_crypto : Crypto
sum_crypto = record {
  SecretKey = ℕ;
  PublicKey = ℕ;
  Message = ℕ;
  Signature = ℕ;
  RecoveryId = Unit {0};
  keccak256 = λ bs. (total bs % 256) ∷ replicate 31 0;
  parse_secret_key = λ bs. some (total bs);
  from_secret_key = λ sk. sk;
  serialize_public_key = λ pk. pk ∷ [];
  parse_message = λ bs. total bs;
  sign = λ m sk. (m + sk, tt);
  serialize_signature = λ s. (s % 256) ∷ replicate 63 0;
  serialize_recovery_id = λ _. 0;
}

abbrev signer : TestGuardian sum_crypto
signer = record { secret_key = 5; public_key = 5; eth_address = replicate 20 5; index = 0 }

abbrev pub signers : TestGuardianSet sum_crypto
signers = record { guardians = signer ∷ [] }

-- It posts the signatures in the data of its instruction.
abbrev pub posting_shim : Shim
posting_shim = record toy_shim {
  post_signatures_instruction = λ program payer account index n sigs. record {
    program_id = program;
    accounts = writable payer true ∷ writable account true ∷ [];
    ix_data = concat sigs;
  };
}

abbrev first_data : List Instruction → Bytes
first_data [] = []
first_data (ix ∷ ixs) = ix.ix_data

abbrev pub last_data : Sent → Bytes
last_data [] = []
last_data (tx ∷ []) = first_data tx.0
last_data (tx ∷ tx' ∷ txs) = last_data (tx' ∷ txs)

-- A run leaves a transaction without signers.
abbrev has_run : Sent → Bool
has_run txs = any (λ (tx : List Instruction × List ℕ). elim tx.1 [ [] ↦ true | _ ∷ _ ↦ false ]) txs

-- It runs once, for its own VAA, with the signatures that were posted last.
abbrev strict : Pubkey → Bytes → Exec (Sent × ℕ) ℕ ℕ
strict sigs vaa_body s =
    if has_run s.0
    then (err 3, s)
    else if vaa_body == body vaa
    then if last_data s.0 == concat (guardian_signatures sum_crypto vaa signers)
      then (ok 9, (s.0 ++ (([], []) ∷ []), s.1))
      else (err 1, s)
    else (err 2, s)

abbrev pub start : Sent × ℕ
start = ([], 5)

abbrev strict_run : Result (TestError toy_svm ℕ ℕ ℕ) ℕ × World toy_svm
strict_run = with_vaa definitions posting_shim toy_svm sum_crypto 20 signers 0 vaa strict start

strict_run_ok :
    with_vaa definitions posting_shim toy_svm {F = ℕ} {I = ℕ} sum_crypto 20 signers 0 vaa strict
      start
    ≡ (ok 9, strict_run.1)
unfolding with_vaa Checks.negative_test Checks.on_clone Checks.post_signatures
    Signatures.post_signatures Checks.fail_if_ok list_eq body to_be_bytes
    Signatures.build_post_signatures_ix guardian_signatures sign_vaa_body sign_body sign copy_at
    wrong_sequence Checks.when wrong_chain wrong_address ℕ_discrete Checks.close_signatures
    Checks.closed Checks.is_non_replayable Checks.positive_test Checks.send_close update_at
    Signatures.build_close_signatures_ix to_le_bytes nat_eq
strict_run_ok = refl

with_vaa-Passes_example :
    Passes definitions posting_shim toy_svm ℕ ℕ sum_crypto 20 signers 0 vaa strict 9 start
      strict_run.1
with_vaa-Passes_example =
    (with_vaa-Passes definitions posting_shim toy_svm ℕ ℕ sum_crypto 20 signers 0 vaa strict 9 start
        strict_run.1).0
      strict_run_ok

-- It asks for nothing.
abbrev careless : Pubkey → Bytes → Exec (Sent × ℕ) ℕ ℕ
careless sigs vaa_body s = (ok 9, s)

abbrev careless_run : Result (TestError toy_svm ℕ ℕ ℕ) ℕ × World toy_svm
careless_run = with_vaa definitions posting_shim toy_svm sum_crypto 20 signers 0 vaa careless start

careless_run_err :
    with_vaa definitions posting_shim toy_svm {F = ℕ} {I = ℕ} sum_crypto 20 signers 0 vaa careless
      start
    ≡ (err verification_bypass, ([], 6))
unfolding with_vaa Checks.negative_test Checks.on_clone Checks.post_signatures
    Signatures.post_signatures Checks.fail_if_ok
careless_run_err = refl

with_vaa-Fails_example :
    Fails definitions posting_shim toy_svm ℕ ℕ sum_crypto 20 signers 0 vaa careless start
      verification_bypass
      ([], 6)
with_vaa-Fails_example =
    (with_vaa-Fails definitions posting_shim toy_svm ℕ ℕ sum_crypto 20 signers 0 vaa careless start
        verification_bypass ([], 6)).0
      careless_run_err

with_vaa-Leaves_example :
    Leaves definitions posting_shim toy_svm ℕ ℕ sum_crypto 20 signers 0 vaa careless start
      verification_bypass
      ([], 6)
with_vaa-Leaves_example =
    with_vaa-Leaves definitions posting_shim toy_svm ℕ ℕ sum_crypto 20 signers 0 vaa careless start
      verification_bypass ([], 6) careless_run_err

with_vaa_unchecked-with_posted_signatures_example :
    with_vaa_unchecked definitions posting_shim toy_svm {F = ℕ} {I = ℕ} sum_crypto 20 signers 0 vaa
      strict start
    ≡ mapped renamed
        (bracketed definitions posting_shim toy_svm ℕ ℕ 20 sum_crypto signers 0 vaa strict start)
with_vaa_unchecked-with_posted_signatures_example =
    with_vaa_unchecked-with_posted_signatures definitions posting_shim toy_svm ℕ ℕ 20 sum_crypto
      signers 0 vaa strict start

with_vaa-unchecked_example :
    (t : World toy_svm) × (u : World toy_svm) × (t.0 ≡ start.0)
    × (unchecked definitions posting_shim toy_svm ℕ ℕ 20 sum_crypto signers 0 vaa strict t
        ≡ (ok 9, u))
    × (strict_run.1.0 ≡ u.0)
with_vaa-unchecked_example =
    with_vaa-unchecked definitions posting_shim toy_svm ℕ ℕ 20 sum_crypto signers 0 vaa strict 9
      start strict_run.1 strict_run_ok

body-modified_example :
    (IsTyped (wrong_sequence vaa) × (body (wrong_sequence vaa) ≢ body vaa))
    × (IsTyped (wrong_chain vaa) × (body (wrong_chain vaa) ≢ body vaa))
    × (IsTyped (wrong_address vaa) × (body (wrong_address vaa) ≢ body vaa))
body-modified_example = body-modified vaa vaa-IsTyped
