-- ===== src/LiteSvm/Checks.antt =====
-- crates/wormhole-svm-test/src/litesvm.rs: posting and closing signatures in LiteSVM, and the runs of
-- a closure with the signatures of a VAA, checked and unchecked.
pub mod Parts
pub mod Passes
pub mod Fails
pub mod Unchecked
use wormhole_svm_utils.Prelude.{
  ℕ, Bool, true, false, List, [], ◌∷◌, Option, none, some, Result, ok, err, panic, ok_or, map_err,
}
use wormhole_svm_utils.Prelude.Bytes.{Bytes}
use wormhole_svm_utils.Solana.{Pubkey, Instruction}
use wormhole_svm_utils.Guardian.{Crypto, TestGuardianSet}
use wormhole_svm_utils.Vaa.{
  TestVaa, ReplayProtection, replayable, non_replayable, body, guardian_signatures,
}
use wormhole_svm_utils.Submit.Connection.{Sdk, Exec, ◌>>=◌, ◌>>◌, lift, map_error}
use wormhole_svm_utils.Submit.Signatures
use wormhole_svm_utils.Submit.Signatures.{Shim, PostedSignatures}
use wormhole_svm_utils.Submit.Broadcast.{Definitions}
use wormhole_svm_utils.LiteSvm.{LiteSvm, litesvm_connection}
use wormhole_svm_utils.LiteSvm.Errors.{
  WormholeTestError, submit_error, load_error, close_signatures_failed, user_closure_failed,
  vaa_verification_failed, closure_failed, verification_bypass, emitter_chain_bypass,
  emitter_address_bypass, replay_protection_missing,
}
use wormhole_svm_utils.LiteSvm.Modified.{wrong_sequence, wrong_chain, wrong_address}

-- `replay == ReplayProtection::NonReplayable`
unfoldable pub is_non_replayable : ReplayProtection → Bool
is_non_replayable replayable = false
is_non_replayable non_replayable = true

-- Code on a clone of the virtual machine, which is dropped after it. What the code changed outside
-- the virtual machine stays changed.
unfoldable pub on_clone : {V O X A : Type 0} → Exec (V × O) X A → Exec (V × O) X A
on_clone m s = let (r, t) = m s in (r, (s.0, t.1))

-- `if checked { m }`
unfoldable pub when : {T X : Type 0} → Bool → Exec T X (Unit {0}) → Exec T X (Unit {0})
when true m = m
when false m = lift (ok tt)

-- `if result.is_ok() { return Err(e) }`, where the result's own error is dropped.
unfoldable pub fail_if_ok : {T X E A : Type 0} → X → Result E A × T → Result X (Unit {0}) × T
fail_if_ok x (ok a, t) = (err x, t)
fail_if_ok x (err e, t) = (ok tt, t)
fail_if_ok x (panic, t) = (panic, t)

-- What a closure may change: the virtual machine that it is handed, and all that is outside of it,
-- such as the entropy and what the closure captures.
abbrev pub World : {S : Sdk} → LiteSvm S → Type 0
World L = L.Svm × L.Entropy

-- The errors, over a decoder's errors, a closure's errors and `std::io::Error`.
abbrev pub TestError : {S : Sdk} → LiteSvm S → Type 0 → Type 0 → Type 0 → Type 0
TestError L F E I = WormholeTestError L.Failure F E I

module _ (D : Definitions) (shim : Shim) {S : Sdk} (L : LiteSvm S) where
  unfoldable pub build_post_signatures_ix : Pubkey → Pubkey → ℕ → List Bytes → Instruction
  build_post_signatures_ix payer guardian_signatures_keypair guardian_set_index signatures =
      Signatures.build_post_signatures_ix shim payer guardian_signatures_keypair
        D.verify_vaa_shim_program_id guardian_set_index signatures

  unfoldable pub build_close_signatures_ix : Pubkey → Pubkey → Instruction
  build_close_signatures_ix guardian_signatures refund_recipient =
      Signatures.build_close_signatures_ix shim D.verify_vaa_shim_program_id guardian_signatures
        refund_recipient

  module _ {F E I : Type 0} where
    unfoldable pub post_signatures :
        S.Keypair → ℕ → List Bytes → Exec (World L) (TestError L F E I) (PostedSignatures S)
    post_signatures payer guardian_set_index signatures = map_error submit_error (
        Signatures.post_signatures shim (litesvm_connection L) payer D.verify_vaa_shim_program_id
          guardian_set_index signatures)

    -- `svm.send_transaction(tx).map_err(..)?`
    unfoldable pub closed : Result L.Failure (Unit {0}) → Result (TestError L F E I) (Unit {0})
    closed (ok _) = ok tt
    closed (err e) = err (load_error (close_signatures_failed e))
    closed panic = panic

    unfoldable pub send_close : Option S.Transaction → Exec (World L) (TestError L F E I) (Unit {0})
    unfolding closed
    send_close none s = (panic, s)
    send_close (some tx) s = let (r, svm) = L.send_transaction tx s.0 in (closed r, (svm, s.1))

    unfoldable pub close_signatures :
        S.Keypair → Pubkey → Pubkey → Exec (World L) (TestError L F E I) (Unit {0})
    unfolding send_close
    close_signatures payer signatures_pubkey refund_recipient s =
        let ix =
          Signatures.build_close_signatures_ix shim D.verify_vaa_shim_program_id signatures_pubkey
            refund_recipient in
        let blockhash = L.latest_blockhash s.0 in
        send_close
          (S.new_signed_with_payer (ix ∷ []) (some (S.pubkey payer)) (payer ∷ []) blockhash) s

    unfoldable pub with_posted_signatures :
        {T : Type 0}
        → S.Keypair
        → ℕ
        → List Bytes
        → (Pubkey → Exec (World L) E T)
        → Exec (World L) (TestError L F E I) T
    with_posted_signatures payer guardian_set_index signatures f = do
      posted ← post_signatures payer guardian_set_index signatures
      result ← map_error (λ e. load_error (user_closure_failed e)) (f posted.pubkey)
      _ ← close_signatures payer posted.pubkey (S.pubkey payer)
      lift (ok result)

    module _ (C : Crypto) (payer : S.Keypair) (guardians : TestGuardianSet C)
        (guardian_set_index : ℕ) (v : TestVaa) {T : Type 0}
        (f : Pubkey → Bytes → Exec (World L) E T) where
      -- A run that must fail: signatures and a body, and the error if the closure accepts them.
      unfoldable pub negative_test :
          TestError L F E I → List Bytes → Bytes → Exec (World L) (TestError L F E I) (Unit {0})
      negative_test bypass signatures vaa_body = on_clone (
          post_signatures payer guardian_set_index signatures >>= λ posted t.
          fail_if_ok bypass (f posted.pubkey vaa_body t))

      unfoldable pub positive_test : Exec (World L) (TestError L F E I) T
      positive_test = do
        posted ← post_signatures payer guardian_set_index (guardian_signatures C v guardians)
        result ← map_error (λ e. load_error (vaa_verification_failed e)) (f posted.pubkey (body v))
        _ ← close_signatures payer posted.pubkey (S.pubkey payer)
        lift (ok result)

      -- A modified VAA, signed as it is.
      abbrev pub modified_test :
          TestError L F E I → TestVaa → Exec (World L) (TestError L F E I) (Unit {0})
      modified_test bypass w = negative_test bypass (guardian_signatures C w guardians) (body w)

      unfoldable pub with_vaa : Exec (World L) (TestError L F E I) T
      with_vaa = do
        _ ←
            negative_test verification_bypass (guardian_signatures C (wrong_sequence v) guardians)
              (body v)
        _ ← when v.checks.emitter_chain (modified_test emitter_chain_bypass (wrong_chain v))
        _ ← when v.checks.emitter_address (modified_test emitter_address_bypass (wrong_address v))
        result ← positive_test
        _ ← when (is_non_replayable v.checks.replay) (modified_test replay_protection_missing v)
        lift (ok result)

      unfoldable pub with_vaa_unchecked : Exec (World L) (TestError L F E I) T
      with_vaa_unchecked = do
        posted ← post_signatures payer guardian_set_index (guardian_signatures C v guardians)
        result ← map_error (λ e. load_error (closure_failed e)) (f posted.pubkey (body v))
        _ ← close_signatures payer posted.pubkey (S.pubkey payer)
        lift (ok result)
