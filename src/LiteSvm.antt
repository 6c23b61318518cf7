-- ===== src/LiteSvm.antt =====
-- crates/wormhole-svm-test/src/litesvm.rs: the connection over LiteSVM, and the data of a guardian
-- set's account. LiteSVM itself is a parameter.
pub mod Errors
pub mod Modified
pub mod Checks
pub mod Mainnet
pub mod Host
pub mod Programs
pub mod Fixtures
pub mod Submitting
pub mod Agreement
pub mod Resolving
pub mod GuardianSet
use wormhole_svm_utils.Prelude.{
  ℕ, ◌+◌, ◌%◌, ◌^◌, leb, ◌==◌, list_eq, find?, Bool, true, false, List, [], ◌∷◌, ◌++◌,
}
use wormhole_svm_utils.Prelude.{length, concat, take, Option, none, some, Result, ok, err, panic}
use wormhole_svm_utils.Prelude.Bytes.{Bytes, to_le_bytes, from_le_bytes}
use wormhole_svm_utils.Solana.{Pubkey}
use wormhole_svm_utils.Guardian.{Crypto, TestGuardianSet, len, eth_addresses}
use wormhole_svm_utils.Submit.Connection.{Sdk, SolanaConnection, SimulationResult}

-- What the adapter calls: LiteSVM, and the entropy of `Keypair::new`. A transaction without
-- signatures makes `tx.signatures[0]` panic: that is `none`.
pub record LiteSvm (S : Sdk) : Type 1 where
  pub Svm : Type 0
  pub Entropy : Type 0
  pub Failure : Type 0
  pub latest_blockhash : Svm → S.Hash
  pub simulate_transaction : S.Transaction → Svm → Result Failure (Bytes × List (Pubkey × Bytes))
  pub send_transaction : S.Transaction → Svm → Result Failure (Unit {0}) × Svm
  pub first_signature : S.Transaction → Option S.Signature
  pub get_account : Pubkey → Svm → Option S.Account
  pub new_keypair : Entropy → S.Keypair × Entropy

-- `LiteSvmError`, with what its message prints.
pub data LiteSvmError (F : Type 0) : Type 0 where
  simulation_failed transaction_failed : F → LiteSvmError F

-- The loop over the requested accounts: those that the simulation reports, in the order asked for.
unfoldable pub requested : List (Pubkey × Bytes) → List Pubkey → List (Pubkey × Bytes)
requested reported [] = []
requested reported (pubkey ∷ accounts) =
    let rest = requested reported accounts in
    elim (find? (λ (a : Pubkey × Bytes). a.0 == pubkey) reported) [
      | none ↦ rest
      | some (_, account_data) ↦ (pubkey, account_data) ∷ rest
    ]

-- Empty return data is none.
abbrev pub return_data_of : Bytes → Option Bytes
return_data_of [] = none
return_data_of (b ∷ bs) = some (b ∷ bs)

module _ {S : Sdk} (L : LiteSvm S) where
  abbrev pub simulated :
      Result L.Failure (Bytes × List (Pubkey × Bytes))
      → List Pubkey
      → Result (LiteSvmError L.Failure) SimulationResult
  simulated (ok (return_data, post_accounts)) accounts = ok (record {
    return_data = return_data_of return_data;
    post_accounts = requested post_accounts accounts;
  })
  simulated (err e) accounts = err (simulation_failed e)
  simulated panic accounts = panic

  abbrev confirmed :
      Option S.Signature → Result L.Failure (Unit {0}) → Result (LiteSvmError L.Failure) S.Signature
  confirmed (some sig) (ok _) = ok sig
  confirmed none (ok _) = panic
  confirmed sig (err e) = err (transaction_failed e)
  confirmed sig panic = panic

  -- `LiteSvmConnection`
  abbrev pub litesvm_connection : SolanaConnection S
  litesvm_connection = record {
    State = L.Svm × L.Entropy;
    Error = LiteSvmError L.Failure;
    get_latest_blockhash = λ s. (ok (L.latest_blockhash s.0), s);
    simulate_with_post_accounts =
        λ tx accounts s. (simulated (L.simulate_transaction tx s.0) accounts, s);
    send_and_confirm = λ tx s.
        let (r, svm) = L.send_transaction tx s.0 in
        (confirmed (L.first_signature tx) r, (svm, s.1));
    get_account = λ k s. (ok (L.get_account k s.0), s);
    new_keypair = λ s. let (kp, entropy) = L.new_keypair s.1 in (kp, (s.0, entropy));
  }

unfoldable pub build_guardian_set_data : (C : Crypto) → TestGuardianSet C → ℕ → Bytes
unfolding len eth_addresses
build_guardian_set_data C guardians index =
    to_le_bytes 4 index
    ++ (to_le_bytes 4 (len C guardians % 2 ^ 32)
        ++ (concat (eth_addresses C guardians) ++ (to_le_bytes 4 0 ++ to_le_bytes 4 0)))
