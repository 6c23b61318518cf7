-- ===== src/LiteSvm/Host.antt =====
-- What setting up a test environment calls: LiteSVM's ways to put a program or an account into the
-- virtual machine, and solana-sdk's accounts, rent and transfers.
use wormhole_svm_utils.Prelude.{ℕ, Bool, some, Result, ok, ◌≡◌, ◌≢◌}
use wormhole_svm_utils.Prelude.Bytes.{Bytes}
use wormhole_svm_utils.Solana.{Pubkey, Instruction}
use wormhole_svm_utils.Submit.Connection.{Sdk}
use wormhole_svm_utils.LiteSvm.{LiteSvm}

-- `new_account` is `Account { lamports, data, owner, executable, rent_epoch }`, and
-- `minimum_balance` that of `Rent::default()`.
pub record Host {S : Sdk} (L : LiteSvm S) : Type 0 where
  pub add_program : Pubkey → Bytes → L.Svm → Result L.Failure (Unit {0}) × L.Svm
  pub set_account : Pubkey → S.Account → L.Svm → Result L.Failure (Unit {0}) × L.Svm
  pub new_account : ℕ → Bytes → Pubkey → Bool → ℕ → S.Account
  pub account_data : S.Account → Bytes
  pub account_lamports : S.Account → ℕ
  pub minimum_balance : ℕ → ℕ
  pub system_program_id : Pubkey
  pub transfer : Pubkey → Pubkey → ℕ → Instruction

-- Setting an account that LiteSVM accepts puts it at its address and leaves the other accounts, and
-- an account has the data and the lamports that it was made with.
pub record KeepsAccounts {S : Sdk} {L : LiteSvm S} (H : Host L) : Type 0 where
  pub get_account-set_account :
      (k : Pubkey) (a : S.Account) (svm svm' : L.Svm)
      → H.set_account k a svm ≡ (ok tt, svm')
      → L.get_account k svm' ≡ some a
  pub get_account-set_account_other :
      (j k : Pubkey) (a : S.Account) (svm svm' : L.Svm)
      → H.set_account k a svm ≡ (ok tt, svm')
      → j ≢ k
      → L.get_account j svm' ≡ L.get_account j svm
  pub account_data-new_account :
      (lamports : ℕ) (bytes : Bytes) (owner : Pubkey) (executable : Bool) (rent_epoch : ℕ)
      → H.account_data (H.new_account lamports bytes owner executable rent_epoch) ≡ bytes
  pub account_lamports-new_account :
      (lamports : ℕ) (bytes : Bytes) (owner : Pubkey) (executable : Bool) (rent_epoch : ℕ)
      → H.account_lamports (H.new_account lamports bytes owner executable rent_epoch) ≡ lamports
