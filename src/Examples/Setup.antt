-- ===== src/Examples/Setup.antt =====
-- A test environment set up over a virtual machine that is a list of accounts.
use wormhole_svm_utils.Prelude.{
  ℕ, ◌+◌, ◌<◌, ◌≡◌, ◌≢◌, refl, sym, arith, true, false, ◌==◌, list_eq, ==_iff, ==_self, Bool-cases,
  inl, inr, List, [], ◌∷◌, ◌++◌, replicate, Option, some, none, Result, ok, err,
}
use wormhole_svm_utils.Prelude.Bytes.{Bytes}
use wormhole_svm_utils.Prelude.Text.{codes}
use wormhole_svm_utils.Solana.{Pubkey}
use wormhole_svm_utils.Submit.Connection.{Sdk}
use wormhole_svm_utils.LiteSvm.{LiteSvm}
use wormhole_svm_utils.LiteSvm.Checks.{TestError}
use wormhole_svm_utils.LiteSvm.Host.{Host, KeepsAccounts}
use wormhole_svm_utils.LiteSvm.Programs.{
  FileSystem, BundledFixtures, WormholeProgramsConfig, get_program_bytes,
}
use wormhole_svm_utils.LiteSvm.Programs.Loading.{load_wormhole_programs}
use wormhole_svm_utils.LiteSvm.Programs.Sources.{Takes, get_program_bytes-Takes}
use wormhole_svm_utils.LiteSvm.Fixtures.{
  WormholeAccounts, setup_wormhole, create_guardian_set_account, create_bridge_config,
  create_fee_collector,
}
use wormhole_svm_utils.LiteSvm.Fixtures.Standing.{Stands, setup_wormhole-Stands}
use wormhole_svm_utils.Examples.Signing.{toy_crypto, guardians}
use wormhole_svm_utils.Examples.Toy.{definitions}
use wormhole_svm_utils.Examples.Resubmitted.{mainnet}

-- An account is its lamports and its data.
abbrev account_sdk : Sdk
account_sdk = record {
  Keypair = ℕ;
  Hash = ℕ;
  Signature = ℕ;
  Transaction = Unit {0};
  Account = ℕ × Bytes;
  pubkey = λ k. k ∷ [];
  new_signed_with_payer = λ ixs payer signers blockhash. some tt;
}

abbrev Store : Type 0
Store = List (Pubkey × (ℕ × Bytes))

stored : Pubkey → Store → Option (ℕ × Bytes)
stored k [] = none
stored k ((j, a) ∷ store) = elim (j == k) [ true ↦ some a | false ↦ stored k store ]

abbrev storing : LiteSvm account_sdk
storing = record {
  Svm = Store;
  Entropy = ℕ;
  Failure = ℕ;
  latest_blockhash = λ svm. 1;
  simulate_transaction = λ tx svm. err 1;
  send_transaction = λ tx svm. (ok tt, svm);
  first_signature = λ tx. some 2;
  get_account = λ k svm. stored k svm;
  new_keypair = λ entropy. (entropy, entropy + 1);
}

abbrev host : Host storing
host = record {
  add_program = λ program_id bytes svm. (ok tt, (program_id, (1, bytes)) ∷ svm);
  set_account = λ k a svm. (ok tt, (k, a) ∷ svm);
  new_account = λ lamports contents owner executable rent_epoch. (lamports, contents);
  account_data = λ a. a.1;
  account_lamports = λ a. a.0;
  minimum_balance = λ n. 890880 + n;
  system_program_id = replicate 32 0;
  transfer = λ from to lamports. record { program_id = []; accounts = []; ix_data = [] };
}

stored-set :
    (k : Pubkey) (a : ℕ × Bytes) (svm svm' : Store)
    → host.set_account k a svm ≡ (ok tt, svm')
    → stored k svm' ≡ some a
unfolding stored
stored-set k a svm svm' h = let same : svm' ≡ (k, a) ∷ svm = cc in rw (same, stored, ==_self k)

stored-set_other :
    (j k : Pubkey) (a : ℕ × Bytes) (svm svm' : Store)
    → host.set_account k a svm ≡ (ok tt, svm')
    → j ≢ k
    → stored j svm' ≡ stored j svm
unfolding stored
stored-set_other j k a svm svm' h n = elim (Bool-cases (k == j)) [
  | inl e ↦ absurd (n (sym ((==_iff k j).0 e)))
  | inr e ↦ let same : svm' ≡ (k, a) ∷ svm = cc in rw (same, stored, e)
]

host-KeepsAccounts : KeepsAccounts host
host-KeepsAccounts = record {
  get_account-set_account = stored-set;
  get_account-set_account_other = stored-set_other;
  account_data-new_account = λ lamports contents owner executable rent_epoch. refl;
  account_lamports-new_account = λ lamports contents owner executable rent_epoch. refl;
}

-- The binaries are in `fixtures`, and no directory is set in the environment.
abbrev files : FileSystem ℕ
files = record {
  exists = λ path. path == (codes "fixtures" ++ codes "core_bridge.so");
  read = λ path. ok (1 ∷ 2 ∷ []);
  var = λ name. none;
  join = λ dir name. dir ++ name;
}

abbrev bundled : BundledFixtures
bundled = record {
  verify_vaa_shim_bytes = some (1 ∷ []);
  core_bridge_bytes = some (2 ∷ []);
  post_message_shim_bytes = some (3 ∷ []);
}

abbrev no_paths : WormholeProgramsConfig
no_paths = record { verify_vaa_shim = none; core_bridge = none; post_message_shim = none }

get_program_bytes-Takes_example :
    Takes files
      (codes "core_bridge.so")
      {V = ℕ}
      {F = ℕ}
      {E = ℕ}
      none
      none
      (get_program_bytes files (codes "core_bridge.so") none none)
get_program_bytes-Takes_example = get_program_bytes-Takes files (codes "core_bridge.so") none none

keys-ne : (a b : ℕ) → a < b → ◌≢◌ {A = Pubkey} (a ∷ []) (b ∷ [])
keys-ne a b h p = let same : a ≡ b = cc in absurd (omega arith)

abbrev set_up : Result (TestError storing ℕ ℕ ℕ) WormholeAccounts × Store
set_up = setup_wormhole mainnet host definitions files bundled toy_crypto guardians 4 no_paths []

set_up_ok :
    setup_wormhole mainnet host {F = ℕ} {E = ℕ} definitions files bundled toy_crypto guardians 4
      no_paths []
    ≡ (ok (record { guardian_set = 60 ∷ []; guardian_set_bump = 255 }), set_up.1)
unfolding setup_wormhole load_wormhole_programs create_guardian_set_account create_bridge_config
    create_fee_collector get_program_bytes
set_up_ok = refl

setup_wormhole-Stands_example :
    Stands mainnet host definitions toy_crypto guardians 4
      (record { guardian_set = 60 ∷ []; guardian_set_bump = 255 })
      set_up.1
setup_wormhole-Stands_example =
    setup_wormhole-Stands mainnet host host-KeepsAccounts definitions toy_crypto guardians 4
      (omega arith) (omega arith) {F = ℕ} {E = ℕ} files bundled no_paths [] set_up.1
      (record { guardian_set = 60 ∷ []; guardian_set_bump = 255 }) (keys-ne 60 63 (omega arith))
      (keys-ne 60 64 (omega arith)) (keys-ne 63 64 (omega arith)) set_up_ok
