-- ===== src/LiteSvm/Fixtures.antt =====
-- crates/wormhole-svm-test/src/litesvm.rs: the accounts of a Wormhole test environment, and the
-- sequence number that the core bridge keeps for an emitter.
pub mod Standing
pub mod Sequence
use wormhole_svm_utils.Prelude.{
  ℕ, leb, if◌then◌else◌, Bool, true, false, [], ◌++◌, length, Option, none, some,
}
use wormhole_svm_utils.Prelude.{Result, ok, err, panic}
use wormhole_svm_utils.Prelude.Bytes.{Bytes, to_le_bytes, from_le_bytes, to_be_bytes}
use wormhole_svm_utils.Prelude.Windows.{window}
use wormhole_svm_utils.Solana.{Pubkey, Instruction}
use wormhole_svm_utils.Guardian.{Crypto, TestGuardianSet}
use wormhole_svm_utils.Submit.Connection.{Sdk, Exec, ◌>>=◌, ◌>>◌, lift}
use wormhole_svm_utils.Submit.Broadcast.{Definitions}
use wormhole_svm_utils.LiteSvm.{LiteSvm, build_guardian_set_data}
use wormhole_svm_utils.LiteSvm.Host.{Host}
use wormhole_svm_utils.LiteSvm.Mainnet.{Mainnet}
use wormhole_svm_utils.LiteSvm.Checks.{TestError}
use wormhole_svm_utils.LiteSvm.Programs.{FileSystem, WormholeProgramsConfig, BundledFixtures}
use wormhole_svm_utils.LiteSvm.Programs.Loading.{load_wormhole_programs}

pub record WormholeAccounts : Type 0 where
  pub guardian_set : Pubkey
  pub guardian_set_bump : ℕ

-- The fee in lamports.
abbrev pub default_bridge_fee : ℕ
default_bridge_fee = 10

-- `.unwrap()`
abbrev pub unwrapped : {T X Y A : Type 0} → Result Y A × T → Result X A × T
unwrapped (ok a, s) = (ok a, s)
unwrapped (err e, s) = (panic, s)
unwrapped (panic, s) = (panic, s)

module _ (M : Mainnet) {S : Sdk} {L : LiteSvm S} (H : Host L) where
  -- An account that is not executable, with the rent of its contents.
  abbrev pub rent_exempt : Bytes → Pubkey → S.Account
  rent_exempt contents owner =
      H.new_account (H.minimum_balance (length contents)) contents owner false 0

  -- The contents of the bridge config, `BridgeData` in Borsh's encoding.
  unfoldable pub bridge_config_data : ℕ → Bytes
  bridge_config_data guardian_set_index =
      let fee_collector_lamports = H.minimum_balance 0 in
      to_le_bytes 4 guardian_set_index
      ++ (to_le_bytes 8 fee_collector_lamports ++ (to_le_bytes 4 86400 ++ to_le_bytes 8 10))

  unfoldable pub build_bridge_fee_ix : Pubkey → Instruction
  build_bridge_fee_ix payer = H.transfer payer M.core_bridge_fee_collector default_bridge_fee

  module _ {X : Type 0} where
    -- `svm.set_account(..).unwrap()`
    abbrev pub put_account : Pubkey → S.Account → Exec L.Svm X (Unit {0})
    put_account address account svm = unwrapped (H.set_account address account svm)

    unfoldable pub create_guardian_set_account :
        Definitions → (C : Crypto) → TestGuardianSet C → ℕ → Exec L.Svm X (Pubkey × ℕ)
    create_guardian_set_account D C guardians index = do
      let found = D.find_guardian_set_address (to_be_bytes 4 index) M.core_bridge_program_id
      let contents = build_guardian_set_data C guardians index
      put_account found.0 (rent_exempt contents M.core_bridge_program_id)
      lift (ok found)

    unfoldable pub create_bridge_config : ℕ → Exec L.Svm X (Unit {0})
    unfolding bridge_config_data
    create_bridge_config guardian_set_index =
        put_account M.core_bridge_config
          (rent_exempt (bridge_config_data guardian_set_index) M.core_bridge_program_id)

    unfoldable pub create_fee_collector : Exec L.Svm X (Unit {0})
    create_fee_collector =
        put_account M.core_bridge_fee_collector
          (H.new_account (H.minimum_balance 0) [] H.system_program_id false 0)

  unfoldable pub setup_wormhole :
      {F E I : Type 0}
      → Definitions
      → FileSystem I
      → BundledFixtures
      → (C : Crypto) → TestGuardianSet C
      → ℕ
      → WormholeProgramsConfig
      → Exec L.Svm (TestError L F E I) WormholeAccounts
  setup_wormhole D fs bundled C guardians guardian_set_index config = do
    load_wormhole_programs fs H D M bundled config
    created ← create_guardian_set_account D C guardians guardian_set_index
    create_bridge_config guardian_set_index
    create_fee_collector
    lift (ok (record { guardian_set = created.0; guardian_set_bump = created.1 }))

  -- The first 8 bytes of the account's data, if it has as many.
  unfoldable pub sequence_of : Option S.Account → Option ℕ
  unfolding window from_le_bytes
  sequence_of none = none
  sequence_of (some account) =
      let contents = H.account_data account in
      if leb 8 (length contents) then some (from_le_bytes (window 0 8 contents)) else none

  -- `find_emitter_sequence_address` is a parameter; its bump is not read.
  unfoldable pub read_emitter_sequence : (Pubkey → Pubkey → Pubkey × ℕ) → L.Svm → Pubkey → Option ℕ
  unfolding sequence_of
  read_emitter_sequence find_emitter_sequence_address svm emitter =
      let sequence_addr = (find_emitter_sequence_address emitter M.core_bridge_program_id).0 in
      sequence_of (L.get_account sequence_addr svm)
