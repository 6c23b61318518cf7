-- ===== src/LiteSvm/Programs/Loading.antt =====
-- crates/wormhole-svm-test/src/litesvm.rs: loading the Wormhole programs into the virtual machine.
use wormhole_svm_utils.Prelude.{Option}
use wormhole_svm_utils.Prelude.Bytes.{Bytes}
use wormhole_svm_utils.Prelude.Text.{codes}
use wormhole_svm_utils.Solana.{Pubkey}
use wormhole_svm_utils.Submit.Connection.{Sdk, Exec, ◌>>=◌, ◌>>◌, lift, map_error}
use wormhole_svm_utils.Submit.Broadcast.{Definitions}
use wormhole_svm_utils.LiteSvm.{LiteSvm}
use wormhole_svm_utils.LiteSvm.Host.{Host}
use wormhole_svm_utils.LiteSvm.Mainnet.{Mainnet}
use wormhole_svm_utils.LiteSvm.Errors.{load_error, program}
use wormhole_svm_utils.LiteSvm.Checks.{TestError}
use wormhole_svm_utils.LiteSvm.Programs.{
  FilePath, FileSystem, WormholeProgramsConfig, BundledFixtures, get_program_bytes,
}

module _ {I : Type 0} (fs : FileSystem I) {S : Sdk} {L : LiteSvm S} (H : Host L)
    {F E : Type 0} where
  -- One of the three blocks of `load_wormhole_programs`: the file's name, the label in the message,
  -- and where the program goes.
  unfoldable pub load_program :
      Bytes
      → Bytes
      → Option FilePath
      → Option Bytes
      → Pubkey
      → Exec L.Svm (TestError L F E I) (Unit {0})
  load_program filename label explicit_path bundled program_id = do
    bytes ← lift (get_program_bytes fs filename explicit_path bundled)
    map_error (λ e. load_error (program label e)) (H.add_program program_id bytes)

  unfoldable pub load_wormhole_programs :
      Definitions
      → Mainnet
      → BundledFixtures
      → WormholeProgramsConfig
      → Exec L.Svm (TestError L F E I) (Unit {0})
  unfolding load_program
  load_wormhole_programs D M bundled config = do
    load_program (codes "verify_vaa_shim.so") (codes "verify_vaa_shim") config.verify_vaa_shim
        bundled.verify_vaa_shim_bytes D.verify_vaa_shim_program_id
    load_program (codes "core_bridge.so") (codes "core_bridge") config.core_bridge
        bundled.core_bridge_bytes M.core_bridge_program_id
    load_program (codes "post_message_shim.so") (codes "post_message_shim") config.post_message_shim
        bundled.post_message_shim_bytes M.post_message_shim_program_id
