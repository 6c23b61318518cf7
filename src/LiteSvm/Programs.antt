-- ===== src/LiteSvm/Programs.antt =====
-- crates/wormhole-svm-test/src/litesvm.rs: where the binaries of the Wormhole programs come from, and
-- how they are found. The file system, the environment and `PathBuf::join` are parameters.
pub mod Loading
pub mod Sources
use wormhole_svm_utils.Prelude.{Bool, true, false, List, [], ◌∷◌, ◌++◌, Option, none, some}
use wormhole_svm_utils.Prelude.{Result, ok, err, panic, map_err, ◌>>=◌}
use wormhole_svm_utils.Prelude.Bytes.{Bytes}
use wormhole_svm_utils.Prelude.Text.{codes}
use wormhole_svm_utils.Solana.{Pubkey}
use wormhole_svm_utils.Submit.Connection
use wormhole_svm_utils.Submit.Connection.{Sdk, Exec, lift, map_error}
use wormhole_svm_utils.Submit.Broadcast.{Definitions}
use wormhole_svm_utils.LiteSvm.{LiteSvm}
use wormhole_svm_utils.LiteSvm.Host.{Host}
use wormhole_svm_utils.LiteSvm.Mainnet.{Mainnet}
use wormhole_svm_utils.LiteSvm.Errors.{
  WormholeTestError, program_not_found, io_error, load_error, program,
}
use wormhole_svm_utils.LiteSvm.Checks.{TestError}

abbrev pub FilePath : Type 0
FilePath = Bytes

-- `I` is `std::io::Error`.
pub record FileSystem (I : Type 0) : Type 0 where
  pub exists : FilePath → Bool
  pub read : FilePath → Result I Bytes
  pub var : Bytes → Option Bytes
  pub join : FilePath → Bytes → FilePath

pub record WormholeProgramsConfig : Type 0 where
  pub verify_vaa_shim : Option FilePath
  pub core_bridge : Option FilePath
  pub post_message_shim : Option FilePath

-- The bundled binaries: all there with the feature `bundled-fixtures`, and none without.
pub record BundledFixtures : Type 0 where
  pub verify_vaa_shim_bytes : Option Bytes
  pub core_bridge_bytes : Option Bytes
  pub post_message_shim_bytes : Option Bytes

-- `if let Ok(dir) = var(..) { paths.push(dir) }`
abbrev pub pushed_dir : Option Bytes → List FilePath
pushed_dir none = []
pushed_dir (some dir) = dir ∷ []

module _ {I : Type 0} (fs : FileSystem I) where
  unfoldable pub search_paths : List FilePath
  search_paths =
      pushed_dir (fs.var (codes "WORMHOLE_FIXTURES_DIR"))
      ++ (codes "tests/fixtures" ∷ codes "fixtures" ∷ codes "target/deploy" ∷ [])

  -- The loop over the search paths.
  unfoldable pub first_existing : Bytes → List FilePath → Option FilePath
  first_existing filename [] = none
  first_existing filename (dir ∷ paths) = elim (fs.exists (fs.join dir filename)) [
    | true ↦ some (fs.join dir filename)
    | false ↦ first_existing filename paths
  ]

  module _ {V F E : Type 0} where
    unfoldable pub find_program_file : Bytes → Result (WormholeTestError V F E I) FilePath
    unfolding search_paths first_existing
    find_program_file filename = elim (first_existing filename search_paths) [
      | none ↦ err (program_not_found filename search_paths)
      | some path ↦ ok path
    ]

    unfoldable pub get_program_bytes :
        Bytes → Option FilePath → Option Bytes → Result (WormholeTestError V F E I) Bytes
    unfolding find_program_file
    get_program_bytes filename (some path) bundled = elim (fs.exists path) [
      | true ↦ map_err io_error (fs.read path)
      | false ↦ err (program_not_found filename (path ∷ []))
    ]
    get_program_bytes filename none (some bytes) = ok bytes
    get_program_bytes filename none none = do
      path ← find_program_file filename
      map_err io_error (fs.read path)
