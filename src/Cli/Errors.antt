-- ===== src/Cli/Errors.antt =====
-- The errors of crates/wormhole-svm-cli/src/main.rs, and what the command takes from its crates and
-- from the operating system.
use wormhole_svm_utils.Prelude.{ℕ, Bool, List, Option, Result}
use wormhole_svm_utils.Prelude.Bytes.{Bytes}
use wormhole_svm_utils.Solana.{Pubkey}
use wormhole_svm_utils.Cli.SignedVaa.{ParseError}

-- hex, `Pubkey::from_str` and `find_program_address`, `read_keypair_file`, files, the standard
-- input, and the two functions of `str` that know Unicode. Texts are their UTF-8 bytes.
-- `find_program_address` panics where it finds no address, as for a seed over 32 bytes or too many
-- seeds: this is its `none`.
pub record Shell (Keypair : Type 0) : Type 1 where
  pub HexError : Type 0
  pub KeyError : Type 0
  pub IoError : Type 0
  pub KeypairError : Type 0
  pub hex_decode : Bytes → Result HexError Bytes
  pub hex_encode : Bytes → Bytes
  pub pubkey_from_str : Bytes → Result KeyError Pubkey
  pub find_program_address : List Bytes → Pubkey → Option (Pubkey × ℕ)
  pub read_keypair_file : Bytes → Result KeypairError Keypair
  pub read_to_string : Bytes → Result IoError Bytes
  pub stdin_is_terminal : Bool
  pub stdin : Result IoError Bytes
  pub trim : Bytes → Bytes
  pub to_lowercase : Bytes → Bytes

-- The errors, by their context or message, over the shell's and those of a submission (`B`) and of
-- an RPC client (`R`).
pub data CliError {Keypair : Type 0} (Sh : Shell Keypair) (B R : Type 0) : Type 0 where
  parsing_signed_vaa : ParseError → CliError Sh B R
  reading_keypair : Sh.KeypairError → CliError Sh B R
  invalid_program_id invalid_core_bridge_id : Sh.KeyError → CliError Sh B R
  no_core_bridge : CliError Sh B R
  submitting : B → CliError Sh B R
  reading_file : Bytes → Sh.IoError → CliError Sh B R
  decoding_file decoding_payload decoding_stdin : Sh.HexError → CliError Sh B R
  no_vaa_provided : CliError Sh B R
  reading_stdin : Sh.IoError → CliError Sh B R
  fetching_account : Pubkey → R → CliError Sh B R
  pda_syntax : CliError Sh B R
  invalid_pda_program_id invalid_account_address : Sh.KeyError → CliError Sh B R
  invalid_hex_seed : Bytes → Sh.HexError → CliError Sh B R
