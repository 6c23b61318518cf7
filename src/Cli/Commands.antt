-- ===== src/Cli/Commands.antt =====
-- crates/wormhole-svm-cli/src/main.rs: the three commands. clap's parser of the command line is left
-- out: it gives a `Cli` and its `Command`. What is printed to the standard error is left out too.
pub mod Unsent
pub mod Unresolved
use wormhole_svm_utils.Prelude.{ℕ, List, Option}
use wormhole_svm_utils.Prelude.{Result, ok, err, panic}
use wormhole_svm_utils.Prelude.Bytes.{Bytes}
use wormhole_svm_utils.Solana.{Pubkey}
use wormhole_svm_utils.Submit.Connection.{Sdk, Exec, ◌>>=◌, lift, map_error, mapped}
use wormhole_svm_utils.Submit.Protocol.{Protocol, SubmitError}
use wormhole_svm_utils.Submit.Signatures.{Shim}
use wormhole_svm_utils.Submit.Rpc.{RpcClient}
use wormhole_svm_utils.Submit.Rpc.Adapter.{rpc_connection}
use wormhole_svm_utils.Submit.Broadcast.{Definitions, broadcast_vaa}
use wormhole_svm_utils.Cli.SignedVaa.{SignedVaa, parse_signed_vaa}
use wormhole_svm_utils.Cli.Errors.{
  Shell, CliError, parsing_signed_vaa, reading_keypair, invalid_program_id, submitting,
  fetching_account,
}
use wormhole_svm_utils.Cli.Address.{parse_address, cmd_pda}
use wormhole_svm_utils.Cli.Input.{CoreBridges, read_input, core_bridge_of, resolve_rpc_url}
use wormhole_svm_utils.Prelude.{map_err}

-- `vaa`: the text, `@` and a file, or none for the standard input.
pub data Command : Type 0 where
  submit : Bytes → Bytes → Option Bytes → Command
  account : Bytes → Command
  pda : Bytes → List Bytes → Command

pub record Cli : Type 0 where
  pub rpc_url : Bytes
  pub core_bridge : Option Bytes
  pub command : Command

-- What a command prints to the standard output.
pub data Output (Signature : Type 0) : Type 0 where
  signatures : List Signature → Output Signature
  account_hex : Bytes → Output Signature
  derived : Pubkey → Output Signature

-- `client url` is `RpcClient::new(url)`.
module _ (P : Protocol) (D : Definitions) (shim : Shim) (bridges : CoreBridges) {S : Sdk}
    (Sh : Shell S.Keypair) (client : Bytes → RpcClient S) (account_data : S.Account → Bytes) where
  abbrev pub Client : Cli → RpcClient S
  Client cli = client cli.rpc_url

  abbrev pub Failure : RpcClient S → Type 0
  Failure R = CliError Sh (SubmitError R.ClientError P.DecodeError) R.ClientError

  unfoldable pub cmd_submit :
      (cli : Cli)
      → Bytes
      → Bytes
      → Option Bytes
      → Exec (Client cli).State (Failure (Client cli)) (List S.Signature)
  cmd_submit cli program_id payer_path vaa_arg = do
    raw ← lift (read_input Sh vaa_arg)
    vaa ← lift (map_err parsing_signed_vaa (parse_signed_vaa raw))
    payer ← lift (map_err reading_keypair (Sh.read_keypair_file payer_path))
    program_id ← lift (map_err invalid_program_id (Sh.pubkey_from_str program_id))
    core_bridge ← lift (core_bridge_of Sh bridges cli.core_bridge cli.rpc_url)
    map_error submitting (
        broadcast_vaa P D shim (rpc_connection (Client cli)) payer program_id vaa.guardian_set_index
          vaa.body vaa.signatures core_bridge)

  unfoldable pub cmd_account :
      (cli : Cli) → Bytes → Exec (Client cli).State (Failure (Client cli)) Bytes
  cmd_account cli address = do
    pubkey ← lift (parse_address Sh address)
    fetched ← map_error (fetching_account pubkey) ((Client cli).get_account pubkey)
    lift (ok (Sh.hex_encode (account_data fetched)))

  -- The match on the command.
  unfoldable pub dispatch :
      (cli : Cli) → Command → Exec (Client cli).State (Failure (Client cli)) (Output S.Signature)
  unfolding cmd_submit cmd_account
  dispatch cli (submit program_id payer vaa) = do
    tx_sigs ← cmd_submit cli program_id payer vaa
    lift (ok (signatures tx_sigs))
  dispatch cli (account address) = do hex ← cmd_account cli address; lift (ok (account_hex hex))
  dispatch cli (pda program_id seeds) = do
    found ← lift (cmd_pda Sh program_id seeds)
    lift (ok (derived found.0))

  abbrev pub resolved_cli : Cli → Cli
  resolved_cli cli = record cli { rpc_url = resolve_rpc_url cli.rpc_url }

  unfoldable pub run :
      (cli : Cli)
      → Exec
          (Client (resolved_cli cli)).State
          (Failure (Client (resolved_cli cli)))
          (Output S.Signature)
  unfolding dispatch
  run cli = dispatch (resolved_cli cli) cli.command
