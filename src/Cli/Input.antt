-- ===== src/Cli/Input.antt =====
-- crates/wormhole-svm-cli/src/main.rs: the signed VAA's text, the RPC URL, and the core bridge that
-- goes with it.
use wormhole_svm_utils.Prelude.{
  ◌==◌, list_eq, nat_eq, ◌||◌, if◌then◌else◌, [], ◌∷◌, Option, none, some,
}
use wormhole_svm_utils.Prelude.{Result, err, map_err, ok_or, ◌>>=◌}
use wormhole_svm_utils.Prelude.Bytes.{Bytes}
use wormhole_svm_utils.Prelude.Text.{codes}
use wormhole_svm_utils.Solana.{Pubkey}
use wormhole_svm_utils.Submit.Rpc.{contains}
use wormhole_svm_utils.Cli.Errors.{
  Shell, CliError, reading_file, decoding_file, decoding_payload, decoding_stdin, no_vaa_provided,
  reading_stdin, invalid_core_bridge_id, no_core_bridge,
}

unfoldable pub resolve_rpc_url : Bytes → Bytes
unfolding list_eq
resolve_rpc_url url =
    if url == codes "d" || url == codes "devnet"
    then codes "https://api.devnet.solana.com"
    else if url == codes "m" || (url == codes "mainnet" || url == codes "mainnet-beta")
    then codes "https://api.mainnet-beta.solana.com"
    else if url == codes "t" || url == codes "testnet"
    then codes "https://api.testnet.solana.com"
    else if url == codes "l" || url == codes "localhost"
    then codes "http://127.0.0.1:8899"
    else url

-- What follows the `@` that a text starts with.
unfoldable pub after_at : Bytes → Option Bytes
unfolding nat_eq
after_at [] = none
after_at (c ∷ path) = if c == b'@' then some path else none

-- `CORE_BRIDGE_MAINNET` and `CORE_BRIDGE_DEVNET`
pub record CoreBridges : Type 0 where
  pub core_bridge_mainnet : Pubkey
  pub core_bridge_devnet : Pubkey

unfoldable pub core_bridge_from_rpc_url :
    {Keypair : Type 0} → Shell Keypair → CoreBridges → Bytes → Option Pubkey
unfolding contains
core_bridge_from_rpc_url Sh bridges rpc_url =
    let url = Sh.to_lowercase rpc_url in
    if contains url (codes "mainnet")
    then some bridges.core_bridge_mainnet
    else if contains url (codes "devnet")
    then some bridges.core_bridge_devnet
    else none

module _ {Keypair : Type 0} (Sh : Shell Keypair) {B R : Type 0} where
  unfoldable pub read_file : Bytes → Result (CliError Sh B R) Bytes
  read_file path = do
    contents ← map_err (reading_file path) (Sh.read_to_string path)
    map_err decoding_file (Sh.hex_decode (Sh.trim contents))

  unfoldable pub read_stdin : Result (CliError Sh B R) Bytes
  read_stdin =
      if Sh.stdin_is_terminal
      then err no_vaa_provided
      else (map_err reading_stdin Sh.stdin >>= λ buf.
          map_err decoding_stdin (Sh.hex_decode (Sh.trim buf)))

  unfoldable pub read_input : Option Bytes → Result (CliError Sh B R) Bytes
  unfolding after_at read_file read_stdin
  read_input none = read_stdin
  read_input (some s) = elim (after_at s) [
    | some path ↦ read_file path
    | none ↦ map_err decoding_payload (Sh.hex_decode (Sh.trim s))
  ]

  -- The match on `cli.core_bridge`.
  unfoldable pub core_bridge_of :
      CoreBridges → Option Bytes → Bytes → Result (CliError Sh B R) Pubkey
  unfolding core_bridge_from_rpc_url
  core_bridge_of bridges (some addr) rpc_url =
      map_err invalid_core_bridge_id (Sh.pubkey_from_str addr)
  core_bridge_of bridges none rpc_url =
      ok_or (core_bridge_from_rpc_url Sh bridges rpc_url) (err no_core_bridge)
