-- ===== src/Submit/Rpc/Simulation.antt =====
-- crates/wormhole-svm-submit/src/connection.rs: what the connection over an RPC client makes of a
-- simulation's value.
use wormhole_svm_utils.Prelude.{
  ℕ, ◌+◌, ltb, true, false, List, [], ◌∷◌, ◌++◌, map, length, get_elem?, Option, none, some,
}
use wormhole_svm_utils.Prelude.{Result, ok, err, panic, ok_or, map_err, ◌>>=◌}
use wormhole_svm_utils.Prelude.Bytes.{Bytes}
use wormhole_svm_utils.Solana.{Pubkey}
use wormhole_svm_utils.Submit.Connection.{Sdk, SimulationResult}
use wormhole_svm_utils.Submit.Rpc.{
  RpcClient, RpcSimulateTransactionConfig, SimulationValue, UiAccountData, binary, legacy_binary,
  json, confirmed, base64, simulation_error, return_data_undecodable, account_data_undecodable,
}

-- The text of an account's data, where the match does not `continue`.
unfoldable pub text_of : UiAccountData → Option Bytes
text_of (binary s) = some s
text_of (legacy_binary s) = some s
text_of json = none

-- Empty return data is none.
abbrev pub non_empty : Bytes → Option Bytes
non_empty [] = none
non_empty (b ∷ bs) = some (b ∷ bs)

module _ {S : Sdk} (R : RpcClient S) where
  unfoldable pub simulation_config : List Pubkey → RpcSimulateTransactionConfig
  simulation_config accounts = record {
    sig_verify = false;
    replace_recent_blockhash = true;
    commitment = confirmed;
    encoding = base64;
    addresses = map R.pubkey_string accounts;
  }

  unfoldable pub read_return_data : Option Bytes → Result R.ClientError (Option Bytes)
  read_return_data none = ok none
  read_return_data (some text) = do
    data_bytes ← map_err (λ e. R.for_user (return_data_undecodable e)) (R.decode text)
    ok (non_empty data_bytes)

  -- What the loop pushes for an account's text: nothing if it has none.
  unfoldable pub read_text :
      List Pubkey → ℕ → Option Bytes → Result R.ClientError (List (Pubkey × Bytes))
  read_text accounts i none = ok []
  read_text accounts i (some b64_str) = do
    data_bytes ← map_err (λ e. R.for_user (account_data_undecodable e)) (R.decode b64_str)
    pubkey ← ok_or (get_elem? accounts i) panic
    ok ((pubkey, data_bytes) ∷ [])

  -- One pass of the loop.
  unfoldable pub read_account :
      List Pubkey → ℕ → Option UiAccountData → Result R.ClientError (List (Pubkey × Bytes))
  unfolding read_text text_of
  read_account accounts i maybe_account = elim (ltb i (length accounts)) [
    | false ↦ ok []
    | true ↦ elim maybe_account [
      | none ↦ ok []
      | some ui_account ↦ read_text accounts i (text_of ui_account)
    ]
  ]

  -- The loop from number `i` on.
  unfoldable pub read_accounts :
      List Pubkey → ℕ → List (Option UiAccountData) → Result R.ClientError (List (Pubkey × Bytes))
  unfolding read_account
  read_accounts accounts i [] = ok []
  read_accounts accounts i (maybe_account ∷ sim_accounts) = do
    pushed ← read_account accounts i maybe_account
    rest ← read_accounts accounts (i + 1) sim_accounts
    ok (pushed ++ rest)

  unfoldable pub read_post_accounts :
      List Pubkey
      → Option (List (Option UiAccountData))
      → Result R.ClientError (List (Pubkey × Bytes))
  unfolding read_accounts
  read_post_accounts accounts none = ok []
  read_post_accounts accounts (some sim_accounts) = read_accounts accounts 0 sim_accounts

  -- What follows the call: a transaction's error comes first.
  unfoldable pub read_value :
      List Pubkey → SimulationValue R.TransactionError → Result R.ClientError SimulationResult
  unfolding read_return_data read_post_accounts
  read_value accounts sim_value = elim sim_value.transaction_error [
    | some e ↦ err (R.for_user (simulation_error e))
    | none ↦ read_return_data sim_value.return_data >>= λ return_data.
        read_post_accounts accounts sim_value.accounts >>= λ post_accounts.
        ok (record { return_data = return_data; post_accounts = post_accounts })
  ]
