-- ===== src/Submit/Rpc/Adapter.antt =====
-- crates/wormhole-svm-submit/src/connection.rs: `SolanaConnection` for `RpcClient`.
use wormhole_svm_utils.Prelude.{
  ◌||◌, if◌then◌else◌, List, Option, none, some, Result, ok, err, panic,
}
use wormhole_svm_utils.Prelude.Text.{codes}
use wormhole_svm_utils.Solana.{Pubkey}
use wormhole_svm_utils.Submit.Connection.{
  Sdk, SolanaConnection, SimulationResult, Exec, ◌>>=◌, lift,
}
use wormhole_svm_utils.Submit.Rpc.{RpcClient, confirmed, contains}
use wormhole_svm_utils.Submit.Rpc.Simulation.{simulation_config, read_value}

module _ {S : Sdk} (R : RpcClient S) where
  unfoldable pub simulate_with_post_accounts :
      S.Transaction → List Pubkey → Exec R.State R.ClientError SimulationResult
  unfolding read_value simulation_config
  simulate_with_post_accounts tx accounts = do
    sim_value ← R.simulate_transaction_with_config tx (simulation_config R accounts)
    lift (read_value R accounts sim_value)

  -- An account that is not found is no error.
  unfoldable pub found : Result R.ClientError S.Account → Result R.ClientError (Option S.Account)
  unfolding contains
  found (ok account) = ok (some account)
  found (err e) =
      let err_str = R.error_string e in
      if contains err_str (codes "AccountNotFound")
        || contains err_str (codes "could not find account")
      then ok none
      else err e
  found panic = panic

  unfoldable pub get_account : Pubkey → Exec R.State R.ClientError (Option S.Account)
  unfolding found
  get_account pubkey s = let (r, t) = R.get_account pubkey s in (found r, t)

  abbrev pub rpc_connection : SolanaConnection S
  rpc_connection = record {
    State = R.State;
    Error = R.ClientError;
    get_latest_blockhash = R.get_latest_blockhash;
    simulate_with_post_accounts = simulate_with_post_accounts;
    send_and_confirm =
        λ tx. R.send_and_confirm_transaction_with_spinner_and_commitment tx confirmed;
    get_account = get_account;
    new_keypair = R.new_keypair;
  }
