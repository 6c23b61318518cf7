-- ===== src/Submit/Rpc.antt =====
-- crates/wormhole-svm-submit/src/connection.rs: the connection over an RPC client. The client and
-- base64's decoder are parameters.
pub mod Simulation
pub mod Adapter
use wormhole_svm_utils.Prelude.{
  ℕ, ◌+◌, ltb, leb, Bool, true, false, ◌||◌, ◌==◌, list_eq, if◌then◌else◌, List, [], ◌∷◌, map,
  length, take, drop, get_elem?,
}
use wormhole_svm_utils.Prelude.{Option, none, some, Result, ok, err, panic, ok_or, map_err}
use wormhole_svm_utils.Prelude.Bytes.{Bytes}
use wormhole_svm_utils.Prelude.Text.{codes}
use wormhole_svm_utils.Solana.{Pubkey}
use wormhole_svm_utils.Submit.Connection.{Sdk, SolanaConnection, SimulationResult}

pub data CommitmentConfig : Type 0 where
  confirmed : CommitmentConfig

pub data UiAccountEncoding : Type 0 where
  base64 : UiAccountEncoding

-- The fields of the simulation's configuration that the source sets.
pub record RpcSimulateTransactionConfig : Type 0 where
  pub sig_verify : Bool
  pub replace_recent_blockhash : Bool
  pub commitment : CommitmentConfig
  pub encoding : UiAccountEncoding
  pub addresses : List Bytes

-- An account's data as the node writes them.
pub data UiAccountData : Type 0 where
  binary legacy_binary : Bytes → UiAccountData
  json : UiAccountData

-- The fields of the simulation's value that the source reads; the logs are only printed.
pub record SimulationValue (E : Type 0) : Type 0 where
  pub transaction_error : Option E
  pub return_data : Option Bytes
  pub accounts : Option (List (Option UiAccountData))

-- What a message of `RpcError::ForUser` says.
pub data UserMessage (T B : Type 0) : Type 0 where
  simulation_error : T → UserMessage T B
  return_data_undecodable account_data_undecodable : B → UserMessage T B

pub record RpcClient (S : Sdk) : Type 1 where
  pub State : Type 0
  pub ClientError : Type 0
  pub TransactionError : Type 0
  pub DecodeError : Type 0
  pub for_user : UserMessage TransactionError DecodeError → ClientError
  pub error_string : ClientError → Bytes
  pub pubkey_string : Pubkey → Bytes
  pub decode : Bytes → Result DecodeError Bytes
  pub get_latest_blockhash : State → Result ClientError S.Hash × State
  pub simulate_transaction_with_config :
      S.Transaction
      → RpcSimulateTransactionConfig
      → State
      → Result ClientError (SimulationValue TransactionError) × State
  pub send_and_confirm_transaction_with_spinner_and_commitment :
      S.Transaction → CommitmentConfig → State → Result ClientError S.Signature × State
  pub get_account : Pubkey → State → Result ClientError S.Account × State
  pub new_keypair : State → S.Keypair × State

-- `s.contains(t)`
unfoldable pub contains : Bytes → Bytes → Bool
unfolding list_eq
contains [] t = t == []
contains (c ∷ s) t = take (length t) (c ∷ s) == t || contains s t

-- The text of an account whose data the match accepts.
unfoldable pub text_of : UiAccountData → Option Bytes
text_of (binary s) = some s
text_of (legacy_binary s) = some s
text_of json = none
