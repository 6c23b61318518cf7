-- ===== src/Submit/Protocol.antt =====
-- The executor-account-resolver protocol, as far as resolve.rs and execute.rs use its crate.
use wormhole_svm_utils.Prelude.{ℕ, Bool, List, Result}
use wormhole_svm_utils.Prelude.Bytes.{Bytes}
use wormhole_svm_utils.Solana.{Pubkey}

pub record SerializableAccountMeta : Type 0 where
  pub pubkey : Pubkey
  pub is_signer : Bool
  pub is_writable : Bool

pub record SerializableInstruction : Type 0 where
  pub program_id : Pubkey
  pub accounts : List SerializableAccountMeta
  pub ix_data : Bytes

-- The source reads the instructions of a group and nothing else of it.
pub record InstructionGroup : Type 0 where
  pub instructions : List SerializableInstruction

-- `Resolver<InstructionGroups>`; the lookup tables of a `Missing` answer are not read.
pub data Resolver : Type 0 where
  resolved : List InstructionGroup → Resolver
  missing : List Pubkey → Resolver
  account : Resolver

-- The constants of the protocol's crate, Borsh's decoder at `Resolver<InstructionGroups>`, and
-- `Pubkey::find_program_address`.
pub record Protocol : Type 1 where
  pub DecodeError : Type 0
  pub resolver_execute_vaa_v1 : Bytes
  pub resolver_result_account_seed : Bytes
  pub resolver_pubkey_payer : Pubkey
  pub resolver_pubkey_guardian_set : Pubkey
  pub resolver_pubkey_shim_vaa_sigs : Pubkey
  pub resolver_pubkey_keypair : ℕ → Pubkey
  pub deserialize : Bytes → Result DecodeError Resolver
  pub find_program_address : List Bytes → Pubkey → Pubkey × ℕ

-- The failures behind `SubmitError::ResolverSimulation`, with what their messages print.
pub data ResolverFailure (E D : Type 0) : Type 0 where
  simulation_failed : ℕ → E → ResolverFailure E D
  no_return_data : ℕ → ResolverFailure E D
  return_data_malformed : D → ResolverFailure E D
  result_account_not_found : ResolverFailure E D
  result_account_too_short : ResolverFailure E D
  result_account_malformed : D → ResolverFailure E D
  recursive_account : ResolverFailure E D
  not_resolved : ℕ → List Pubkey → ResolverFailure E D

-- The failures behind `SubmitError::Execution`.
pub data ExecutionFailure (E : Type 0) : Type 0 where
  transaction_failed : E → ExecutionFailure E
  shim_not_used : ExecutionFailure E

-- `SubmitError`, over the errors of the connection and of the decoder.
pub data SubmitError (E D : Type 0) : Type 0 where
  connection : E → SubmitError E D
  resolver_simulation : ResolverFailure E D → SubmitError E D
  execution : ExecutionFailure E → SubmitError E D
