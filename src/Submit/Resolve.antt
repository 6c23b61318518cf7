-- ===== src/Submit/Resolve.antt =====
-- crates/wormhole-svm-submit/src/resolve.rs: the loop that simulates the resolver instruction
-- until the program has been given all the accounts that it needs.
pub mod Rounds
pub mod Accounts
pub mod Silent
use wormhole_svm_utils.Prelude.{ℕ, zero, suc, ◌+◌, ◌%◌, ◌^◌, leb, ◌==◌, list_eq, if◌then◌else◌}
use wormhole_svm_utils.Prelude.{List, [], ◌∷◌, ◌++◌, map, length, find?, Bool, true, false}
use wormhole_svm_utils.Prelude.{Option, none, some, Result, ok, err, panic, ok_or, map_err, fail_if}
use wormhole_svm_utils.Prelude.Bytes.{Bytes, to_le_bytes}
use wormhole_svm_utils.Prelude.Windows.{slice_from}
use wormhole_svm_utils.Solana.{Pubkey, AccountMeta, writable, readonly, Instruction}
use wormhole_svm_utils.Submit.Connection.{Sdk, SolanaConnection, SimulationResult, Exec}
use wormhole_svm_utils.Submit.Connection.{◌>>=◌, lift, map_error}
use wormhole_svm_utils.Submit.Protocol.{
  Protocol, Resolver, resolved, missing, account, InstructionGroup,
}
use wormhole_svm_utils.Submit.Protocol.{
  SubmitError, connection, resolver_simulation, simulation_failed,
}
use wormhole_svm_utils.Submit.Protocol.{
  no_return_data, return_data_malformed, result_account_not_found,
}
use wormhole_svm_utils.Submit.Protocol.{result_account_too_short, result_account_malformed}
use wormhole_svm_utils.Submit.Protocol.{recursive_account, not_resolved}

pub record ResolverResult : Type 0 where
  pub instruction_groups : List InstructionGroup
  pub iterations : ℕ

-- What an answer of the resolver leads to: a result, or accounts to add for the next round.
pub data Step : Type 0 where
  finished : List InstructionGroup → Step
  more : List Pubkey → Step

abbrev pub key_of : AccountMeta → Pubkey
key_of (writable k _) = k
key_of (readonly k _) = k

module _ (P : Protocol) where
  unfoldable pub substitute_placeholder : Pubkey → Pubkey → Pubkey → Pubkey
  substitute_placeholder pubkey payer guardian_set =
      if pubkey == P.resolver_pubkey_payer
      then payer
      else if pubkey == P.resolver_pubkey_guardian_set
      then guardian_set
      else pubkey

  -- The account that is pushed for a missing key.
  unfoldable pub missing_meta : Pubkey → Pubkey → Pubkey → Pubkey → AccountMeta
  missing_meta result_account payer guardian_set pubkey =
      let actual = substitute_placeholder pubkey payer guardian_set in
      if actual == result_account
      then writable actual false
      else if pubkey == P.resolver_pubkey_payer
      then writable actual true
      else readonly actual false

  -- The data of the resolver instruction: discriminator, length and bytes of the body.
  unfoldable pub resolver_data : Bytes → Bytes
  resolver_data vaa_body =
      P.resolver_execute_vaa_v1 ++ (to_le_bytes 4 (length vaa_body % 2 ^ 32) ++ vaa_body)

  module _ {E : Type 0} where
    -- The second match, on what the result account holds.
    unfoldable pub read_result_account :
        Pubkey → List (Pubkey × Bytes) → Result (SubmitError E P.DecodeError) Step
    read_result_account result_account post_accounts =
        let found = find? (λ (a : Pubkey × Bytes). a.0 == result_account) post_accounts in
        elim found [
          | none ↦ err (resolver_simulation result_account_not_found)
          | some (_, account_data) ↦ elim (leb (length account_data) 8) [
            | true ↦ err (resolver_simulation result_account_too_short)
            | false ↦ elim (slice_from {E = SubmitError E P.DecodeError} 8 account_data) [
              | err e ↦ err e
              | panic ↦ panic
              | ok payload ↦ elim (P.deserialize payload) [
                | err e ↦ err (resolver_simulation (result_account_malformed e))
                | panic ↦ panic
                | ok answer ↦ elim answer [
                  | resolved groups ↦ ok (finished groups)
                  | missing keys ↦ ok (more keys)
                  | account ↦ err (resolver_simulation recursive_account)
                ]
              ]
            ]
          ]
        ]

    -- What is made of a simulation's result in round `iteration`.
    unfoldable pub interpret :
        Pubkey → ℕ → SimulationResult → Result (SubmitError E P.DecodeError) Step
    interpret result_account iteration sim_result = elim sim_result.return_data [
      | none ↦ err (resolver_simulation (no_return_data iteration))
      | some return_data ↦ elim (P.deserialize return_data) [
        | err e ↦ err (resolver_simulation (return_data_malformed e))
        | panic ↦ panic
        | ok answer ↦ elim answer [
          | resolved groups ↦ ok (finished groups)
          | missing keys ↦ ok (more keys)
          | account ↦ read_result_account result_account sim_result.post_accounts
        ]
      ]
    ]

  module _ {S : Sdk} (W : SolanaConnection S) (program_id : Pubkey) (payer : S.Keypair)
      (vaa_body : Bytes) (guardian_set : Pubkey) where
    abbrev pub result_account_pubkey : Pubkey
    result_account_pubkey =
        (P.find_program_address (P.resolver_result_account_seed ∷ []) program_id).0

    abbrev pub Failure : Type 0
    Failure = SubmitError W.Error P.DecodeError

    -- The instruction that is simulated, over the accounts found so far.
    unfoldable pub resolver_ix : List AccountMeta → Instruction
    resolver_ix remaining_accounts = record {
      program_id = program_id;
      accounts = remaining_accounts;
      ix_data = resolver_data vaa_body;
    }

    -- One round: simulate, and read the answer.
    unfoldable pub round : ℕ → List AccountMeta → Exec W.State Failure Step
    round iteration remaining_accounts = do
      blockhash ← map_error connection W.get_latest_blockhash
      tx ← lift (
          ok_or
            (S.new_signed_with_payer (resolver_ix remaining_accounts ∷ []) (some (S.pubkey payer))
              (payer ∷ []) blockhash)
            panic)
      sim_result ←
          map_error (λ e. resolver_simulation (simulation_failed iteration e))
            (W.simulate_with_post_accounts tx (result_account_pubkey ∷ []))
      lift (interpret result_account_pubkey iteration sim_result)

    -- The accounts that an answer adds.
    unfoldable pub add_missing : List AccountMeta → List Pubkey → List AccountMeta
    add_missing remaining_accounts keys =
        remaining_accounts
        ++ map (missing_meta result_account_pubkey (S.pubkey payer) guardian_set) keys

    -- The rounds from `iteration` on, as many as the first number says. The second is
    -- `max_iterations`, which the message of the last failure prints.
    unfoldable pub resolve_loop : ℕ → ℕ → ℕ → List AccountMeta → Exec W.State Failure ResolverResult
    resolve_loop zero max_iterations iteration remaining_accounts =
        lift
          (err (resolver_simulation (not_resolved max_iterations (map key_of remaining_accounts))))
    resolve_loop (suc left) max_iterations iteration remaining_accounts =
        round iteration remaining_accounts >>= λ step. elim step [
          | finished groups ↦
              lift (ok (record { instruction_groups = groups; iterations = iteration }))
          | more keys ↦
              resolve_loop left max_iterations (iteration + 1) (add_missing remaining_accounts keys)
        ]

    unfoldable pub resolve_execute_vaa_v1 : ℕ → Exec W.State Failure ResolverResult
    unfolding resolve_loop
    resolve_execute_vaa_v1 max_iterations = resolve_loop max_iterations max_iterations 1 []
