-- ===== src/Submit/Execute.antt =====
-- crates/wormhole-svm-submit/src/execute.rs: the placeholders of resolved instructions replaced,
-- and one transaction sent for each group.
pub mod Discovery
pub mod Placeholders
pub mod Signers
pub mod Signed
pub mod Sending
use wormhole_svm_utils.Prelude.{ℕ, ◌==◌, list_eq, if◌then◌else◌, any, find?, Bool, true, false}
use wormhole_svm_utils.Prelude.{
  List, [], ◌∷◌, map, Option, none, some, Result, ok, err, panic, ok_or,
}
use wormhole_svm_utils.Solana.{Pubkey, AccountMeta, writable, readonly, Instruction}
use wormhole_svm_utils.Submit.Connection.{Sdk, SolanaConnection, Exec, ◌>>=◌, lift, draw, map_error}
use wormhole_svm_utils.Submit.Protocol.{
  Protocol, SerializableAccountMeta, SerializableInstruction, InstructionGroup,
}
use wormhole_svm_utils.Submit.Protocol.{SubmitError, connection, execution, transaction_failed}

-- `iter().any(|a| a.pubkey == *placeholder)` over the accounts of a group's instructions.
abbrev pub uses : Pubkey → InstructionGroup → Bool
uses placeholder group =
    any
      (λ (ix : SerializableInstruction).
        any (λ (a : SerializableAccountMeta). a.pubkey == placeholder) ix.accounts)
      group.instructions

-- `filter(..).map(|(_, kp)| kp)`
abbrev pub used_keypairs : {A : Type 0} → InstructionGroup → List (Pubkey × A) → List A
used_keypairs group [] = []
used_keypairs group ((placeholder, kp) ∷ rest) =
    if uses placeholder group then kp ∷ used_keypairs group rest else used_keypairs group rest

module _ (P : Protocol) where
  unfoldable pub keypair_placeholders : List Pubkey
  keypair_placeholders = map P.resolver_pubkey_keypair (0 ∷ 1 ∷ 2 ∷ 3 ∷ 4 ∷ 5 ∷ 6 ∷ 7 ∷ 8 ∷ 9 ∷ [])

  unfoldable pub substitute : Pubkey → Pubkey → Pubkey → Pubkey → List (Pubkey × Pubkey) → Pubkey
  substitute pubkey payer signatures_pubkey guardian_set keypair_map =
      if pubkey == P.resolver_pubkey_payer
      then payer
      else if pubkey == P.resolver_pubkey_shim_vaa_sigs
      then signatures_pubkey
      else if pubkey == P.resolver_pubkey_guardian_set
      then guardian_set
      else elim (find? (λ (entry : Pubkey × Pubkey). entry.0 == pubkey) keypair_map) [
        | some (_, actual) ↦ actual
        | none ↦ pubkey
      ]

  unfoldable pub convert_account :
      Pubkey → Pubkey → Pubkey → List (Pubkey × Pubkey) → SerializableAccountMeta → AccountMeta
  convert_account payer signatures_pubkey guardian_set keypair_map am =
      let pubkey = substitute am.pubkey payer signatures_pubkey guardian_set keypair_map in
      if am.is_writable then writable pubkey am.is_signer else readonly pubkey am.is_signer

  unfoldable pub convert_instruction :
      Pubkey → Pubkey → Pubkey → List (Pubkey × Pubkey) → SerializableInstruction → Instruction
  convert_instruction payer signatures_pubkey guardian_set keypair_map si = record {
    program_id = si.program_id;
    accounts = map (convert_account payer signatures_pubkey guardian_set keypair_map) si.accounts;
    ix_data = si.ix_data;
  }

  module _ {S : Sdk} (W : SolanaConnection S) where
    abbrev pub Failure : Type 0
    Failure = SubmitError W.Error P.DecodeError

    -- The loop of `discover_keypairs`: a new keypair for each placeholder that a group uses.
    unfoldable pub discover_among :
        List InstructionGroup → List Pubkey → W.State → List (Pubkey × S.Keypair) × W.State
    discover_among groups [] s = ([], s)
    discover_among groups (placeholder ∷ placeholders) s = elim (any (uses placeholder) groups) [
      | false ↦ discover_among groups placeholders s
      | true ↦
          let (kp, t) = W.new_keypair s in
          let (rest, t') = discover_among groups placeholders t in ((placeholder, kp) ∷ rest, t')
    ]

    unfoldable pub discover_keypairs :
        List InstructionGroup → W.State → List (Pubkey × S.Keypair) × W.State
    discover_keypairs groups = discover_among groups keypair_placeholders

    -- `(*placeholder, kp.pubkey())` for every generated keypair.
    abbrev pub keypair_map_of : List (Pubkey × S.Keypair) → List (Pubkey × Pubkey)
    keypair_map_of generated =
        map (λ (entry : Pubkey × S.Keypair). (entry.0, S.pubkey entry.1)) generated

    module _ (payer : S.Keypair) (signatures_pubkey guardian_set : Pubkey)
        (generated_keypairs : List (Pubkey × S.Keypair)) where
      -- The transaction of a group: its instructions converted, signed by the payer and by the
      -- keypairs that the group uses.
      unfoldable pub group_transaction : InstructionGroup → S.Hash → Option S.Transaction
      group_transaction group blockhash =
          S.new_signed_with_payer
            (map
              (convert_instruction (S.pubkey payer) signatures_pubkey guardian_set
                (keypair_map_of generated_keypairs))
              group.instructions)
            (some (S.pubkey payer)) (payer ∷ used_keypairs group generated_keypairs) blockhash

      -- One pass of the loop over the groups.
      unfoldable pub execute_group : InstructionGroup → Exec W.State Failure S.Signature
      execute_group group = do
        blockhash ← map_error connection W.get_latest_blockhash
        tx ← lift (ok_or (group_transaction group blockhash) panic)
        map_error (λ e. execution (transaction_failed e)) (W.send_and_confirm tx)

      unfoldable pub execute_each : List InstructionGroup → Exec W.State Failure (List S.Signature)
      execute_each [] = lift (ok [])
      execute_each (group ∷ groups) = do
        sig ← execute_group group
        tx_sigs ← execute_each groups
        lift (ok (sig ∷ tx_sigs))

    unfoldable pub execute_instruction_groups :
        S.Keypair
        → List InstructionGroup
        → Pubkey
        → Pubkey
        → Exec W.State Failure (List S.Signature)
    execute_instruction_groups payer groups signatures_pubkey guardian_set = do
      generated_keypairs ← draw (discover_keypairs groups)
      execute_each payer signatures_pubkey guardian_set generated_keypairs groups
