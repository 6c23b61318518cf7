-- ===== src/Submit/Execute/Signers.antt =====
-- The signers of a group's transaction.
use wormhole_svm_utils.Prelude.{◌≡◌, List, some, Memᴰ}
use mathlib.Core.List.Memᴰ as Memᴰ
use wormhole_svm_utils.Solana.{Pubkey, AccountMeta, Instruction}
use wormhole_svm_utils.Submit.Connection.{Sdk, SolanaConnection}
use wormhole_svm_utils.Submit.Protocol.{Protocol, SerializableAccountMeta, InstructionGroup}
use wormhole_svm_utils.Submit.Resolve.{key_of}
use wormhole_svm_utils.Submit.Execute.{group_transaction}
use wormhole_svm_utils.Submit.Execute.Placeholders.{generated, converted}

module _ (P : Protocol) {S : Sdk} (W : SolanaConnection S) (groups : List InstructionGroup)
    (payer : S.Keypair) (signatures_pubkey guardian_set : Pubkey) (s : W.State) where
  abbrev keypairs : List (Pubkey × S.Keypair)
  keypairs = generated P W groups (S.pubkey payer) signatures_pubkey guardian_set s

  -- The transaction of the group over the blockhash `h` has an instruction with an account of the
  -- key of a keypair, and both this keypair and the payer are among its signers.
  pub record SignsFor (group : InstructionGroup) (am : SerializableAccountMeta) (h : S.Hash)
      : Type 0 where
    pub keypair : S.Keypair
    pub instructions : List Instruction
    pub signers : List S.Keypair
    pub transaction :
        group_transaction P W payer signatures_pubkey guardian_set keypairs group h
        ≡ S.new_signed_with_payer instructions (some (S.pubkey payer)) signers h
    pub payer_signs : Memᴰ payer signers
    pub keypair_signs : Memᴰ keypair signers
    pub instruction : Instruction
    pub account : AccountMeta
    pub in_transaction : Memᴰ instruction instructions
    pub in_instruction : Memᴰ account instruction.accounts
    pub key : key_of account ≡ S.pubkey keypair
    pub converts :
        account ≡ converted P W groups (S.pubkey payer) signatures_pubkey guardian_set s am
