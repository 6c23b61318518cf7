-- ===== src/Submit/Execute/Signed.antt =====
-- Which transactions can be signed, and that those of the groups can.
pub mod Groups
use wormhole_svm_utils.Prelude.{
  ◌≡◌, ◌≢◌, ◌⊎◌, inl, inr, refl, sym, ap, ◌∙◌, subst, Bool, true, Bool-cases, any, list_eq, ==_iff,
  List, [], ◌∷◌, some, map, Memᴰ,
}
use mathlib.Core.List.Memᴰ as Memᴰ
use mathlib.Core.List.Memᴰ.{head, tail}
use wormhole_svm_utils.Solana.{Pubkey, AccountMeta, writable, readonly, Instruction}
use wormhole_svm_utils.Submit.Connection.{Sdk, SolanaConnection}
use wormhole_svm_utils.Submit.Protocol.{
  Protocol, SerializableAccountMeta, SerializableInstruction, InstructionGroup,
}
use wormhole_svm_utils.Submit.Resolve.{key_of}
use wormhole_svm_utils.Submit.Execute.{
  uses, used_keypairs, keypair_placeholders, convert_account, convert_instruction, discover_among,
  discover_keypairs, group_transaction,
}
use wormhole_svm_utils.Submit.Execute.Discovery.{discover_among-skipped, discover_among-generated}
use wormhole_svm_utils.Submit.Execute.Placeholders.{
  generated, keys, converted, convert_account-generated, convert_account-used_keypairs,
  convert_account-payer,
}

-- Whether an account must sign.
abbrev pub signs : AccountMeta → Bool
signs (writable _ b) = b
signs (readonly _ b) = b

-- An instruction among `ixs` has an account with this key that must sign.
pub record Demands (ixs : List Instruction) (k : Pubkey) : Type 0 where
  pub instruction : Instruction
  pub account : AccountMeta
  pub in_transaction : Memᴰ instruction ixs
  pub in_instruction : Memᴰ account instruction.accounts
  pub must_sign : signs account ≡ true
  pub key : key_of account ≡ k

-- The signers of a transaction are the payer and those whose keys its instructions demand.
pub record Matches (S : Sdk) (ixs : List Instruction) (payer : S.Keypair) (signers : List S.Keypair)
    : Type 0 where
  pub payer_signs : Memᴰ payer signers
  pub enough : (k : Pubkey) → Demands ixs k → (kp : S.Keypair) × Memᴰ kp signers × (S.pubkey kp ≡ k)
  pub wanted :
      (kp : S.Keypair)
      → Memᴰ kp signers
      → (S.pubkey kp ≡ S.pubkey payer) ⊎ Demands ixs (S.pubkey kp)

-- `Transaction::new_signed_with_payer` panics where a signer is missing or is not wanted, and
-- signs otherwise.
abbrev pub SignsMatching : Sdk → Type 0
SignsMatching S =
    (ixs : List Instruction) (payer : S.Keypair) (signers : List S.Keypair) (h : S.Hash)
    → Matches S ixs payer signers
    → (tx : S.Transaction) × (S.new_signed_with_payer ixs (some (S.pubkey payer)) signers h
        ≡ some tx)

-- No key twice.
abbrev pub AreDistinct : List Pubkey → Type 0
AreDistinct [] = Unit {0}
AreDistinct (k ∷ ks) = (¬ Memᴰ k ks) × AreDistinct ks

pub of_any :
    {A : Type 0} (p : A → Bool) (xs : List A) → any p xs ≡ true → (x : A) × Memᴰ x xs × (p x ≡ true)
of_any p [] h = cc
of_any p (x ∷ xs) h = elim (Bool-cases (p x)) [
  | inl e ↦ (x, head refl, e)
  | inr e ↦
      let rest : any p xs ≡ true = rw e at h in let (y, m, f) = of_any p xs rest in (y, tail m, f)
]

module _ (P : Protocol) {S : Sdk} (W : SolanaConnection S) (groups : List InstructionGroup) where
  pub placeholder_of_discover :
      (k : Pubkey) (kp : S.Keypair) (phs : List Pubkey) (s : W.State)
      → Memᴰ (k, kp) (discover_among P W groups phs s).0
      → Memᴰ k phs
  unfolding discover_among
  placeholder_of_discover k kp [] s m = elim m [ ]
  placeholder_of_discover k kp (ph ∷ phs) s m = elim (Bool-cases (any (uses ph) groups)) [
    | inl e ↦ elim (subst (Memᴰ (k, kp)) (discover_among-generated P W groups ph phs s e) m) [
      | head f ↦ head (ap (λ (entry : Pubkey × S.Keypair). entry.0) f)
      | tail later ↦ tail (placeholder_of_discover k kp phs (W.new_keypair s).1 later)
    ]
    | inr e ↦ tail (
        placeholder_of_discover k kp phs s
          (subst (Memᴰ (k, kp)) (discover_among-skipped P W groups ph phs s e) m))
  ]

  -- One keypair for a placeholder.
  pub one_keypair :
      (k : Pubkey) (kp kp' : S.Keypair) (phs : List Pubkey) (s : W.State)
      → AreDistinct phs
      → Memᴰ (k, kp) (discover_among P W groups phs s).0
      → Memᴰ (k, kp') (discover_among P W groups phs s).0
      → kp ≡ kp'
  unfolding discover_among
  one_keypair k kp kp' [] s d m m' = elim m [ ]
  one_keypair k kp kp' (ph ∷ phs) s (new, d) m m' = elim (Bool-cases (any (uses ph) groups)) [
    | inr e ↦
        let skipped = discover_among-skipped P W groups ph phs s e in
        one_keypair k kp kp' phs s d (subst (Memᴰ (k, kp)) skipped m)
          (subst (Memᴰ (k, kp')) skipped m')
    | inl e ↦
        let made = discover_among-generated P W groups ph phs s e in
        let key = λ (entry : Pubkey × S.Keypair). entry.0 in
        let pair = λ (entry : Pubkey × S.Keypair). entry.1 in
        let t = (W.new_keypair s).1 in
        elim (subst (Memᴰ (k, kp)) made m) [
          | head f ↦ elim (subst (Memᴰ (k, kp')) made m') [
            | head g ↦ ap pair f ∙ sym (ap pair g)
            | tail n ↦ absurd (
                new (
                  subst (λ (x : Pubkey). Memᴰ x phs) (ap key f)
                    (placeholder_of_discover k kp' phs t n)))
          ]
          | tail n ↦ elim (subst (Memᴰ (k, kp')) made m') [
            | head g ↦ absurd (
                new (
                  subst (λ (x : Pubkey). Memᴰ x phs) (ap key g)
                    (placeholder_of_discover k kp phs t n)))
            | tail n' ↦ one_keypair k kp kp' phs t d n n'
          ]
        ]
  ]
