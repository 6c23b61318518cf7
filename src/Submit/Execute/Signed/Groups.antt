-- ===== src/Submit/Execute/Signed/Groups.antt =====
-- The transaction of a group has just the signers that it demands.
use wormhole_svm_utils.Prelude.{
  ◌≡◌, ◌≢◌, ◌⊎◌, inl, inr, refl, sym, ap, ◌∙◌, subst, true, Bool-cases, list_eq, ==_iff, List, [],
  ◌∷◌, some, map, Memᴰ,
}
use mathlib.Core.List.Memᴰ as Memᴰ
use mathlib.Core.List.Memᴰ.{head, tail}
use wormhole_svm_utils.Solana.{Pubkey, AccountMeta, Instruction}
use wormhole_svm_utils.Submit.Connection.{Sdk, SolanaConnection}
use wormhole_svm_utils.Submit.Protocol.{
  Protocol, SerializableAccountMeta, SerializableInstruction, InstructionGroup,
}
use wormhole_svm_utils.Submit.Resolve.{key_of}
use wormhole_svm_utils.Submit.Execute.{
  uses, used_keypairs, keypair_placeholders, convert_account, convert_instruction,
  discover_keypairs, group_transaction,
}
use wormhole_svm_utils.Submit.Execute.Placeholders.{
  generated, keys, converted, convert_account-generated, convert_account-used_keypairs,
  convert_account-payer,
}
use wormhole_svm_utils.Submit.Execute.Signed.{
  signs, Demands, Matches, SignsMatching, AreDistinct, of_any, placeholder_of_discover, one_keypair,
}

used_keypairs-used :
    {A : Type 0} (group : InstructionGroup) (kp : A) (all : List (Pubkey × A))
    → Memᴰ kp (used_keypairs group all)
    → (k : Pubkey) × Memᴰ (k, kp) all × (uses k group ≡ true)
used_keypairs-used group kp [] m = elim m [ ]
used_keypairs-used {A} group kp ((ph, other) ∷ rest) m = elim (Bool-cases (uses ph group)) [
  | inr e ↦
      let left : Memᴰ kp (used_keypairs group rest) = rw e at m in
      let (k, n, u) = used_keypairs-used group kp rest left in (k, tail n, u)
  | inl e ↦
      let both : Memᴰ kp (other ∷ used_keypairs group rest) = rw e at m in
      elim both [
        | head f ↦ (ph, head (ap (λ (x : A). (ph, x)) f), e)
        | tail later ↦ let (k, n, u) = used_keypairs-used group kp rest later in (k, tail n, u)
      ]
]

module _ (P : Protocol) where
  -- The placeholders of keypairs are ten keys, and none of the other three placeholders.
  pub record ArePlaceholders : Type 0 where
    pub distinct : AreDistinct (keypair_placeholders P)
    pub apart :
        (k : Pubkey)
        → Memᴰ k (keypair_placeholders P)
        → (k ≢ P.resolver_pubkey_payer)
          × (k ≢ P.resolver_pubkey_shim_vaa_sigs)
          × (k ≢ P.resolver_pubkey_guardian_set)

  -- Where an instruction of the group has an account that must sign, this is the placeholder of the
  -- payer or of a keypair; and where it names the placeholder of a keypair, this must sign.
  pub record AreSigned (group : InstructionGroup) : Type 0 where
    pub known :
        (ix : SerializableInstruction) (am : SerializableAccountMeta)
        → Memᴰ ix group.instructions
        → Memᴰ am ix.accounts
        → am.is_signer ≡ true
        → (am.pubkey ≡ P.resolver_pubkey_payer) ⊎ Memᴰ am.pubkey (keypair_placeholders P)
    pub keypairs_sign :
        (ix : SerializableInstruction) (am : SerializableAccountMeta)
        → Memᴰ ix group.instructions
        → Memᴰ am ix.accounts
        → Memᴰ am.pubkey (keypair_placeholders P)
        → am.is_signer ≡ true

  signs-convert_account :
      (payer signatures_pubkey guardian_set : Pubkey) (keypair_map : List (Pubkey × Pubkey))
      (am : SerializableAccountMeta)
      → signs (convert_account P payer signatures_pubkey guardian_set keypair_map am) ≡ am.is_signer
  unfolding convert_account
  signs-convert_account payer signatures_pubkey guardian_set keypair_map am =
      elim (Bool-cases am.is_writable) [ inl e ↦ rw e | inr e ↦ rw e ]

  module _ {S : Sdk} (W : SolanaConnection S) (groups : List InstructionGroup) (payer : S.Keypair)
      (signatures_pubkey guardian_set : Pubkey) (s : W.State) (A : ArePlaceholders) where
    abbrev keypairs : List (Pubkey × S.Keypair)
    keypairs = generated P W groups (S.pubkey payer) signatures_pubkey guardian_set s

    abbrev account_in : SerializableAccountMeta → AccountMeta
    account_in = converted P W groups (S.pubkey payer) signatures_pubkey guardian_set s

    abbrev instruction_in : SerializableInstruction → Instruction
    instruction_in =
        convert_instruction P (S.pubkey payer) signatures_pubkey guardian_set
          (keys P W groups (S.pubkey payer) signatures_pubkey guardian_set s)

    module _ (group : InstructionGroup) (in_groups : Memᴰ group groups) (G : AreSigned group) where
      -- A keypair that the group uses is demanded by the account that names it.
      wanted_keypair :
          (kp : S.Keypair)
          → Memᴰ kp (used_keypairs group keypairs)
          → Demands (map instruction_in group.instructions) (S.pubkey kp)
      unfolding convert_instruction discover_keypairs
      wanted_keypair kp m =
          let (k, made, used) = used_keypairs-used group kp keypairs m in
          let (ix, in_group, names) = of_any _ group.instructions used in
          let (am, in_ix, same) = of_any _ ix.accounts names in
          let here : am.pubkey ≡ k = (==_iff am.pubkey k).0 same in
          let placeholder : Memᴰ am.pubkey (keypair_placeholders P) =
            subst (λ (x : Pubkey). Memᴰ x (keypair_placeholders P)) (sym here)
              (placeholder_of_discover P W groups k kp (keypair_placeholders P) s made) in
          let (np, ns, ng) = A.apart am.pubkey placeholder in
          let (kp', made', key) =
            convert_account-generated P W groups (S.pubkey payer) signatures_pubkey guardian_set s
              group am
              (record { ix = ix; in_groups = in_groups; in_group = in_group; in_ix = in_ix })
              placeholder np ns ng in
          let one : kp' ≡ kp =
            one_keypair P W groups k kp' kp (keypair_placeholders P) s A.distinct
              (subst (λ (x : Pubkey). Memᴰ (x, kp') keypairs) here made') made in
          record {
            instruction = instruction_in ix;
            account = account_in am;
            in_transaction = Memᴰ.map instruction_in in_group;
            in_instruction = Memᴰ.map account_in in_ix;
            must_sign =
                signs-convert_account (S.pubkey payer) signatures_pubkey guardian_set
                  (keys P W groups (S.pubkey payer) signatures_pubkey guardian_set s) am
                ∙ G.keypairs_sign ix am in_group in_ix placeholder;
            key = key ∙ ap S.pubkey one;
          }

      signer_of_account :
          (ix : SerializableInstruction) (am : SerializableAccountMeta)
          → Memᴰ ix group.instructions
          → Memᴰ am ix.accounts
          → am.is_signer ≡ true
          → (kp : S.Keypair) × Memᴰ kp (payer ∷ used_keypairs group keypairs)
            × (S.pubkey kp ≡ key_of (account_in am))
      signer_of_account ix am in_group in_ix must = elim (G.known ix am in_group in_ix must) [
        | inl e ↦ (
          payer,
          head refl,
          sym (
              convert_account-payer P W groups (S.pubkey payer) signatures_pubkey guardian_set s am
                e),
        )
        | inr placeholder ↦
            let (np, ns, ng) = A.apart am.pubkey placeholder in
            let (kp, used, e) =
              convert_account-used_keypairs P W groups (S.pubkey payer) signatures_pubkey
                guardian_set s group ix am in_groups in_group in_ix placeholder np ns ng in
            (kp, tail used, sym e)
      ]

      group_transaction-Matches :
          Matches S
            (map instruction_in group.instructions)
            payer
            (payer ∷ used_keypairs group keypairs)
      unfolding convert_instruction
      group_transaction-Matches = record {
        payer_signs = head refl;
        enough = λ k d.
            let (ix, in_group, e) =
              Memᴰ.of_map instruction_in group.instructions d.in_transaction in
            let inside : Memᴰ d.account (instruction_in ix).accounts =
              subst (λ (i : Instruction). Memᴰ d.account i.accounts) (sym e) d.in_instruction in
            let (am, in_ix, f) = Memᴰ.of_map account_in ix.accounts inside in
            let must =
              sym (
                signs-convert_account (S.pubkey payer) signatures_pubkey guardian_set
                  (keys P W groups (S.pubkey payer) signatures_pubkey guardian_set s) am)
              ∙ ap signs f
              ∙ d.must_sign in
            let (kp, m, g) = signer_of_account ix am in_group in_ix must in
            (kp, m, g ∙ ap key_of f ∙ d.key);
        wanted = λ kp m. elim m [
          | head e ↦ inl (ap S.pubkey e)
          | tail used ↦ inr (wanted_keypair kp used)
        ];
      }

      -- The group's transaction can be signed.
      pub group_transaction-signed :
          SignsMatching S
          → (h : S.Hash)
          → (tx : S.Transaction) × (group_transaction P W payer signatures_pubkey guardian_set
                keypairs group h
              ≡ some tx)
      unfolding group_transaction
      group_transaction-signed law h = law _ payer _ h group_transaction-Matches
