-- ===== src/Submit/Execute/Placeholders.antt =====
-- What the placeholders of resolved instructions become.
use wormhole_svm_utils.Prelude.{◌≡◌, ◌≢◌, refl, sym, ap, ◌∙◌, subst, true, false, inl, inr}
use wormhole_svm_utils.Prelude.{◌==◌, list_eq, ≢_of_==, ==_iff, Bool-cases, Option-cases, find?}
use wormhole_svm_utils.Prelude.{List, Option, none, some, Memᴰ}
use wormhole_svm_utils.Prelude.{find?-Memᴰ, find?-none}
use mathlib.Core.List.Memᴰ as Memᴰ
use wormhole_svm_utils.Solana.{Pubkey, AccountMeta}
use wormhole_svm_utils.Submit.Connection.{Sdk, SolanaConnection}
use wormhole_svm_utils.Submit.Protocol.{
  Protocol, SerializableAccountMeta, SerializableInstruction, InstructionGroup,
}
use wormhole_svm_utils.Submit.Resolve.{key_of}
use wormhole_svm_utils.Submit.Execute.{
  used_keypairs, keypair_placeholders, substitute, convert_account,
}
use wormhole_svm_utils.Submit.Execute.Discovery.{
  IsNamed, uses-IsNamed, any-uses-IsNamed, discover_among-Memᴰ, from-discover_among,
  used_keypairs-Memᴰ,
}
use wormhole_svm_utils.Submit.Execute.{convert_instruction, discover_keypairs, keypair_map_of}

module _ (P : Protocol) {S : Sdk} (W : SolanaConnection S) where
  module _ (payer signatures_pubkey guardian_set : Pubkey)
      (keypair_map : List (Pubkey × Pubkey)) where
    abbrev substituted : Pubkey → Pubkey
    substituted k = substitute P k payer signatures_pubkey guardian_set keypair_map

    abbrev looked_up : Pubkey → Option (Pubkey × Pubkey)
    looked_up k = find? (λ (entry : Pubkey × Pubkey). entry.0 == k) keypair_map

    substitute-elim :
        (Q : Pubkey → Type 0) (k : Pubkey)
        → (k ≡ P.resolver_pubkey_payer → Q payer)
        → (k ≡ P.resolver_pubkey_shim_vaa_sigs → Q signatures_pubkey)
        → (k ≡ P.resolver_pubkey_guardian_set → Q guardian_set)
        → ((ph actual : Pubkey) → looked_up k ≡ some (ph, actual) → Q actual)
        → (k ≢ P.resolver_pubkey_payer
            → k ≢ P.resolver_pubkey_shim_vaa_sigs
            → k ≢ P.resolver_pubkey_guardian_set
            → looked_up k ≡ none
            → Q k)
        → Q (substituted k)
    unfolding substitute
    substitute-elim Q k p s g found same = elim (Bool-cases (k == P.resolver_pubkey_payer)) [
      | inl e ↦ rw e (p ((==_iff k _).0 e))
      | inr e ↦ elim (Bool-cases (k == P.resolver_pubkey_shim_vaa_sigs)) [
        | inl e1 ↦ rw (e, e1) (s ((==_iff k _).0 e1))
        | inr e1 ↦ elim (Bool-cases (k == P.resolver_pubkey_guardian_set)) [
          | inl e2 ↦ rw (e, e1, e2) (g ((==_iff k _).0 e2))
          | inr e2 ↦ elim (Option-cases (looked_up k)) [
            | inl n ↦ rw (e, e1, e2, n) (same (≢_of_== k _ e) (≢_of_== k _ e1) (≢_of_== k _ e2) n)
            | inr ((ph, actual), n) ↦ rw (e, e1, e2, n) (found ph actual n)
          ]
        ]
      ]
    ]

    key_of-convert_account :
        (am : SerializableAccountMeta)
        → key_of (convert_account P payer signatures_pubkey guardian_set keypair_map am)
          ≡ substituted am.pubkey
    unfolding convert_account
    key_of-convert_account am = elim (Bool-cases am.is_writable) [ inl e ↦ rw e | inr e ↦ rw e ]

  -- Not a placeholder of the protocol.
  abbrev pub IsReal : Pubkey → Type 0
  IsReal k =
      (k ≢ P.resolver_pubkey_payer)
      × (k ≢ P.resolver_pubkey_shim_vaa_sigs)
      × (k ≢ P.resolver_pubkey_guardian_set)
      × (¬ Memᴰ k (keypair_placeholders P))

  module _ (groups : List InstructionGroup) (payer signatures_pubkey guardian_set : Pubkey)
      (s : W.State) where
    abbrev pub generated : List (Pubkey × S.Keypair)
    generated = (discover_keypairs P W groups s).0

    abbrev pub keys : List (Pubkey × Pubkey)
    keys = keypair_map_of P W generated

    -- What is found in the map was generated.
    found-generated :
        (k ph actual : Pubkey)
        → looked_up payer signatures_pubkey guardian_set keys k ≡ some (ph, actual)
        → (kp : S.Keypair) × Memᴰ (k, kp) generated × (S.pubkey kp ≡ actual)
    found-generated k ph actual h =
        let (m, e) = find?-Memᴰ (λ (entry : Pubkey × Pubkey). entry.0 == k) keys h in
        let ((ph', kp), m', f) =
          Memᴰ.of_map (λ (entry : Pubkey × S.Keypair). (entry.0, S.pubkey entry.1)) generated m in
        let same : ph ≡ k = (==_iff ph k).0 e in
        let there : ph' ≡ k = ap (λ (entry : Pubkey × Pubkey). entry.0) f ∙ same in
        (
          kp,
          subst (λ (x : Pubkey). Memᴰ (x, kp) generated) there m',
          ap (λ (entry : Pubkey × Pubkey). entry.1) f,
        )

    missing-generated :
        (k : Pubkey) (kp : S.Keypair)
        → Memᴰ (k, kp) generated
        → looked_up payer signatures_pubkey guardian_set keys k ≢ none
    missing-generated k kp m h =
        let no : (k == k) ≡ false =
          find?-none (λ (entry : Pubkey × Pubkey). entry.0 == k) keys h
            (Memᴰ.map (λ (entry : Pubkey × S.Keypair). (entry.0, S.pubkey entry.1)) m) in
        ≢_of_== k k no refl

    named-generated :
        (group : InstructionGroup) (am : SerializableAccountMeta)
        → IsNamed groups group am
        → Memᴰ am.pubkey (keypair_placeholders P)
        → (kp : S.Keypair) × Memᴰ (am.pubkey, kp) generated
    unfolding discover_keypairs
    named-generated group am n m =
        discover_among-Memᴰ P W groups am.pubkey (keypair_placeholders P) s m
          (any-uses-IsNamed groups group am n)

    abbrev pub converted : SerializableAccountMeta → AccountMeta
    converted = convert_account P payer signatures_pubkey guardian_set keys

    convert_account-IsReal :
        (group : InstructionGroup) (am : SerializableAccountMeta)
        → IsReal payer
        → IsReal signatures_pubkey
        → IsReal guardian_set
        → ((t : W.State) → IsReal (S.pubkey (W.new_keypair t).0))
        → IsNamed groups group am
        → IsReal (key_of (converted am))
    unfolding discover_keypairs
    convert_account-IsReal group am hp hs hg new n =
        let real : IsReal (substituted payer signatures_pubkey guardian_set keys am.pubkey) =
          substitute-elim payer signatures_pubkey guardian_set keys IsReal am.pubkey (λ _. hp)
            (λ _. hs) (λ _. hg)
            (λ ph actual e.
              let (kp, m, f) = found-generated am.pubkey ph actual e in
              let (t, g) =
                from-discover_among P W groups am.pubkey kp (keypair_placeholders P) s m in
              subst IsReal (ap S.pubkey (sym g) ∙ f) (new t))
            (λ a b c e. (
              a,
              b,
              c,
              λ m.
                  let (kp, m') = named-generated group am n m in
                  missing-generated am.pubkey kp m' e,
            )) in
        rw (key_of-convert_account payer signatures_pubkey guardian_set keys am) real

    -- If the payer, the signatures account, the guardian set and every new keypair's key are no
    -- placeholders, then no account of a converted instruction of the groups is one.
    pub convert_instruction-IsReal :
        IsReal payer
        → IsReal signatures_pubkey
        → IsReal guardian_set
        → ((t : W.State) → IsReal (S.pubkey (W.new_keypair t).0))
        → (group : InstructionGroup) (ix : SerializableInstruction) (account : AccountMeta)
        → Memᴰ group groups
        → Memᴰ ix group.instructions
        → Memᴰ account (convert_instruction P payer signatures_pubkey guardian_set keys ix).accounts
        → IsReal (key_of account)
    unfolding convert_instruction
    convert_instruction-IsReal hp hs hg new group ix account m m' m'' =
        let (am, n, e) = Memᴰ.of_map converted ix.accounts m'' in
        subst (λ (a : AccountMeta). IsReal (key_of a)) e
          (convert_account-IsReal group am hp hs hg new
            (record { ix = ix; in_groups = m; in_group = m'; in_ix = n }))

    -- Where an instruction of the groups names a keypair placeholder (and none of the other three),
    -- the converted account is the key of a keypair that was generated for it.
    pub convert_account-generated :
        (group : InstructionGroup) (am : SerializableAccountMeta)
        → IsNamed groups group am
        → Memᴰ am.pubkey (keypair_placeholders P)
        → am.pubkey ≢ P.resolver_pubkey_payer
        → am.pubkey ≢ P.resolver_pubkey_shim_vaa_sigs
        → am.pubkey ≢ P.resolver_pubkey_guardian_set
        → (kp : S.Keypair) × Memᴰ (am.pubkey, kp) generated × (key_of (converted am) ≡ S.pubkey kp)
    convert_account-generated group am n k np ns ng =
        let (kp0, m0) = named-generated group am n k in
        let (kp, mk, e) =
          substitute-elim payer signatures_pubkey guardian_set keys Generated am.pubkey
            (λ e. absurd (np e)) (λ e. absurd (ns e)) (λ e. absurd (ng e))
            (λ ph actual e.
              let (kp, mk, f) = found-generated am.pubkey ph actual e in (kp, mk, sym f))
            (λ _ _ _ e. absurd (missing-generated am.pubkey kp0 m0 e)) in
        (kp, mk, key_of-convert_account payer signatures_pubkey guardian_set keys am ∙ e)
      where
        Generated : Pubkey → Type 0
        Generated x = (kp : S.Keypair) × Memᴰ (am.pubkey, kp) generated × (x ≡ S.pubkey kp)

    -- That keypair is among those that the group's transaction is signed with.
    pub convert_account-used_keypairs :
        (group : InstructionGroup) (ix : SerializableInstruction) (am : SerializableAccountMeta)
        → Memᴰ group groups
        → Memᴰ ix group.instructions
        → Memᴰ am ix.accounts
        → Memᴰ am.pubkey (keypair_placeholders P)
        → am.pubkey ≢ P.resolver_pubkey_payer
        → am.pubkey ≢ P.resolver_pubkey_shim_vaa_sigs
        → am.pubkey ≢ P.resolver_pubkey_guardian_set
        → (kp : S.Keypair) × Memᴰ kp (used_keypairs group generated)
          × (key_of (converted am) ≡ S.pubkey kp)
    convert_account-used_keypairs group ix am m m' m'' k np ns ng =
        let n : IsNamed groups group am = record {
          ix = ix;
          in_groups = m;
          in_group = m';
          in_ix = m'';
        } in
        let (kp, mk, e) = convert_account-generated group am n k np ns ng in
        (
          kp,
          used_keypairs-Memᴰ P W group am.pubkey kp generated (uses-IsNamed groups group am n) mk,
          e,
        )

    -- The payer's placeholder becomes the payer.
    pub convert_account-payer :
        (am : SerializableAccountMeta)
        → am.pubkey ≡ P.resolver_pubkey_payer
        → key_of (converted am) ≡ payer
    unfolding substitute
    convert_account-payer am e =
        let same : (am.pubkey == P.resolver_pubkey_payer) ≡ true = (==_iff _ _).1 e in
        key_of-convert_account payer signatures_pubkey guardian_set keys am ∙ rw (substitute, same)
