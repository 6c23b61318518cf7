-- ===== src/Submit/Execute/Discovery.antt =====
-- `discover_keypairs`: which placeholders have keypairs.
use wormhole_svm_utils.Prelude.{◌≡◌, refl, sym, ap, subst, true, false, inl, inr}
use wormhole_svm_utils.Prelude.{◌==◌, list_eq, ==_self, Bool-cases, any}
use wormhole_svm_utils.Prelude.{List, [], ◌∷◌, Memᴰ, any-Memᴰ}
use mathlib.Core.List.Memᴰ.{head, tail}
use wormhole_svm_utils.Solana.{Pubkey}
use wormhole_svm_utils.Submit.Connection.{Sdk, SolanaConnection}
use wormhole_svm_utils.Submit.Protocol.{
  Protocol, SerializableAccountMeta, SerializableInstruction, InstructionGroup,
}
use wormhole_svm_utils.Submit.Execute.{uses, used_keypairs}
use wormhole_svm_utils.Submit.Execute.{discover_among}

-- An account that an instruction of one of the groups names.
pub record IsNamed (groups : List InstructionGroup) (group : InstructionGroup)
    (am : SerializableAccountMeta) : Type 0 where
  pub ix : SerializableInstruction
  pub in_groups : Memᴰ group groups
  pub in_group : Memᴰ ix group.instructions
  pub in_ix : Memᴰ am ix.accounts

pub uses-IsNamed :
    (groups : List InstructionGroup) (group : InstructionGroup) (am : SerializableAccountMeta)
    → IsNamed groups group am
    → uses am.pubkey group ≡ true
uses-IsNamed groups group am n =
    any-Memᴰ
      (λ (ix : SerializableInstruction).
        any (λ (a : SerializableAccountMeta). a.pubkey == am.pubkey) ix.accounts)
      group.instructions n.in_group
      (any-Memᴰ (λ (a : SerializableAccountMeta). a.pubkey == am.pubkey) n.ix.accounts n.in_ix
        (==_self am.pubkey))

pub any-uses-IsNamed :
    (groups : List InstructionGroup) (group : InstructionGroup) (am : SerializableAccountMeta)
    → IsNamed groups group am
    → any (uses am.pubkey) groups ≡ true
any-uses-IsNamed groups group am n =
    any-Memᴰ (uses am.pubkey) groups n.in_groups (uses-IsNamed groups group am n)

module _ (P : Protocol) {S : Sdk} (W : SolanaConnection S) where
  module _ (groups : List InstructionGroup) where
    abbrev among : List Pubkey → W.State → List (Pubkey × S.Keypair)
    among placeholders s = (discover_among P W groups placeholders s).0

    pub discover_among-skipped :
        (ph : Pubkey) (phs : List Pubkey) (s : W.State)
        → any (uses ph) groups ≡ false
        → among (ph ∷ phs) s ≡ among phs s
    unfolding discover_among
    discover_among-skipped ph phs s e = rw (among, e)

    pub discover_among-generated :
        (ph : Pubkey) (phs : List Pubkey) (s : W.State)
        → any (uses ph) groups ≡ true
        → among (ph ∷ phs) s ≡ (ph, (W.new_keypair s).0) ∷ among phs (W.new_keypair s).1
    unfolding discover_among
    discover_among-generated ph phs s e = rw (among, e)

    -- A used placeholder among those looked for has a keypair.
    pub discover_among-Memᴰ :
        (k : Pubkey) (phs : List Pubkey) (s : W.State)
        → Memᴰ k phs
        → any (uses k) groups ≡ true
        → (kp : S.Keypair) × Memᴰ (k, kp) (among phs s)
    discover_among-Memᴰ k [] s m h = elim m [ ]
    discover_among-Memᴰ k (ph ∷ phs) s m h = elim (Bool-cases (any (uses ph) groups)) [
      | inl e ↦ elim m [
        | head f ↦ ((W.new_keypair s).0, rw (discover_among-generated ph phs s e, f) (head refl))
        | tail later ↦
            let (kp, n) = discover_among-Memᴰ k phs (W.new_keypair s).1 later h in
            (kp, rw (discover_among-generated ph phs s e) (tail n))
      ]
      | inr e ↦ elim m [
        | head f ↦ let used : any (uses ph) groups ≡ true = rw (sym f) h in cc
        | tail later ↦
            let (kp, n) = discover_among-Memᴰ k phs s later h in
            (kp, rw (discover_among-skipped ph phs s e) n)
      ]
    ]

    -- The keypairs are new ones.
    pub from-discover_among :
        (k : Pubkey) (kp : S.Keypair) (phs : List Pubkey) (s : W.State)
        → Memᴰ (k, kp) (among phs s)
        → (t : W.State) × (kp ≡ (W.new_keypair t).0)
    unfolding discover_among
    from-discover_among k kp [] s m = elim m [ ]
    from-discover_among k kp (ph ∷ phs) s m = elim (Bool-cases (any (uses ph) groups)) [
      | inl e ↦
          let m' : Memᴰ (k, kp) ((ph, (W.new_keypair s).0) ∷ among phs (W.new_keypair s).1) =
            subst (Memᴰ (k, kp)) (discover_among-generated ph phs s e) m in
          elim m' [
            | head f ↦ (s, ap (λ (entry : Pubkey × S.Keypair). entry.1) f)
            | tail later ↦ from-discover_among k kp phs (W.new_keypair s).1 later
          ]
      | inr e ↦
          from-discover_among k kp phs s
            (subst (Memᴰ (k, kp)) (discover_among-skipped ph phs s e) m)
    ]

  pub used_keypairs-Memᴰ :
      (group : InstructionGroup) (k : Pubkey) (kp : S.Keypair) (all : List (Pubkey × S.Keypair))
      → uses k group ≡ true
      → Memᴰ (k, kp) all
      → Memᴰ kp (used_keypairs group all)
  used_keypairs-Memᴰ group k kp [] h m = elim m [ ]
  used_keypairs-Memᴰ group k kp ((ph, other) ∷ rest) h (head e) =
      let used : uses ph group ≡ true =
        subst (λ (x : Pubkey). uses x group ≡ true) (ap (λ (entry : Pubkey × S.Keypair). entry.0) e)
          h in
      rw used (head (ap (λ (entry : Pubkey × S.Keypair). entry.1) e))
  used_keypairs-Memᴰ group k kp ((ph, other) ∷ rest) h (tail m) =
      let later = used_keypairs-Memᴰ group k kp rest h m in
      elim (Bool-cases (uses ph group)) [ inl e ↦ rw e (tail later) | inr e ↦ rw e later ]
