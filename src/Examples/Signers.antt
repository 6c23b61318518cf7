-- ===== src/Examples/Signers.antt =====
-- A broadcast whose transactions are signed by those that their instructions demand.
use wormhole_svm_utils.Prelude.{
  ℕ, zero, suc, ◌+◌, ◌<◌, ◌≡◌, ◌≢◌, ◌⊎◌, inl, inr, refl, sym, ap, ◌∙◌, subst, arith, List, [], ◌∷◌,
  map, Result, ok, err, panic, true, false, Memᴰ, list_eq,
}
use mathlib.Core.List.Memᴰ as Memᴰ
use mathlib.Core.List.Memᴰ.{head, tail}
use wormhole_svm_utils.Prelude.Bytes.{Bytes, to_be_bytes, to_le_bytes}
use wormhole_svm_utils.Solana.{Pubkey, writable, Instruction}
use wormhole_svm_utils.Submit.Protocol.{
  Protocol, SerializableAccountMeta, SerializableInstruction, InstructionGroup, Resolver, missing,
  resolved,
}
use wormhole_svm_utils.Submit.Resolve.{
  round, resolve_execute_vaa_v1, add_missing, interpret, resolver_ix, resolver_data, resolve_loop,
  missing_meta, substitute_placeholder, key_of,
}
use wormhole_svm_utils.Submit.Execute.{keypair_placeholders}
use wormhole_svm_utils.Submit.Execute.Signed.{signs, Demands, AreDistinct}
use wormhole_svm_utils.Submit.Execute.Signed.Groups.{ArePlaceholders, AreSigned}
use wormhole_svm_utils.Submit.Broadcast.{broadcast_vaa}
use wormhole_svm_utils.Submit.Broadcast.Returns.{broadcast_vaa-ne-panic}
use wormhole_svm_utils.Submit.Broadcast.Signing.{NeverPanics, ShimDemands}
use wormhole_svm_utils.Examples.Toy.{
  toy_connection, toy_shim, definitions, account_of, protocol_with,
}
use wormhole_svm_utils.Examples.Submitting.{start}
use wormhole_svm_utils.Examples.Placeholders.{other_key}

-- The payer and a new account sign, the account of signatures does not.
abbrev signed_instruction : SerializableInstruction
signed_instruction = record {
  program_id = 50 ∷ [];
  accounts =
      account_of (1 ∷ [])
      ∷ record { pubkey = 3 ∷ []; is_signer = false; is_writable = false }
      ∷ account_of (10 ∷ [])
      ∷ [];
  ix_data = 5 ∷ [];
}

abbrev signed_group : InstructionGroup
signed_group = record { instructions = signed_instruction ∷ [] }

abbrev decode_signed : Bytes → Result (Unit {0}) Resolver
decode_signed [] = err tt
decode_signed (zero ∷ _) = ok (missing ((1 ∷ []) ∷ []))
decode_signed (suc _ ∷ _) = ok (resolved (signed_group ∷ []))

abbrev signed_protocol : Protocol
signed_protocol = protocol_with decode_signed

toy-NeverPanics : NeverPanics toy_connection
toy-NeverPanics = record { hashes = λ s p. cc; sends = λ tx s p. cc }

only : {A : Type 0} {x y : A} → Memᴰ x (y ∷ []) → x ≡ y
only (head e) = e
only (tail m) = elim m [ ]

account_in : {ix : Instruction} {k : Pubkey} (d : Demands (ix ∷ []) k) → Memᴰ d.account ix.accounts
account_in d =
    subst (λ (i : Instruction). Memᴰ d.account i.accounts) (only d.in_transaction) d.in_instruction

toy-ShimDemands : ShimDemands toy_shim
toy-ShimDemands = record {
  post_signers = λ program payer account k index n sigs d. elim (account_in d) [
    | head e ↦ inl (sym d.key ∙ ap key_of e)
    | tail later ↦ inr (sym d.key ∙ ap key_of (only later))
  ];
  post_account = λ program payer account index n sigs. record {
    instruction = _;
    account = writable account true;
    in_transaction = head refl;
    in_instruction = tail (head refl);
    must_sign = refl;
    key = refl;
  };
  close_signers = λ program account refund k d. elim (account_in d) [
    | head e ↦ let silent = ap signs e in let must = d.must_sign in cc
    | tail later ↦ sym d.key ∙ ap key_of (only later)
  ];
}

abbrev key_from : ℕ → Pubkey
key_from n = (10 + n) ∷ []

count_from : ℕ → ℕ → List ℕ
count_from n zero = []
count_from n (suc m) = n ∷ count_from (n + 1) m

above : (k n m : ℕ) → k < n → ¬ Memᴰ (key_from k) (map key_from (count_from n m))
unfolding count_from
above k n zero h m = elim m [ ]
above k n (suc m) h (head e) = other_key (10 + n) (10 + k) (omega arith) (sym e)
above k n (suc m) h (tail later) = above k (n + 1) m (omega arith) later

keys-AreDistinct : (n m : ℕ) → AreDistinct (map key_from (count_from n m))
unfolding count_from
keys-AreDistinct n zero = tt
keys-AreDistinct n (suc m) = (above n (n + 1) m (omega arith), keys-AreDistinct (n + 1) m)

toy-ArePlaceholders : ArePlaceholders signed_protocol
unfolding keypair_placeholders count_from
toy-ArePlaceholders = record {
  distinct = keys-AreDistinct 0 10;
  apart = λ k m.
      let (i, mi, e) =
        Memᴰ.of_map (λ (i : ℕ). (10 + i) ∷ []) (0 ∷ 1 ∷ 2 ∷ 3 ∷ 4 ∷ 5 ∷ 6 ∷ 7 ∷ 8 ∷ 9 ∷ []) m in
      subst (λ (k : Pubkey). (k ≢ 1 ∷ []) × (k ≢ 3 ∷ []) × (k ≢ 2 ∷ [])) e
        (
          other_key (10 + i) 1 (omega arith),
          other_key (10 + i) 3 (omega arith),
          other_key (10 + i) 2 (omega arith),
        );
}

ten : Memᴰ (10 ∷ []) (keypair_placeholders signed_protocol)
unfolding keypair_placeholders
ten = head refl

toy_accounts :
    (ix : SerializableInstruction) (am : SerializableAccountMeta)
    → Memᴰ ix signed_group.instructions
    → Memᴰ am ix.accounts
    → Memᴰ am signed_instruction.accounts
toy_accounts ix am m m' = subst (λ (i : SerializableInstruction). Memᴰ am i.accounts) (only m) m'

signed-known :
    (am : SerializableAccountMeta)
    → Memᴰ am signed_instruction.accounts
    → am.is_signer ≡ true
    → (am.pubkey ≡ 1 ∷ []) ⊎ Memᴰ am.pubkey (keypair_placeholders signed_protocol)
signed-known am (head e) must = inl (ap (λ (a : SerializableAccountMeta). a.pubkey) e)
signed-known am (tail (head e)) must =
    let silent = ap (λ (a : SerializableAccountMeta). a.is_signer) e in cc
signed-known am (tail (tail m)) must = inr (
    subst (λ (a : SerializableAccountMeta). Memᴰ a.pubkey (keypair_placeholders signed_protocol))
      (sym (only m)) ten)

signed-sign :
    (am : SerializableAccountMeta)
    → Memᴰ am signed_instruction.accounts
    → Memᴰ am.pubkey (keypair_placeholders signed_protocol)
    → am.is_signer ≡ true
signed-sign am (head e) p = ap (λ (a : SerializableAccountMeta). a.is_signer) e
signed-sign am (tail (head e)) p =
    let (_, other, _) = toy-ArePlaceholders.apart am.pubkey p in
    absurd (other (ap (λ (a : SerializableAccountMeta). a.pubkey) e))
signed-sign am (tail (tail m)) p = ap (λ (a : SerializableAccountMeta). a.is_signer) (only m)

signed_group-AreSigned : AreSigned signed_protocol signed_group
signed_group-AreSigned = record {
  known = λ ix am m m' must. signed-known am (toy_accounts ix am m m') must;
  keypairs_sign = λ ix am m m' p. signed-sign am (toy_accounts ix am m m') p;
}

resolving_signed :
    resolve_execute_vaa_v1 signed_protocol toy_connection (50 ∷ []) 20 (7 ∷ []) (60 ∷ []) 10 start
    ≡ (ok (record { instruction_groups = signed_group ∷ []; iterations = 2 }), (4, []))
unfolding resolve_execute_vaa_v1 resolve_loop round interpret resolver_ix resolver_data add_missing
    missing_meta substitute_placeholder list_eq to_be_bytes to_le_bytes
resolving_signed = refl

every_group :
    (group : InstructionGroup) → Memᴰ group (signed_group ∷ []) → AreSigned signed_protocol group
every_group group m = subst (AreSigned signed_protocol) (sym (only m)) signed_group-AreSigned

broadcast_vaa-ne-panic_example :
    (broadcast_vaa signed_protocol definitions toy_shim toy_connection 20
      (50 ∷ [])
      4
      (7 ∷ [])
      []
      (62 ∷ [])
      start).0
    ≢ panic
broadcast_vaa-ne-panic_example =
    broadcast_vaa-ne-panic signed_protocol definitions toy_shim toy_connection toy-NeverPanics
      (λ ixs payer signers h m. ((ixs, signers), refl)) toy-ArePlaceholders toy-ShimDemands 20
      (50 ∷ []) 4 (7 ∷ []) [] (62 ∷ []) start (4, [])
      (record { instruction_groups = signed_group ∷ []; iterations = 2 }) resolving_signed
      every_group
