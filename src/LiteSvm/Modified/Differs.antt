-- ===== src/LiteSvm/Modified/Differs.antt =====
-- The bodies of the modified VAAs.
use wormhole_svm_utils.Prelude.{
  ℕ, zero, suc, ◌+◌, ◌%◌, ◌^◌, ◌<◌, ◌≡◌, ◌≢◌, refl, ap, ◌∙◌, arith, Bool, true, ◌&&◌, ◌==◌, nat_eq,
  ==_iff,
}
use wormhole_svm_utils.Prelude.{[], ◌∷◌, length}
use wormhole_svm_utils.Prelude.Bytes.{Bytes, AreBytes, IsByte}
use wormhole_svm_utils.Vaa.{TestVaa, body}
use wormhole_svm_utils.Vaa.Layout.{IsTyped}
use wormhole_svm_utils.Vaa.Injective.{body-injective}
use wormhole_svm_utils.LiteSvm.Modified.{update_at, wrong_sequence, wrong_chain, wrong_address}
use Prim.Native.Nat.{bit_xor}

every_below : ℕ → (ℕ → Bool) → Bool
every_below zero p = true
every_below (suc n) p = p n && every_below n p

every_below-true : (n : ℕ) (p : ℕ → Bool) (x : ℕ) → every_below n p ≡ true → x < n → p x ≡ true
unfolding every_below
every_below-true zero p x h lt = absurd (omega arith)
every_below-true (suc n) p x h lt = ground (arith, every_below-true n p x)

complements : every_below 256 (λ b. bit_xor b 0xFF + b == 255) ≡ true
unfolding every_below nat_eq
complements = refl

bit_xor-complement : (b : ℕ) → IsByte b → bit_xor b 0xFF + b ≡ 255
bit_xor-complement b h =
    (==_iff _ 255).0 (every_below-true 256 (λ b. bit_xor b 0xFF + b == 255) b complements h)

length-update_at : (i : ℕ) (f : ℕ → ℕ) (bs : Bytes) → length (update_at i f bs) ≡ length bs
unfolding update_at
length-update_at i f [] = refl
length-update_at zero f (b ∷ bs) = refl
length-update_at (suc i) f (b ∷ bs) = ap suc (length-update_at i f bs)

module _ (f : ℕ → ℕ) (keeps : (b : ℕ) → IsByte b → IsByte (f b)) where
  update_at-AreBytes : (i : ℕ) (bs : Bytes) → AreBytes bs → AreBytes (update_at i f bs)
  unfolding update_at
  update_at-AreBytes i [] h = tt
  update_at-AreBytes zero (b ∷ bs) (hb, h) = (keeps b hb, h)
  update_at-AreBytes (suc i) (b ∷ bs) (hb, h) = (hb, update_at-AreBytes i bs h)

update_at-ne :
    (f : ℕ → ℕ) (i : ℕ) (bs : Bytes)
    → ((b : ℕ) → IsByte b → f b ≢ b)
    → AreBytes bs
    → i < length bs
    → update_at i f bs ≢ bs
unfolding update_at
update_at-ne f i [] moves h lt = absurd (omega arith)
update_at-ne f zero (b ∷ bs) moves (hb, h) lt = λ e. moves b hb (cc)
update_at-ne f (suc i) (b ∷ bs) moves (hb, h) lt =
    λ e. update_at-ne f i bs moves h (omega arith) (cc)

flip_last : ℕ → ℕ
flip_last b = bit_xor b 0xFF

flip_last-IsByte : (b : ℕ) → IsByte b → IsByte (flip_last b)
unfolding flip_last
flip_last-IsByte b h = omega (arith, bit_xor-complement b h)

flip_last-ne : (b : ℕ) → IsByte b → flip_last b ≢ b
unfolding flip_last
flip_last-ne b h e = absurd (omega (arith, bit_xor-complement b h))

module _ (v : TestVaa) (t : IsTyped v) where
  replaced-IsTyped :
      (c n : ℕ) (a : Bytes)
      → c < 2 ^ 16
      → n < 2 ^ 64
      → length a ≡ 32
      → AreBytes a
      → IsTyped (record v { emitter_chain = c; emitter_address = a; sequence = n })
  replaced-IsTyped c n a hc hn la ba = record {
    timestamp_u32 = t.timestamp_u32;
    nonce_u32 = t.nonce_u32;
    emitter_chain_u16 = hc;
    length_emitter_address = la;
    emitter_address_bytes = ba;
    sequence_u64 = hn;
    consistency_level_u8 = t.consistency_level_u8;
    guardian_set_index_u32 = t.guardian_set_index_u32;
    payload_bytes = t.payload_bytes;
  }

  wrong_sequence-IsTyped : IsTyped (wrong_sequence v)
  unfolding wrong_sequence
  wrong_sequence-IsTyped =
      replaced-IsTyped v.emitter_chain _ v.emitter_address t.emitter_chain_u16 (omega arith)
        t.length_emitter_address t.emitter_address_bytes

  wrong_chain-IsTyped : IsTyped (wrong_chain v)
  unfolding wrong_chain
  wrong_chain-IsTyped =
      replaced-IsTyped _ v.sequence v.emitter_address (omega arith) t.sequence_u64
        t.length_emitter_address t.emitter_address_bytes

  wrong_address-IsTyped : IsTyped (wrong_address v)
  unfolding wrong_address flip_last
  wrong_address-IsTyped =
      replaced-IsTyped v.emitter_chain v.sequence _ t.emitter_chain_u16 t.sequence_u64
        (length-update_at 31 flip_last v.emitter_address ∙ t.length_emitter_address)
        (update_at-AreBytes flip_last flip_last-IsByte 31 v.emitter_address t.emitter_address_bytes)

  body-wrong_sequence : body (wrong_sequence v) ≢ body v
  unfolding wrong_sequence
  body-wrong_sequence e =
      let same = body-injective (wrong_sequence v) v wrong_sequence-IsTyped t e in
      let number : (v.sequence + 1) % 2 ^ 64 ≡ v.sequence = same.sequence in
      let range = t.sequence_u64 in omega arith

  body-wrong_chain : body (wrong_chain v) ≢ body v
  unfolding wrong_chain
  body-wrong_chain e =
      let same = body-injective (wrong_chain v) v wrong_chain-IsTyped t e in
      let number : (v.emitter_chain + 1) % 2 ^ 16 ≡ v.emitter_chain = same.emitter_chain in
      let range = t.emitter_chain_u16 in omega arith

  body-wrong_address : body (wrong_address v) ≢ body v
  unfolding wrong_address flip_last
  body-wrong_address e =
      let same = body-injective (wrong_address v) v wrong_address-IsTyped t e in
      let size = t.length_emitter_address in
      update_at-ne flip_last 31 v.emitter_address flip_last-ne t.emitter_address_bytes (omega arith)
        same.emitter_address

  -- The modified VAAs of a VAA with fields of their types have fields of their types, also where a
  -- number wraps around, and none of them has the VAA's body.
  pub body-modified :
      (IsTyped (wrong_sequence v) × (body (wrong_sequence v) ≢ body v))
      × (IsTyped (wrong_chain v) × (body (wrong_chain v) ≢ body v))
      × (IsTyped (wrong_address v) × (body (wrong_address v) ≢ body v))
  body-modified = (
    (wrong_sequence-IsTyped, body-wrong_sequence),
    (wrong_chain-IsTyped, body-wrong_chain),
    (wrong_address-IsTyped, body-wrong_address),
  )
