-- ===== src/Vaa/Layout.antt =====
-- Where `TestVaa::body` puts each field.
use wormhole_svm_utils.Prelude.{◌+◌, ◌^◌, ◌<◌, ◌≡◌, refl, arith}
use wormhole_svm_utils.Prelude.{[], ◌∷◌, ◌++◌, length, drop, length-append}
use wormhole_svm_utils.Prelude.Bytes.{AreBytes, IsByte, to_be_bytes}
use wormhole_svm_utils.Prelude.Bytes.{length-to_be_bytes}
use wormhole_svm_utils.Prelude.Windows.{window, window-at, drop-past}
use wormhole_svm_utils.Vaa.{TestVaa, body}

-- The ranges of the struct's integer and array types.
pub record IsTyped (v : TestVaa) : Type 0 where
  pub timestamp_u32 : v.timestamp < 2 ^ 32
  pub nonce_u32 : v.nonce < 2 ^ 32
  pub emitter_chain_u16 : v.emitter_chain < 2 ^ 16
  pub length_emitter_address : length v.emitter_address ≡ 32
  pub emitter_address_bytes : AreBytes v.emitter_address
  pub sequence_u64 : v.sequence < 2 ^ 64
  pub consistency_level_u8 : IsByte v.consistency_level
  pub guardian_set_index_u32 : v.guardian_set_index < 2 ^ 32
  pub payload_bytes : AreBytes v.payload

-- The body is the 51 bytes of the header and the payload.
pub length-body :
    (v : TestVaa) → length v.emitter_address ≡ 32 → length (body v) ≡ 51 + length v.payload
unfolding body
length-body v e = simp (length-append, length-to_be_bytes) (omega arith)

module _ (v : TestVaa) (e : length v.emitter_address ≡ 32) where
  drop_4 :
      drop 4 (body v)
      ≡ to_be_bytes 4 v.nonce
        ++ (to_be_bytes 2 v.emitter_chain
            ++ (v.emitter_address
                ++ (to_be_bytes 8 v.sequence ++ (v.consistency_level ∷ v.payload))))
  unfolding body
  drop_4 =
      drop-past (body v) (to_be_bytes 4 v.timestamp) _ 0 4 refl (length-to_be_bytes 4 v.timestamp) 4
        refl

  drop_8 :
      drop 8 (body v)
      ≡ to_be_bytes 2 v.emitter_chain
        ++ (v.emitter_address ++ (to_be_bytes 8 v.sequence ++ (v.consistency_level ∷ v.payload)))
  drop_8 = drop-past (body v) _ _ 4 4 drop_4 (length-to_be_bytes 4 v.nonce) 8 refl

  drop_10 :
      drop 10 (body v)
      ≡ v.emitter_address ++ (to_be_bytes 8 v.sequence ++ (v.consistency_level ∷ v.payload))
  drop_10 = drop-past (body v) _ _ 8 2 drop_8 (length-to_be_bytes 2 v.emitter_chain) 10 refl

  drop_42 : drop 42 (body v) ≡ to_be_bytes 8 v.sequence ++ (v.consistency_level ∷ v.payload)
  drop_42 = drop-past (body v) _ _ 10 32 drop_10 e 42 refl

  drop_50 : drop 50 (body v) ≡ (v.consistency_level ∷ []) ++ v.payload
  drop_50 = drop-past (body v) _ _ 42 8 drop_42 (length-to_be_bytes 8 v.sequence) 50 refl

  pub timestamp-body : window 0 4 (body v) ≡ to_be_bytes 4 v.timestamp
  unfolding body
  timestamp-body = window-at (body v) _ _ 0 4 refl (length-to_be_bytes 4 v.timestamp)

  pub nonce-body : window 4 4 (body v) ≡ to_be_bytes 4 v.nonce
  nonce-body = window-at (body v) _ _ 4 4 drop_4 (length-to_be_bytes 4 v.nonce)

  pub emitter_chain-body : window 8 2 (body v) ≡ to_be_bytes 2 v.emitter_chain
  emitter_chain-body = window-at (body v) _ _ 8 2 drop_8 (length-to_be_bytes 2 v.emitter_chain)

  pub emitter_address-body : window 10 32 (body v) ≡ v.emitter_address
  emitter_address-body = window-at (body v) _ _ 10 32 drop_10 e

  pub sequence-body : window 42 8 (body v) ≡ to_be_bytes 8 v.sequence
  sequence-body = window-at (body v) _ _ 42 8 drop_42 (length-to_be_bytes 8 v.sequence)

  pub consistency_level-body : window 50 1 (body v) ≡ v.consistency_level ∷ []
  consistency_level-body = window-at (body v) _ _ 50 1 drop_50 refl

  pub payload-body : drop 51 (body v) ≡ v.payload
  payload-body = drop-past (body v) (v.consistency_level ∷ []) _ 50 1 drop_50 refl 51 refl
