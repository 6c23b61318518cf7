-- ===== src/Vaa/Injective.antt =====
-- What the bytes of a body say of its VAA.
use wormhole_svm_utils.Prelude.{ℕ, ◌^◌, ◌<◌, ◌≡◌, sym, ap, ◌∙◌}
use wormhole_svm_utils.Prelude.{[], ◌∷◌, length, drop}
use wormhole_svm_utils.Prelude.Bytes.{Bytes, to_be_bytes, from_be_bytes, from_be_bytes-to_be_bytes}
use wormhole_svm_utils.Prelude.Windows.{window}
use wormhole_svm_utils.Vaa.{TestVaa, body}
use wormhole_svm_utils.Vaa.Layout

to_be_bytes-injective :
    (w a b : ℕ) → a < 256 ^ w → b < 256 ^ w → to_be_bytes w a ≡ to_be_bytes w b → a ≡ b
to_be_bytes-injective w a b ha hb e =
    sym (from_be_bytes-to_be_bytes w a ha) ∙ ap from_be_bytes e ∙ from_be_bytes-to_be_bytes w b hb

-- The fields that the body holds.
pub record SameMessage (v w : TestVaa) : Type 0 where
  pub timestamp : v.timestamp ≡ w.timestamp
  pub nonce : v.nonce ≡ w.nonce
  pub emitter_chain : v.emitter_chain ≡ w.emitter_chain
  pub emitter_address : v.emitter_address ≡ w.emitter_address
  pub sequence : v.sequence ≡ w.sequence
  pub consistency_level : v.consistency_level ≡ w.consistency_level
  pub payload : v.payload ≡ w.payload

-- If two VAAs with fields of their types have equal bodies, they agree in every field of the
-- message.
pub body-injective :
    (v w : TestVaa) → Layout.IsTyped v → Layout.IsTyped w → body v ≡ body w → SameMessage v w
body-injective v w tv tw same = record {
  timestamp =
      to_be_bytes-injective 4 _ _ tv.timestamp_u32 tw.timestamp_u32
        (sym (Layout.timestamp-body v lv) ∙ ap (window 0 4) same ∙ Layout.timestamp-body w lw);
  nonce =
      to_be_bytes-injective 4 _ _ tv.nonce_u32 tw.nonce_u32
        (sym (Layout.nonce-body v lv) ∙ ap (window 4 4) same ∙ Layout.nonce-body w lw);
  emitter_chain = to_be_bytes-injective 2 _ _ tv.emitter_chain_u16 tw.emitter_chain_u16 (
      sym (Layout.emitter_chain-body v lv) ∙ ap (window 8 2) same ∙ Layout.emitter_chain-body w lw);
  emitter_address =
      sym (Layout.emitter_address-body v lv)
      ∙ ap (window 10 32) same
      ∙ Layout.emitter_address-body w lw;
  sequence =
      to_be_bytes-injective 8 _ _ tv.sequence_u64 tw.sequence_u64
        (sym (Layout.sequence-body v lv) ∙ ap (window 42 8) same ∙ Layout.sequence-body w lw);
  consistency_level = level (
      sym (Layout.consistency_level-body v lv)
      ∙ ap (window 50 1) same
      ∙ Layout.consistency_level-body w lw);
  payload = sym (Layout.payload-body v lv) ∙ ap (drop 51) same ∙ Layout.payload-body w lw;
}
  where
    lv : length v.emitter_address ≡ 32
    lv = tv.length_emitter_address

    lw : length w.emitter_address ≡ 32
    lw = tw.length_emitter_address

    level : {a b : ℕ} → ◌≡◌ {A = Bytes} (a ∷ []) (b ∷ []) → a ≡ b
    level e = cc
