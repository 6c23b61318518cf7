-- ===== src/Verifier/TestVaas.antt =====
-- What the verifier program logs of the body of a test VAA.
use wormhole_svm_utils.Prelude.{
  ℕ, ◌+◌, ◌≤◌, ◌≡◌, ap, ◌∙◌, arith, List, [], ◌∷◌, length, leb_of_le, ltb_of_lt, ltb_of_le, drop,
  ok,
}
use wormhole_svm_utils.Prelude.Bytes.{Bytes, from_be_bytes, from_be_bytes-to_be_bytes}
use wormhole_svm_utils.Solana.{Event, log}
use wormhole_svm_utils.Verifier.{Log, payload_length, log_body_info, log_payload}
use wormhole_svm_utils.Verifier.Steps.{
  body_info, log_body_info_lem, prefix_info, payload_info, log_payload_lem,
}
use wormhole_svm_utils.Vaa.{TestVaa, body}
use wormhole_svm_utils.Vaa.Layout.{
  IsTyped, length-body, emitter_chain-body, sequence-body, payload-body,
}

module _ {I : Type 0} where
  -- The lines on a payload, none for an empty one.
  abbrev pub payload_lines : Bytes → List (Event Log I)
  payload_lines [] = []
  payload_lines (b ∷ bs) = log (payload_length (length (b ∷ bs))) ∷ prefix_info (b ∷ bs)

  pub body_info-body :
      (line : ℕ → ℕ → Log) (v : TestVaa)
      → IsTyped v
      → body_info {I = I} line (body v) ≡ log (line v.emitter_chain v.sequence) ∷ []
  body_info-body line v t =
      let size : 51 ≤ length (body v) = omega (arith, length-body v t.length_emitter_address) in
      let chain =
        ap from_be_bytes (emitter_chain-body v t.length_emitter_address)
        ∙ from_be_bytes-to_be_bytes 2 v.emitter_chain (omega (arith, t.emitter_chain_u16)) in
      let sequence =
        ap from_be_bytes (sequence-body v t.length_emitter_address)
        ∙ from_be_bytes-to_be_bytes 8 v.sequence (omega (arith, t.sequence_u64)) in
      rw (leb_of_le 51 (length (body v)) size, chain, sequence)

  pub payload_info-lines :
      (b p : Bytes)
      → length b ≡ 51 + length p
      → drop 51 b ≡ p
      → payload_info {I = I} b ≡ payload_lines p
  payload_info-lines b [] size e = rw (ltb_of_le 51 (length b) (omega arith))
  payload_info-lines b (x ∷ p) size e = rw (ltb_of_lt 51 (length b) (omega arith), e)

  -- Of the body of a VAA with fields of their types, the program logs the VAA's own emitter chain,
  -- sequence, payload length and first four bytes of the payload.
  pub log_body_info-body :
      (line : ℕ → ℕ → Log) (v : TestVaa)
      → IsTyped v
      → (log_body_info {I = I} line (body v) ≡ (ok tt, log (line v.emitter_chain v.sequence) ∷ []))
        × (log_payload {I = I} (body v) ≡ (ok tt, payload_lines v.payload))
  log_body_info-body line v t = (
    log_body_info_lem line (body v) ∙ ap (λ es. (ok tt, es)) (body_info-body line v t),
    log_payload_lem (body v)
        ∙ ap (λ es. (ok tt, es))
            (payload_info-lines (body v) v.payload (length-body v t.length_emitter_address)
              (payload-body v t.length_emitter_address)),
  )
