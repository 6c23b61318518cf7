-- ===== src/Capture/Crossing.antt =====
-- Each parser on what the other one reads.
use wormhole_svm_utils.Prelude.{
  ◌≡◌, ◌≢◌, sym, ◌∙◌, arith, length, ◌==◌, list_eq, ==_iff, err, false, Bool-cases, inl, inr,
}
use wormhole_svm_utils.Prelude.Bytes.{Bytes}
use wormhole_svm_utils.Prelude.Windows.{window, window-head, slice_ok}
use wormhole_svm_utils.Capture.{MessageEvent, parse_post_message, parse_message_event}
use wormhole_svm_utils.Capture.Parsing.{event_bytes}
use native.Mathlib.Decide.{dec_le}

-- Tests of `==` that fail.
different : (a b : Bytes) → a ≢ b → (a == b) ≡ false
different a b ne = elim (Bool-cases (a == b)) [
  | inl same ↦ absurd (ne ((==_iff a b).0 same))
  | inr other ↦ other
]

module _ (selector discriminator : Bytes) where
  -- Bytes without the event's discriminator are no event.
  pub parse_message_event_err :
      (bytes : Bytes)
      → window 8 8 bytes ≢ discriminator
      → parse_message_event selector discriminator bytes ≡ err tt
  unfolding parse_message_event
  parse_message_event_err bytes ne = elim (dec_le 60 (length bytes)) [
    | no short ↦ ground arith
    | yes h ↦
        let other = different (window 8 8 bytes) discriminator ne in
        ground (arith, slice_ok {E = Unit {0}} 8 16 bytes (omega arith) (omega arith))
  ]

  -- Bytes without the selector are no call.
  pub parse_post_message_err :
      (bytes : Bytes)
      → window 0 8 bytes ≢ selector
      → parse_post_message selector discriminator bytes ≡ err tt
  unfolding parse_post_message
  parse_post_message_err bytes ne = elim (dec_le 17 (length bytes)) [
    | no short ↦ ground arith
    | yes h ↦
        let other = different (window 0 8 bytes) selector ne in
        ground (arith, slice_ok {E = Unit {0}} 0 8 bytes (omega arith) (omega arith))
  ]

  -- An event behind eight bytes that are not the selector is no call.
  pub parse_post_message-event_bytes :
      (anchor : Bytes) (e : MessageEvent)
      → length anchor ≡ 8
      → anchor ≢ selector
      → parse_post_message selector discriminator (event_bytes selector discriminator anchor e)
        ≡ err tt
  unfolding event_bytes
  parse_post_message-event_bytes anchor e ha ne =
      parse_post_message_err _ (λ same. ne (sym (window-head anchor _ 8 ha) ∙ same))
