-- ===== src/Verifier/Frames.antt =====
-- `read_body` on every input.
use wormhole_svm_utils.Prelude.{ℕ, ◌+◌, ◌≤◌, ◌<◌, ◌≡◌, refl, arith, [], ◌∷◌, length}
use wormhole_svm_utils.Prelude.{ok, err, ltb_of_lt}
use wormhole_svm_utils.Prelude.Bytes.{Bytes, from_le_bytes}
use wormhole_svm_utils.Prelude.Windows.{window, array_or_ok}
use wormhole_svm_utils.Solana.{ProgramError, invalid_instruction_data, log}
use wormhole_svm_utils.Verifier.{instruction_data_too_short, too_short_for_body, read_body}
use wormhole_svm_utils.Verifier.Steps.{read_body_ok}
use native.Mathlib.Decide.{dec_le}

-- The number of bytes that a frame says its body has.
abbrev pub frame_length : Bytes → ℕ
frame_length data' = from_le_bytes (window 1 4 data')

module _ (I : Type 0) where
  -- A frame with all its bytes is read; any other is refused, with a log line.
  pub data ReadEnds (frame : Bytes) : Type 0 where
    whole :
        (bump : ℕ) (tail : Bytes)
        → frame ≡ bump ∷ tail
        → 5 + frame_length frame ≤ length frame
        → read_body {I = I} frame ≡ (ok (bump, window 5 (frame_length frame) frame), [])
        → ReadEnds frame
    has_no_header :
        length frame < 5
        → read_body {I = I} frame
          ≡ (err invalid_instruction_data, log instruction_data_too_short ∷ [])
        → ReadEnds frame
    is_cut :
        5 ≤ length frame
        → length frame < 5 + frame_length frame
        → read_body {I = I} frame ≡ (err invalid_instruction_data, log too_short_for_body ∷ [])
        → ReadEnds frame

  short_frame :
      (frame : Bytes)
      → length frame < 5
      → read_body {I = I} frame
        ≡ (err invalid_instruction_data, log instruction_data_too_short ∷ [])
  unfolding read_body
  short_frame frame h = rw (ltb_of_lt (length frame) 5 h)

  cut_frame :
      (bump : ℕ) (tail : Bytes)
      → 5 ≤ length (bump ∷ tail)
      → length (bump ∷ tail) < 5 + frame_length (bump ∷ tail)
      → read_body {I = I} (bump ∷ tail)
        ≡ (err invalid_instruction_data, log too_short_for_body ∷ [])
  unfolding read_body
  cut_frame bump tail h cut = ground (
    arith,
    array_or_ok {E = ProgramError} (err invalid_instruction_data) 4 1 5 (bump ∷ tail) (omega arith)
        h,
  )

  -- Every frame is read whole, or it is refused, as shorter than its header or as shorter than the
  -- body that it announces.
  pub read_body-ReadEnds : (frame : Bytes) → ReadEnds frame
  read_body-ReadEnds [] = has_no_header (omega arith) (short_frame [] (omega arith))
  read_body-ReadEnds (bump ∷ tail) = elim (dec_le 5 (length (bump ∷ tail))) [
    | no h ↦ has_no_header (omega arith) (short_frame (bump ∷ tail) (omega arith))
    | yes header ↦ elim (dec_le (5 + frame_length (bump ∷ tail)) (length (bump ∷ tail))) [
      | yes h ↦ whole bump tail refl h (read_body_ok bump tail (frame_length (bump ∷ tail)) refl h)
      | no h ↦ is_cut header (omega arith) (cut_frame bump tail header (omega arith))
    ]
  ]
