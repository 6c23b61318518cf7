-- ===== src/Verifier/Steps.antt =====
-- The parts of the two handlers, each by what it returns and logs.
use wormhole_svm_utils.Prelude.{ℕ, suc, ◌+◌, ◌-◌, ◌%◌, ◌^◌, ◌≤◌, ◌<◌, ltb, leb, ◌≡◌, refl, ap}
use wormhole_svm_utils.Prelude.{◌∙◌, arith, List, [], ◌∷◌, ◌++◌, length, drop, ok, err, panic}
use wormhole_svm_utils.Prelude.{length-append, if◌then◌else◌, leb_of_le, ltb_of_lt, ltb_of_le}
use wormhole_svm_utils.Prelude.Bytes.{Bytes, to_le_bytes, from_le_bytes, from_be_bytes}
use wormhole_svm_utils.Prelude.Bytes.{length-to_le_bytes, from_le_bytes-to_le_bytes}
use wormhole_svm_utils.Prelude.Windows.{
  window, window-at, window-all, drop-past, slice_ok, slice_from_ok,
}
use wormhole_svm_utils.Prelude.Windows.{array_or_ok}
use native.Mathlib.Decide.{dec_le}
use wormhole_svm_utils.Solana.{ProgramError, invalid_instruction_data, Event, log, when}
use wormhole_svm_utils.Verifier.{Log, payload_length}
use wormhole_svm_utils.Verifier.{payload_prefix, read_body, log_body_info, log_payload, log_prefix}

module _ {I : Type 0} where
  -- A whole frame is read: the bump, and the bytes that the length counts.
  pub read_body_ok :
      (bump : ℕ) (tail : Bytes) (n : ℕ)
      → from_le_bytes (window 1 4 (bump ∷ tail)) ≡ n
      → 5 + n ≤ length (bump ∷ tail)
      → read_body {I = I} (bump ∷ tail) ≡ (ok (bump, window 5 n (bump ∷ tail)), [])
  unfolding read_body
  read_body_ok bump tail n e h =
      let size : 5 + n - 5 ≡ n = omega arith in
      ground (
        arith,
        array_or_ok {E = ProgramError} (err invalid_instruction_data) 4 1 5 (bump ∷ tail)
            (omega arith) (omega arith),
        slice_ok {E = ProgramError} 5 (5 + n) (bump ∷ tail) (omega arith) h,
      )

  -- The frame that the two builders write is read back.
  pub read_body-frame :
      (bump : ℕ) (b : Bytes)
      → length b < 2 ^ 32
      → read_body {I = I} (bump ∷ (to_le_bytes 4 (length b % 2 ^ 32) ++ b)) ≡ (ok (bump, b), [])
  read_body-frame bump b h =
      let n = length b in
      let word = to_le_bytes 4 (n % 2 ^ 32) in
      let raw = bump ∷ (word ++ b) in
      let four : length word ≡ 4 = length-to_le_bytes 4 (n % 2 ^ 32) in
      let at : window 1 4 raw ≡ word = window-at raw word b 1 4 refl four in
      let tail : drop 5 raw ≡ b = drop-past raw word b 1 4 refl four 5 refl in
      let whole : window 5 n raw ≡ b =
        unfold window in rw tail (unfold window in window-all b n refl) in
      let value : from_le_bytes (window 1 4 raw) ≡ n =
        ap from_le_bytes at
        ∙ from_le_bytes-to_le_bytes 4 (n % 2 ^ 32) (omega arith)
        ∙ omega arith in
      rw (read_body_ok bump (word ++ b) n value (omega (arith, length-append word b)), whole)

  -- The line on the emitter chain and the sequence, if the body has a whole header.
  abbrev pub body_info : (ℕ → ℕ → Log) → Bytes → List (Event Log I)
  body_info line b =
      if leb 51 (length b)
      then log (line (from_be_bytes (window 8 2 b)) (from_be_bytes (window 42 8 b))) ∷ []
      else []

  pub log_body_info_lem :
      (line : ℕ → ℕ → Log) (b : Bytes) → log_body_info line b ≡ (ok tt, body_info line b)
  unfolding log_body_info
  log_body_info_lem line b = elim (dec_le 51 (length b)) [
    | yes h ↦ ground (
      arith,
      array_or_ok {E = ProgramError} panic 2 8 10 b (omega arith) (omega arith),
      array_or_ok {E = ProgramError} panic 8 42 50 b (omega arith) (omega arith),
    )
    | no h ↦ ground arith
  ]

  -- The line on the first four bytes of a payload.
  abbrev pub prefix_info : Bytes → List (Event Log I)
  prefix_info (a ∷ b ∷ c ∷ d ∷ _) = log (payload_prefix a b c d) ∷ []
  prefix_info _ = []

  abbrev pub payload_info : Bytes → List (Event Log I)
  payload_info b =
      if ltb 51 (length b)
      then log (payload_length (length (drop 51 b))) ∷ prefix_info (drop 51 b)
      else []

  log_prefix_lem : (p : Bytes) → when (leb 4 (length p)) (log_prefix p) ≡ (ok tt, prefix_info p)
  unfolding log_prefix
  log_prefix_lem [] = refl
  log_prefix_lem (a ∷ []) = refl
  log_prefix_lem (a ∷ b ∷ []) = refl
  log_prefix_lem (a ∷ b ∷ c ∷ []) = refl
  log_prefix_lem (a ∷ b ∷ c ∷ d ∷ p) =
      rw (leb_of_le 4 (suc (suc (suc (suc (length p))))) (omega arith))

  pub log_payload_lem : (b : Bytes) → log_payload b ≡ (ok tt, payload_info b)
  unfolding log_payload
  log_payload_lem b = elim (dec_le 52 (length b)) [
    | yes h ↦ rw (
      ltb_of_lt 51 (length b) h,
      slice_from_ok {E = ProgramError} 51 b (omega arith),
      log_prefix_lem (drop 51 b),
    )
    | no h ↦ rw (ltb_of_le 51 (length b) (omega arith))
  ]
