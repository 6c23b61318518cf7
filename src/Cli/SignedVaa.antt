-- ===== src/Cli/SignedVaa.antt =====
-- `parse_signed_vaa` of crates/wormhole-svm-cli/src/main.rs.
pub mod Total
pub mod RoundTrip
use wormhole_svm_utils.Prelude.{ℕ, zero, suc, ◌+◌, ◌*◌, ltb, ◌==◌, nat_eq, not, List, [], ◌∷◌}
use wormhole_svm_utils.Prelude.{length, Result, ok, err, panic, ◌>>=◌, ◌>>◌, fail_if}
use wormhole_svm_utils.Prelude.Bytes.{Bytes, from_be_bytes}
use wormhole_svm_utils.Prelude.Windows.{index, array_or, slice, slice_from}

-- The messages of `bail!`, with what they print.
pub data ParseError : Type 0 where
  empty_vaa : ParseError
  unsupported_version : ℕ → ParseError
  too_short : ParseError
  truncated : ℕ → ℕ → ℕ → ParseError

-- `(guardian_set_index, signatures, body)`
pub record SignedVaa : Type 0 where
  pub guardian_set_index : ℕ
  pub signatures : List Bytes
  pub body : Bytes

-- The loop over the signatures `i`, `i + 1`, …, as many as the first number says.
unfoldable pub read_signatures : ℕ → ℕ → Bytes → Result ParseError (List Bytes)
read_signatures zero i raw = ok []
read_signatures (suc n) i raw = do
  let start = 6 + i * 66
  sig ← slice start (start + 66) raw
  signatures ← read_signatures n (i + 1) raw
  ok (sig ∷ signatures)

unfoldable pub parse_signed_vaa : Bytes → Result ParseError SignedVaa
unfolding index nat_eq
parse_signed_vaa raw = do
  fail_if (length raw == 0) empty_vaa
  version ← index 0 raw
  fail_if (not (version == 1)) (unsupported_version version)
  fail_if (ltb (length raw) 6) too_short
  guardian_set_index ← array_or panic 4 1 5 raw
  sig_count ← index 5 raw
  let body_offset = 6 + sig_count * 66
  fail_if (ltb (length raw) body_offset) (truncated body_offset sig_count (length raw))
  signatures ← read_signatures sig_count 0 raw
  body ← slice_from body_offset raw
  ok (record {
    guardian_set_index = from_be_bytes guardian_set_index;
    signatures = signatures;
    body = body;
  })
