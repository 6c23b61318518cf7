-- ===== src/Cli/SignedVaa/Total.antt =====
-- `parse_signed_vaa` on every input.
use wormhole_svm_utils.Prelude.{ℕ, zero, suc, ◌+◌, ◌-◌, ◌*◌, ◌≤◌, ◌<◌, ◌≡◌, ◌≢◌}
use wormhole_svm_utils.Prelude.{List, [], ◌∷◌, length, take, drop, get_elem?, refl, ap, ◌∙◌, arith}
use wormhole_svm_utils.Prelude.{get_elem?_of_lt, some, ok, err, panic}
use wormhole_svm_utils.Prelude.Bytes.{Bytes, from_be_bytes}
use wormhole_svm_utils.Prelude.Windows.{window, slice_ok, slice_from_ok}
use wormhole_svm_utils.Prelude.Windows.{array_or_ok, drop-drop}
use native.Mathlib.Decide.{dec_le, ℕ_discrete}
use wormhole_svm_utils.Cli.SignedVaa.{
  ParseError, empty_vaa, unsupported_version, too_short, truncated,
}
use wormhole_svm_utils.Cli.SignedVaa.{SignedVaa, read_signatures, parse_signed_vaa}

-- The first `n` pieces of 66 bytes.
unfoldable pub chunks : ℕ → Bytes → List Bytes
chunks zero xs = []
chunks (suc n) xs = take 66 xs ∷ chunks n (drop 66 xs)

read_signatures-chunks :
    (n i : ℕ) (raw : Bytes)
    → 6 + (i + n) * 66 ≤ length raw
    → read_signatures n i raw ≡ ok (chunks n (drop (6 + i * 66) raw))
unfolding read_signatures chunks window
read_signatures-chunks zero i raw h = refl
read_signatures-chunks (suc n) i raw h =
    let start : 6 + i * 66 + 66 - (6 + i * 66) ≡ 66 = omega arith in
    let next : 6 + (i + 1) * 66 ≡ 6 + i * 66 + 66 = omega arith in
    rw (
      slice_ok {E = ParseError} (6 + i * 66) (6 + i * 66 + 66) raw (omega arith) (omega arith),
      start,
      read_signatures-chunks n (i + 1) raw (omega arith),
      next,
      drop-drop (6 + i * 66) 66 raw,
    )

-- What an accepted input is read as.
abbrev pub reading : ℕ → Bytes → SignedVaa
reading n raw = record {
  guardian_set_index = from_be_bytes (window 1 4 raw);
  signatures = chunks n (drop 6 raw);
  body = drop (6 + n * 66) raw;
}

-- Version 1, a header of six bytes, and as many signatures as the sixth byte says: accepted.
pub parse_signed_vaa_ok :
    (raw : Bytes) (n : ℕ)
    → get_elem? raw 0 ≡ some 1
    → get_elem? raw 5 ≡ some n
    → 6 + n * 66 ≤ length raw
    → parse_signed_vaa raw ≡ ok (reading n raw)
unfolding parse_signed_vaa
parse_signed_vaa_ok raw n version count h = ground (
  arith,
  array_or_ok {E = ParseError} panic 4 1 5 raw (omega arith) (omega arith),
  read_signatures-chunks n 0 raw (omega arith),
  slice_from_ok {E = ParseError} (6 + n * 66) raw h,
)

-- The five ways in which a call ends.
pub data Ends (raw : Bytes) : Type 0 where
  accepts :
      (n : ℕ)
      → get_elem? raw 0 ≡ some 1
      → get_elem? raw 5 ≡ some n
      → 6 + n * 66 ≤ length raw
      → parse_signed_vaa raw ≡ ok (reading n raw)
      → Ends raw
  is_empty : length raw ≡ 0 → parse_signed_vaa raw ≡ err empty_vaa → Ends raw
  has_version :
      (v : ℕ)
      → get_elem? raw 0 ≡ some v
      → v ≢ 1
      → parse_signed_vaa raw ≡ err (unsupported_version v)
      → Ends raw
  has_no_header :
      get_elem? raw 0 ≡ some 1 → length raw < 6 → parse_signed_vaa raw ≡ err too_short → Ends raw
  is_cut :
      (n : ℕ)
      → get_elem? raw 0 ≡ some 1
      → get_elem? raw 5 ≡ some n
      → length raw < 6 + n * 66
      → parse_signed_vaa raw ≡ err (truncated (6 + n * 66) n (length raw))
      → Ends raw

truncated_lem :
    (raw : Bytes) (n : ℕ)
    → get_elem? raw 0 ≡ some 1
    → get_elem? raw 5 ≡ some n
    → 6 ≤ length raw
    → length raw < 6 + n * 66
    → parse_signed_vaa raw ≡ err (truncated (6 + n * 66) n (length raw))
unfolding parse_signed_vaa
truncated_lem raw n version count long h =
    ground (arith, array_or_ok {E = ParseError} panic 4 1 5 raw (omega arith) (omega arith))

version_lem :
    (raw : Bytes) (v : ℕ)
    → get_elem? raw 0 ≡ some v
    → 0 < length raw
    → v ≢ 1
    → parse_signed_vaa raw ≡ err (unsupported_version v)
unfolding parse_signed_vaa
version_lem raw v at h ne = ground arith

too_short_lem :
    (raw : Bytes)
    → get_elem? raw 0 ≡ some 1
    → 0 < length raw
    → length raw < 6
    → parse_signed_vaa raw ≡ err too_short
unfolding parse_signed_vaa
too_short_lem raw at h short = ground arith

empty_lem : (raw : Bytes) → length raw ≡ 0 → parse_signed_vaa raw ≡ err empty_vaa
unfolding parse_signed_vaa
empty_lem raw h = ground arith

parse_with_header : (raw : Bytes) → get_elem? raw 0 ≡ some 1 → 6 ≤ length raw → Ends raw
parse_with_header raw one long =
    let (n, count) = get_elem?_of_lt 5 raw long in
    elim (dec_le (6 + n * 66) (length raw)) [
      | yes h ↦ accepts n one count h (parse_signed_vaa_ok raw n one count h)
      | no h ↦ is_cut n one count (omega arith) (truncated_lem raw n one count long (omega arith))
    ]

-- Every call of `parse_signed_vaa` ends in one of five ways, each with what the input is like then:
-- it is empty, of another version, shorter than its header, shorter than the signatures that it
-- announces, or accepted. None of them is a panic.
pub parse_signed_vaa-Ends : (raw : Bytes) → Ends raw
parse_signed_vaa-Ends raw = elim (dec_le 1 (length raw)) [
  | no h ↦ is_empty (omega arith) (empty_lem raw (omega arith))
  | yes some_bytes ↦
      let (v, at) = get_elem?_of_lt 0 raw some_bytes in
      elim (ℕ_discrete v 1) [
        | no ne ↦ has_version v at ne (version_lem raw v at some_bytes ne)
        | yes e ↦
            let one : get_elem? raw 0 ≡ some 1 = at ∙ ap some e in
            elim (dec_le 6 (length raw)) [
              | yes long ↦ parse_with_header raw one long
              | no h ↦
                  has_no_header one (omega arith) (too_short_lem raw one some_bytes (omega arith))
            ]
      ]
]
