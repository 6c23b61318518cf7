-- ===== src/Cli/SignedVaa/RoundTrip.antt =====
-- The command line's parser against the builder of vaa.rs.
use wormhole_svm_utils.Prelude.{ℕ, zero, suc, ◌+◌, ◌*◌, ◌%◌, ◌^◌, ◌≤◌, ◌<◌, ◌≡◌, refl, ap}
use wormhole_svm_utils.Prelude.{◌∙◌, arith, List, [], ◌∷◌, ◌++◌, length, take, drop, get_elem?, All}
use wormhole_svm_utils.Prelude.{
  concat, length-append, length-take, length-drop, append_assoc, some, ok,
}
use wormhole_svm_utils.Prelude.{take-append-drop, get_elem?-append}
use wormhole_svm_utils.Prelude.Bytes.{Bytes, AreBytes, to_be_bytes, from_be_bytes}
use wormhole_svm_utils.Prelude.Bytes.{length-to_be_bytes, from_be_bytes-to_be_bytes}
use wormhole_svm_utils.Prelude.Bytes.{to_be_bytes-from_be_bytes}
use wormhole_svm_utils.Prelude.Windows.{
  window, window-at, drop-past, window-head, drop-skip, drop-drop,
}
use wormhole_svm_utils.Guardian.{Crypto, HasArrayTypes, TestGuardianSet}
use wormhole_svm_utils.Guardian.Signing.{length-sign_vaa_body, sign_vaa_body-All}
use wormhole_svm_utils.Vaa.{TestVaa, body, build_signed_vaa, sign, guardian_signatures}
use wormhole_svm_utils.Cli.SignedVaa.{SignedVaa, parse_signed_vaa}
use wormhole_svm_utils.Cli.SignedVaa.Total.{chunks, reading, parse_signed_vaa_ok}
use wormhole_svm_utils.Cli.SignedVaa.Total.{accepts, is_empty, has_version, has_no_header, is_cut}
use wormhole_svm_utils.Cli.SignedVaa.Total.{parse_signed_vaa-Ends}

-- `[u8; 66]`
abbrev pub AreSignatures : List Bytes → Type 0
AreSignatures = All (λ (s : Bytes). length s ≡ 66)

chunks-concat :
    (sigs : List Bytes) (rest : Bytes)
    → AreSignatures sigs
    → chunks (length sigs) (concat sigs ++ rest) ≡ sigs
unfolding chunks window
chunks-concat [] rest h = refl
chunks-concat (s ∷ sigs) rest (hs, h) =
    let regroup : (s ++ concat sigs) ++ rest ≡ s ++ (concat sigs ++ rest) =
      append_assoc s (concat sigs) rest in
    let here : take 66 (s ++ (concat sigs ++ rest)) ≡ s =
      window-head s (concat sigs ++ rest) 66 hs in
    let past : drop 66 (s ++ (concat sigs ++ rest)) ≡ concat sigs ++ rest =
      drop-skip s (concat sigs ++ rest) 66 66 hs (omega arith) in
    rw (regroup, here, past, chunks-concat sigs rest h)

length-concat_signatures :
    (sigs : List Bytes) → AreSignatures sigs → length (concat sigs) ≡ length sigs * 66
length-concat_signatures [] h = refl
length-concat_signatures (s ∷ sigs) (hs, h) =
    omega (arith, length-append s (concat sigs), length-concat_signatures sigs h)

-- A signed VAA with at most 255 signatures is read back: its guardian set index, its signatures
-- in order, and its body.
pub parse_signed_vaa-build_signed_vaa :
    (v : TestVaa) (b : Bytes) (sigs : List Bytes)
    → v.guardian_set_index < 2 ^ 32
    → AreSignatures sigs
    → length sigs < 256
    → parse_signed_vaa (build_signed_vaa v b sigs)
      ≡ ok (record { guardian_set_index = v.guardian_set_index; signatures = sigs; body = b })
unfolding build_signed_vaa
parse_signed_vaa-build_signed_vaa v b sigs hg hs few =
    let n = length sigs in
    let small : n % 256 ≡ n = omega arith in
    let tail = (n % 256) ∷ (concat sigs ++ b) in
    let raw = 1 ∷ (to_be_bytes 4 v.guardian_set_index ++ tail) in
    let four : length (to_be_bytes 4 v.guardian_set_index) ≡ 4 =
      length-to_be_bytes 4 v.guardian_set_index in
    let count : get_elem? raw 5 ≡ some n =
      get_elem?-append (to_be_bytes 4 v.guardian_set_index) (concat sigs ++ b) (n % 256) 4 four
      ∙ ap some small in
    let at_5 : drop 5 raw ≡ tail =
      drop-past raw (to_be_bytes 4 v.guardian_set_index) tail 1 4 refl four 5 refl in
    let at_6 : drop 6 raw ≡ concat sigs ++ b =
      drop-past raw ((n % 256) ∷ []) (concat sigs ++ b) 5 1 at_5 refl 6 refl in
    let index : window 1 4 raw ≡ to_be_bytes 4 v.guardian_set_index =
      window-at raw (to_be_bytes 4 v.guardian_set_index) tail 1 4 refl four in
    let end : drop (6 + n * 66) raw ≡ b =
      drop-past raw (concat sigs) b 6 (n * 66) at_6 (length-concat_signatures sigs hs) (6 + n * 66)
        refl in
    let long : 6 + n * 66 ≤ length raw = omega (
      arith,
      length-append (to_be_bytes 4 v.guardian_set_index) tail,
      length-append (concat sigs) b,
      length-concat_signatures sigs hs,
    ) in
    parse_signed_vaa_ok raw n refl count long
    ∙ rw (
      index,
      at_6,
      end,
      chunks-concat sigs b hs,
      from_be_bytes-to_be_bytes 4 v.guardian_set_index hg,
    )

-- With a guardian set index that is a u32 and at most 255 guardians, `parse_signed_vaa` reads back
-- what `TestVaa::sign` writes: the index, the guardians' signatures in order, and the body.
pub parse_signed_vaa-sign :
    (C : Crypto) (T : HasArrayTypes C) (v : TestVaa) (guardians : TestGuardianSet C)
    → v.guardian_set_index < 2 ^ 32
    → length guardians.guardians < 256
    → parse_signed_vaa (sign C v guardians)
      ≡ ok (record {
        guardian_set_index = v.guardian_set_index;
        signatures = guardian_signatures C v guardians;
        body = body v;
      })
unfolding sign guardian_signatures
parse_signed_vaa-sign C T v guardians hg few =
    parse_signed_vaa-build_signed_vaa v (body v) _ hg (sign_vaa_body-All C T guardians (body v))
      (omega (arith, length-sign_vaa_body C guardians (body v)))

-- The bytes that a parse result stands for.
unfoldable pub encode : SignedVaa → Bytes
encode r =
    1
    ∷ (to_be_bytes 4 r.guardian_set_index
        ++ (length r.signatures ∷ (concat r.signatures ++ r.body)))

length-chunks : (n : ℕ) (xs : Bytes) → length (chunks n xs) ≡ n
unfolding chunks
length-chunks zero xs = refl
length-chunks (suc n) xs = ap suc (length-chunks n (drop 66 xs))

concat-chunks :
    (n : ℕ) (xs : Bytes) → n * 66 ≤ length xs → concat (chunks n xs) ++ drop (n * 66) xs ≡ xs
unfolding chunks
concat-chunks zero xs h = refl
concat-chunks (suc n) xs h =
    let size : suc n * 66 ≡ 66 + n * 66 = omega arith in
    let rest : concat (chunks n (drop 66 xs)) ++ drop (n * 66) (drop 66 xs) ≡ drop 66 xs =
      concat-chunks n (drop 66 xs) (omega (arith, length-drop 66 xs)) in
    rw
      (
        size,
        drop-drop 66 (n * 66) xs,
        append_assoc (take 66 xs) (concat (chunks n (drop 66 xs))) (drop (n * 66) (drop 66 xs)),
        rest,
      )
      (take-append-drop 66 xs)

chunks-AreSignatures : (n : ℕ) (xs : Bytes) → n * 66 ≤ length xs → AreSignatures (chunks n xs)
unfolding chunks
chunks-AreSignatures zero xs h = tt
chunks-AreSignatures (suc n) xs h = (
  omega (arith, length-take 66 xs),
  chunks-AreSignatures n (drop 66 xs) (omega (arith, length-drop 66 xs)),
)

-- The bytes of an accepted input, from its reading.
encode-reading :
    (n : ℕ) (raw : Bytes)
    → AreBytes raw
    → get_elem? raw 0 ≡ some 1
    → get_elem? raw 5 ≡ some n
    → 6 + n * 66 ≤ length raw
    → encode (reading n raw) ≡ raw
unfolding encode window
encode-reading n (a ∷ b ∷ c ∷ d ∷ e ∷ f ∷ rest) (ha, (hb, (hc, (hd, (he, (hf, hr)))))) one count
      long =
    let index : Bytes = b ∷ c ∷ d ∷ e ∷ [] in
    let same_a : a ≡ 1 = cc in
    let same_n : f ≡ n = cc in
    let word : to_be_bytes 4 (from_be_bytes index) ≡ index =
      to_be_bytes-from_be_bytes index (omega arith) in
    let tail : concat (chunks n rest) ++ drop (n * 66) rest ≡ rest =
      concat-chunks n rest (omega arith) in
    let split : drop (6 + n * 66) (a ∷ b ∷ c ∷ d ∷ e ∷ f ∷ rest) ≡ drop (n * 66) rest =
      drop-drop 6 (n * 66) (a ∷ b ∷ c ∷ d ∷ e ∷ f ∷ rest) in
    rw (split, word, length-chunks n rest, tail, same_a, same_n)
encode-reading n _ bytes one count long = absurd (omega arith)

-- If `parse_signed_vaa` accepts an input of bytes, then the input is, in this order, the version 1,
-- the index, the number of signatures, the signatures and the body that were read from it, and each
-- of the signatures has 66 bytes.
pub encode-parse_signed_vaa :
    (raw : Bytes) (r : SignedVaa)
    → AreBytes raw
    → parse_signed_vaa raw ≡ ok r
    → (encode r ≡ raw) × AreSignatures r.signatures
encode-parse_signed_vaa raw r bytes h = elim (parse_signed_vaa-Ends raw) [
  | accepts n one count long e ↦
      let same : reading n raw ≡ r = cc in
      rw (← same) (
        encode-reading n raw bytes one count long,
        chunks-AreSignatures n (drop 6 raw) (omega (arith, length-drop 6 raw)),
      )
  | is_empty _ e ↦ cc
  | has_version _ _ _ e ↦ cc
  | has_no_header _ _ e ↦ cc
  | is_cut _ _ _ _ e ↦ cc
]
