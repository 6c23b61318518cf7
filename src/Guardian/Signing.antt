-- ===== src/Guardian/Signing.antt =====
-- What the signing functions of guardian.rs return, given the array types of the crates.
use wormhole_svm_utils.Prelude.{ℕ, suc, ◌+◌, ◌-◌, ◌≡◌, refl, ap, ◌∙◌, arith}
use wormhole_svm_utils.Prelude.{List, [], ◌∷◌, ◌++◌, map, length, take, drop, replicate}
use wormhole_svm_utils.Prelude.{All, length-append, append-nil}
use wormhole_svm_utils.Prelude.Bytes.{Bytes}
use wormhole_svm_utils.Prelude.Windows.{window, window-head, drop-skip}
use wormhole_svm_utils.Guardian.{Crypto, HasArrayTypes, TestGuardian, TestGuardianSet, copy_at}
use wormhole_svm_utils.Guardian.{sign, sign_body, sign_vaa_body}

-- A copy replaces the segment of its own length that starts at `a`.
pub copy_at-append :
    (a : ℕ) (src p m r : Bytes)
    → length p ≡ a
    → length m ≡ length src
    → copy_at a src (p ++ (m ++ r)) ≡ p ++ (src ++ r)
unfolding copy_at window
copy_at-append a src p m r e f =
    let front : take a (p ++ (m ++ r)) ≡ p = window-head p (m ++ r) a e in
    let past : drop (a + length src) (p ++ (m ++ r)) ≡ drop (a + length src - a) (m ++ r) =
      drop-skip p (m ++ r) a (a + length src) e (omega arith) in
    let tail : drop (a + length src - a) (m ++ r) ≡ drop (a + length src - a - length src) r =
      drop-skip m r (length src) (a + length src - a) f (omega arith) in
    let zeros : a + length src - a - length src ≡ 0 = omega arith in rw (front, past, tail, zeros)

-- Neither the order nor the number of signatures depends on what is signed.
pub length-sign_vaa_body :
    (C : Crypto) (set : TestGuardianSet C) (b : Bytes)
    → length (sign_vaa_body C set b) ≡ length set.guardians
unfolding sign_vaa_body
length-sign_vaa_body C set b = count set.guardians
  where
    count : (gs : List (TestGuardian C)) → length (map (λ g. sign_body C g b) gs) ≡ length gs
    count [] = refl
    count (g ∷ gs) = ap suc (count gs)

module _ (C : Crypto) (T : HasArrayTypes C) where
  -- r and s, then the recovery id.
  abbrev pub signature_bytes : TestGuardian C → Bytes → Bytes
  signature_bytes g digest =
      let (signature, recovery_id) = C.sign (C.parse_message digest) g.secret_key in
      C.serialize_signature signature ++ (C.serialize_recovery_id recovery_id ∷ [])

  sign_lem : (g : TestGuardian C) (digest : Bytes) → sign C g digest ≡ signature_bytes g digest
  unfolding sign
  sign_lem g digest =
      let (signature, recovery_id) = C.sign (C.parse_message digest) g.secret_key in
      let s = C.serialize_signature signature in
      let first : copy_at 0 s (replicate 65 0) ≡ s ++ (0 ∷ []) =
        copy_at-append 0 s [] (replicate 64 0) (0 ∷ []) refl
          (omega (arith, T.length-signature signature)) in
      let second : copy_at 64 (C.serialize_recovery_id recovery_id ∷ []) (s ++ (0 ∷ []))
          ≡ s ++ (C.serialize_recovery_id recovery_id ∷ []) =
        copy_at-append 64 (C.serialize_recovery_id recovery_id ∷ []) s (0 ∷ []) []
          (T.length-signature signature) refl in
      ap (copy_at 64 (C.serialize_recovery_id recovery_id ∷ [])) first ∙ second

  length-signature_bytes : (g : TestGuardian C) (d : Bytes) → length (signature_bytes g d) ≡ 65
  length-signature_bytes g d =
      let (signature, recovery_id) = C.sign (C.parse_message d) g.secret_key in
      omega (
        arith,
        length-append (C.serialize_signature signature) (C.serialize_recovery_id recovery_id ∷ []),
        T.length-signature signature,
      )

  -- If the crates' arrays have their lengths: a guardian signature is the guardian's index, then
  -- the signature and the recovery id over the double hash of the body.
  pub sign_body_lem :
      (g : TestGuardian C) (b : Bytes)
      → sign_body C g b ≡ g.index ∷ signature_bytes g (C.keccak256 (C.keccak256 b))
  unfolding sign_body
  sign_body_lem g b =
      let d = C.keccak256 (C.keccak256 b) in
      let s = signature_bytes g d in
      let e : copy_at 1 s (g.index ∷ replicate 65 0) ≡ (g.index ∷ []) ++ (s ++ []) =
        copy_at-append 1 s (g.index ∷ []) (replicate 65 0) [] refl
          (omega (arith, length-signature_bytes g d)) in
      ap (λ (t : Bytes). copy_at 1 t (g.index ∷ replicate 65 0)) (sign_lem g d)
      ∙ e
      ∙ ap (λ (t : Bytes). g.index ∷ t) (append-nil s)

  pub length-sign_body : (g : TestGuardian C) (b : Bytes) → length (sign_body C g b) ≡ 66
  length-sign_body g b =
      rw (sign_body_lem g b) (omega (arith, length-signature_bytes g (C.keccak256 (C.keccak256 b))))

  pub sign_vaa_body-All :
      (set : TestGuardianSet C) (b : Bytes)
      → All (λ (s : Bytes). length s ≡ 66) (sign_vaa_body C set b)
  unfolding sign_vaa_body
  sign_vaa_body-All set b = every set.guardians
    where
      every :
          (gs : List (TestGuardian C))
          → All (λ (s : Bytes). length s ≡ 66) (map (λ g. sign_body C g b) gs)
      every [] = tt
      every (g ∷ gs) = (length-sign_body g b, every gs)
