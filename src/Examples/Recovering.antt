-- ===== src/Examples/Recovering.antt =====
-- Signatures that are checked by the key that they give back, over a toy cryptography of two keys.
use wormhole_svm_utils.Prelude.{
  ℕ, ◌<◌, ◌≡◌, refl, arith, Bool, true, false, [], ◌∷◌, replicate, Option, some, none, ok, length,
  get_elem?,
}
use wormhole_svm_utils.Prelude.Bytes.{Bytes, AreBytes}
use wormhole_svm_utils.Guardian.{
  Crypto, HasArrayTypes, TestGuardianSet, generate, generate_from, new_guardian, from_secret,
  generated_secret,
}
use wormhole_svm_utils.Vaa.{body, digest, guardian_signatures, sign_with}
use wormhole_svm_utils.Cli.SignedVaa.{SignedVaa, parse_signed_vaa}
use wormhole_svm_utils.LiteSvm.{build_guardian_set_data}
use wormhole_svm_utils.LiteSvm.GuardianSet.Verifies.{
  Recovery, Verifies, guardian_signatures-Verifies,
}
use wormhole_svm_utils.LiteSvm.GuardianSet.Chosen.{Each, kept, sign_with-Verifies}
use wormhole_svm_utils.Examples.Signing.{vaa, ones}

abbrev number_of : Bool → ℕ
number_of true = 1
number_of false = 2

-- Two keys; a signature is the number of its key.
abbrev two_keys : Crypto
two_keys = record {
  SecretKey = Bool;
  PublicKey = Bool;
  Message = Bytes;
  Signature = Bool;
  RecoveryId = Unit {0};
  keccak256 = λ bs. replicate 32 1;
  parse_secret_key = λ bs. some true;
  from_secret_key = λ sk. sk;
  serialize_public_key = λ pk. 4 ∷ number_of pk ∷ [];
  parse_message = λ bs. bs;
  sign = λ m sk. (sk, tt);
  serialize_signature = λ s. number_of s ∷ replicate 63 1;
  serialize_recovery_id = λ _. 1;
}

number_of-length : (s : Bool) → length (number_of s ∷ replicate 63 1) ≡ 64
number_of-length s = refl

number_of-AreBytes : (s : Bool) → AreBytes (number_of s ∷ replicate 63 1)
number_of-AreBytes true = (omega arith, ones 63)
number_of-AreBytes false = (omega arith, ones 63)

two_keys-HasArrayTypes : HasArrayTypes two_keys
two_keys-HasArrayTypes = record {
  length-keccak256 = λ bs. refl;
  length-signature = number_of-length;
  signature-AreBytes = number_of-AreBytes;
  recovery_id-IsByte = λ r. omega arith;
}

-- The key whose number the signature is.
abbrev key_by : Bytes → Option Bytes
key_by [] = none
key_by (s ∷ rest) = some (4 ∷ s ∷ [])

two_keys-Recovery : Recovery two_keys
two_keys-Recovery = record { recover = λ d s. key_by s; recovers = λ d sk h. refl }

abbrev three : TestGuardianSet two_keys
three = record {
  guardians =
      from_secret two_keys true 0 ∷ from_secret two_keys true 1 ∷ from_secret two_keys true 2 ∷ [];
}

three_made : generate two_keys {E = ℕ} 3 99 ≡ ok three
unfolding generate generate_from new_guardian from_secret generated_secret
three_made = refl

guardian_signatures-Verifies_example :
    (signature : Bytes) × (get_elem? (guardian_signatures two_keys vaa three) 2 ≡ some signature)
    × Verifies two_keys two_keys-Recovery
        (build_guardian_set_data two_keys three 7)
        (digest two_keys vaa)
        2
        signature
guardian_signatures-Verifies_example =
    guardian_signatures-Verifies two_keys two_keys-HasArrayTypes two_keys-Recovery 3 99 7 2 three
      vaa (omega arith) three_made (omega arith)

two_kept : length (kept 3 (2 ∷ 5 ∷ 0 ∷ [])) < 256
unfolding kept
two_kept = omega arith

sign_with-Verifies_example :
    (r : SignedVaa) × (parse_signed_vaa (sign_with two_keys vaa three (2 ∷ 5 ∷ 0 ∷ [])) ≡ ok r)
    × (r.body ≡ body vaa)
    × Each
        (Verifies two_keys two_keys-Recovery
          (build_guardian_set_data two_keys three 7)
          (digest two_keys vaa))
        (kept 3 (2 ∷ 5 ∷ 0 ∷ []))
        r.signatures
sign_with-Verifies_example =
    sign_with-Verifies two_keys two_keys-HasArrayTypes two_keys-Recovery 3 99 7 three vaa
      (2 ∷ 5 ∷ 0 ∷ []) (omega arith) three_made (omega arith) two_kept
