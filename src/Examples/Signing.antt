-- ===== src/Examples/Signing.antt =====
-- VAAs signed with a toy cryptography, and read back.
use wormhole_svm_utils.Prelude.{
  ℕ, ◌+◌, ◌%◌, ◌^◌, ◌<◌, ◌≡◌, refl, arith, List, [], ◌∷◌, ◌++◌, map, length, take, replicate, All,
  All-append, zero, suc,
}
use wormhole_svm_utils.Prelude.{some, ok, get_elem?}
use wormhole_svm_utils.Prelude.Bytes.{Bytes, AreBytes}
use wormhole_svm_utils.Guardian.{Crypto, HasArrayTypes, TestGuardian, TestGuardianSet}
use wormhole_svm_utils.Vaa
use wormhole_svm_utils.Vaa.{TestVaa, new_vaa, body, build_signed_vaa}
use wormhole_svm_utils.Vaa.Layout.{IsTyped}
use wormhole_svm_utils.Vaa.Injective.{SameMessage, body-injective}
use wormhole_svm_utils.Cli.SignedVaa.{SignedVaa, parse_signed_vaa, read_signatures}
use wormhole_svm_utils.Cli.SignedVaa.Total.{Ends, parse_signed_vaa-Ends}
use wormhole_svm_utils.Cli.SignedVaa.RoundTrip.{
  AreSignatures, encode, parse_signed_vaa-sign, encode-parse_signed_vaa,
}

abbrev pub toy_crypto : Crypto
toy_crypto = record {
  SecretKey = Bytes;
  PublicKey = Bytes;
  Message = Bytes;
  Signature = ℕ;
  RecoveryId = Unit {0};
  keccak256 = λ bs. (length bs % 256) ∷ replicate 31 7;
  parse_secret_key = λ bs. some bs;
  from_secret_key = λ sk. sk;
  serialize_public_key = λ pk. 4 ∷ (pk ++ pk);
  parse_message = λ bs. bs;
  sign = λ m sk. (length m + length sk, tt);
  serialize_signature = λ s. (s % 256) ∷ replicate 63 1;
  serialize_recovery_id = λ _. 1;
}

pub ones : (n : ℕ) → AreBytes (replicate n 1)
ones zero = tt
ones (suc n) = (omega arith, ones n)

pub toy_crypto-HasArrayTypes : HasArrayTypes toy_crypto
toy_crypto-HasArrayTypes = record {
  length-keccak256 = λ bs. refl;
  length-signature = λ s. refl;
  signature-AreBytes = λ s. (omega arith, ones 63);
  recovery_id-IsByte = λ r. omega arith;
}

fives : (n : ℕ) → AreBytes (replicate n 5)
fives zero = tt
fives (suc n) = (omega arith, fives n)

abbrev pub guardian : ℕ → TestGuardian toy_crypto
guardian i = record {
  secret_key = i ∷ [];
  public_key = i ∷ [];
  eth_address = replicate 20 i;
  index = i;
}

abbrev pub guardians : TestGuardianSet toy_crypto
guardians = record { guardians = guardian 0 ∷ guardian 1 ∷ [] }

abbrev pub vaa : TestVaa
vaa = record {
  emitter_chain = 2;
  emitter_address = replicate 32 5;
  sequence = 42;
  payload = 9 ∷ 8 ∷ [];
  timestamp = 1234567890;
  nonce = 0;
  consistency_level = 1;
  guardian_set_index = 0;
  checks = Vaa.default_checks;
}

pub vaa-IsTyped : IsTyped vaa
vaa-IsTyped = record {
  timestamp_u32 = omega arith;
  nonce_u32 = omega arith;
  emitter_chain_u16 = omega arith;
  length_emitter_address = refl;
  emitter_address_bytes = fives 32;
  sequence_u64 = omega arith;
  consistency_level_u8 = omega arith;
  guardian_set_index_u32 = omega arith;
  payload_bytes = (omega arith, (omega arith, tt));
}

body-injective_example : SameMessage vaa vaa
body-injective_example = body-injective vaa vaa vaa-IsTyped vaa-IsTyped refl

parse_signed_vaa-sign_example :
    parse_signed_vaa (Vaa.sign toy_crypto vaa guardians)
    ≡ ok (record {
      guardian_set_index = 0;
      signatures = Vaa.guardian_signatures toy_crypto vaa guardians;
      body = body vaa;
    })
parse_signed_vaa-sign_example =
    parse_signed_vaa-sign toy_crypto toy_crypto-HasArrayTypes vaa guardians (omega arith)
      (omega arith)

ones_and_body : AreBytes (replicate 66 1 ++ (3 ∷ 2 ∷ []))
ones_and_body =
    All-append (λ (b : ℕ). b < 256) (replicate 66 1) (3 ∷ 2 ∷ []) (ones 66)
      (omega arith, (omega arith, tt))

abbrev signed : Bytes
signed = 1 ∷ 0 ∷ 0 ∷ 0 ∷ 4 ∷ 1 ∷ (replicate 66 1 ++ (3 ∷ 2 ∷ []))

abbrev read_back : SignedVaa
read_back = record { guardian_set_index = 4; signatures = replicate 66 1 ∷ []; body = 3 ∷ 2 ∷ [] }

signed-parse : parse_signed_vaa signed ≡ ok read_back
unfolding parse_signed_vaa read_signatures wormhole_svm_utils.Prelude.Windows.array_or
    wormhole_svm_utils.Prelude.Windows.slice_from wormhole_svm_utils.Prelude.Bytes.from_be_bytes
signed-parse = refl

encode-parse_signed_vaa_example : (encode read_back ≡ signed) × AreSignatures (replicate 66 1 ∷ [])
encode-parse_signed_vaa_example =
    encode-parse_signed_vaa signed read_back
      (
        omega arith,
        (omega arith, (omega arith, (omega arith, (omega arith, (omega arith, ones_and_body))))),
      )
      signed-parse

parse_signed_vaa-Ends_example : Ends (1 ∷ 0 ∷ 0 ∷ 0 ∷ 4 ∷ 1 ∷ 7 ∷ [])
parse_signed_vaa-Ends_example = parse_signed_vaa-Ends (1 ∷ 0 ∷ 0 ∷ 0 ∷ 4 ∷ 1 ∷ 7 ∷ [])
