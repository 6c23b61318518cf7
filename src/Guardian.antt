-- ===== src/Guardian.antt =====
-- crates/wormhole-svm-test/src/guardian.rs: test guardians and the signatures that they make.
-- The crates sha3, libsecp256k1 and hex are parameters.
pub mod Generate
pub mod Signing
use wormhole_svm_utils.Prelude.{ℕ, zero, suc, ◌+◌, ◌%◌, ◌^◌, ◌==◌, nat_eq, if◌then◌else◌, Bool}
use wormhole_svm_utils.Prelude.{List, [], ◌∷◌, ◌++◌, map, length, take, drop, replicate, get_elem?}
use wormhole_svm_utils.Prelude.{Option, none, some, Result, ok, err, panic, ok_or, map_err, ◌>>=◌}
use wormhole_svm_utils.Prelude.Bytes.{Bytes, AreBytes, IsByte, to_le_bytes}
use wormhole_svm_utils.Prelude.Windows.{window, try_into}
use wormhole_svm_utils.Prelude.{◌≡◌}

-- What the source uses of sha3 (`Keccak256::digest`) and libsecp256k1.
pub record Crypto : Type 1 where
  pub SecretKey : Type 0
  pub PublicKey : Type 0
  pub Message : Type 0
  pub Signature : Type 0
  pub RecoveryId : Type 0
  pub keccak256 : Bytes → Bytes
  pub parse_secret_key : Bytes → Option SecretKey
  pub from_secret_key : SecretKey → PublicKey
  pub serialize_public_key : PublicKey → Bytes
  pub parse_message : Bytes → Message
  pub sign : Message → SecretKey → Signature × RecoveryId
  pub serialize_signature : Signature → Bytes
  pub serialize_recovery_id : RecoveryId → ℕ

-- The array types of those crates' signatures.
pub record HasArrayTypes (C : Crypto) : Type 0 where
  pub length-keccak256 : (bs : Bytes) → length (C.keccak256 bs) ≡ 32
  pub length-signature : (s : C.Signature) → length (C.serialize_signature s) ≡ 64
  pub signature-AreBytes : (s : C.Signature) → AreBytes (C.serialize_signature s)
  pub recovery_id-IsByte : (r : C.RecoveryId) → IsByte (C.serialize_recovery_id r)

-- `dst[a..a + src.len()].copy_from_slice(&src)` between arrays whose types fix that the range fits.
unfoldable pub copy_at : ℕ → Bytes → Bytes → Bytes
copy_at a src dst = take a dst ++ (src ++ drop (a + length src) dst)

pub record TestGuardian (C : Crypto) : Type 0 where
  pub secret_key : C.SecretKey
  pub public_key : C.PublicKey
  pub eth_address : Bytes
  pub index : ℕ

pub record TestGuardianSet (C : Crypto) : Type 0 where
  pub guardians : List (TestGuardian C)

-- `hex::FromHexError`; the variants of `hex::decode` itself are `decode_error`.
pub data FromHexError : Type 0 where
  decode_error : ℕ → FromHexError
  invalid_string_length : FromHexError

-- The well-known key of the test fixtures.
abbrev pub default_guardian_secret_key : Bytes
default_guardian_secret_key =
    0xcf ∷ 0xb1 ∷ 0x23 ∷ 0x03 ∷ 0xa1 ∷ 0x9c ∷ 0xde ∷ 0x58 ∷ 0x0b ∷ 0xb4 ∷ 0xdd ∷ 0x77 ∷ 0x16 ∷ 0x39
    ∷ 0xb0 ∷ 0xd2 ∷ 0x6b ∷ 0xc6 ∷ 0x83 ∷ 0x53 ∷ 0x64 ∷ 0x55 ∷ 0x71 ∷ 0xa8 ∷ 0xcf ∷ 0xf5 ∷ 0x16
    ∷ 0xab ∷ 0x2e ∷ 0xe1 ∷ 0x13 ∷ 0xa0 ∷ []

module _ (C : Crypto) where
  -- The body after a secret key that is valid.
  unfoldable pub from_secret : C.SecretKey → ℕ → TestGuardian C
  unfolding window
  from_secret secret_key index =
      let public_key = C.from_secret_key secret_key in
      let pubkey_bytes = C.serialize_public_key public_key in
      let hash = C.keccak256 (drop 1 pubkey_bytes) in
      record {
        secret_key = secret_key;
        public_key = public_key;
        eth_address = window 12 20 hash;
        index = index;
      }

  -- `TestGuardian::new`; `expect` panics on an invalid secret key.
  unfoldable pub new_guardian : {E : Type 0} → Bytes → ℕ → Result E (TestGuardian C)
  unfolding from_secret
  new_guardian secret_key index = do
    secret_key ← ok_or (C.parse_secret_key secret_key) panic
    ok (from_secret secret_key index)

  -- `TestGuardian::from_hex`, over `hex::decode`.
  unfoldable pub from_hex :
      (Bytes → Result FromHexError Bytes) → Bytes → ℕ → Result FromHexError (TestGuardian C)
  unfolding new_guardian try_into
  from_hex decode hex_key index = do
    decoded ← decode hex_key
    bytes ← ok_or (try_into 32 decoded) (err invalid_string_length)
    new_guardian bytes index

  -- `TestGuardian::sign`
  unfoldable pub sign : TestGuardian C → Bytes → Bytes
  unfolding copy_at
  sign g digest =
      let message = C.parse_message digest in
      let (signature, recovery_id) = C.sign message g.secret_key in
      let sig_bytes = copy_at 0 (C.serialize_signature signature) (replicate 65 0) in
      copy_at 64 (C.serialize_recovery_id recovery_id ∷ []) sig_bytes

  -- `TestGuardian::sign_vaa_body`
  unfoldable pub sign_body : TestGuardian C → Bytes → Bytes
  unfolding sign copy_at
  sign_body g vaa_body =
      let message_hash = C.keccak256 vaa_body in
      let digest = C.keccak256 message_hash in
      let signature = sign g digest in
      let result = copy_at 0 (g.index ∷ []) (replicate 66 0) in copy_at 1 signature result

  unfoldable pub single : TestGuardian C → TestGuardianSet C
  single guardian = record { guardians = guardian ∷ [] }

  -- The secret of guardian `i`: keccak256 of a 40-byte buffer with the seed and the index.
  unfoldable pub generated_secret : ℕ → ℕ → Bytes
  unfolding copy_at to_le_bytes
  generated_secret seed i =
      let input = copy_at 0 (to_le_bytes 8 seed) (replicate 40 0) in
      C.keccak256 (copy_at 8 (to_le_bytes 8 (i % 2 ^ 64)) input)

  -- The guardians `i`, `i + 1`, … of `TestGuardianSet::generate`, as many as the first number says.
  unfoldable pub generate_from : {E : Type 0} → ℕ → ℕ → ℕ → Result E (List (TestGuardian C))
  unfolding generated_secret new_guardian
  generate_from zero seed i = ok []
  generate_from (suc count) seed i = do
    g ← new_guardian (generated_secret seed i) (i % 256)
    gs ← generate_from count seed (i + 1)
    ok (g ∷ gs)

  -- `TestGuardianSet::generate`
  unfoldable pub generate : {E : Type 0} → ℕ → ℕ → Result E (TestGuardianSet C)
  unfolding generate_from
  generate count seed = do
    guardians ← generate_from count seed 0
    ok (record { guardians = guardians })

  -- `TestGuardianSet::sign_vaa_body`
  unfoldable pub sign_vaa_body : TestGuardianSet C → Bytes → List Bytes
  sign_vaa_body set vaa_body = map (λ g. sign_body g vaa_body) set.guardians

  -- `filter_map` of `self.guardians.get(i)`, then the signatures.
  unfoldable pub sign_each : List (TestGuardian C) → Bytes → Bytes → List Bytes
  sign_each guardians vaa_body [] = []
  sign_each guardians vaa_body (i ∷ indices) =
      let rest = sign_each guardians vaa_body indices in
      elim (get_elem? guardians i) [ none ↦ rest | some g ↦ sign_body g vaa_body ∷ rest ]

  -- `TestGuardianSet::sign_vaa_body_with`
  unfoldable pub sign_vaa_body_with : TestGuardianSet C → Bytes → Bytes → List Bytes
  sign_vaa_body_with set vaa_body indices = sign_each set.guardians vaa_body indices

  -- `TestGuardianSet::eth_addresses`
  unfoldable pub eth_addresses : TestGuardianSet C → List Bytes
  eth_addresses set = map (λ (g : TestGuardian C). g.eth_address) set.guardians

  -- `TestGuardianSet::len`
  unfoldable pub len : TestGuardianSet C → ℕ
  len set = length set.guardians

  -- `TestGuardianSet::is_empty`
  unfoldable pub is_empty : TestGuardianSet C → Bool
  unfolding nat_eq
  is_empty set = length set.guardians == 0

  -- `TestGuardianSet::get`
  unfoldable pub get : TestGuardianSet C → ℕ → Option (TestGuardian C)
  get set index = get_elem? set.guardians index
