-- ===== src/LiteSvm/GuardianSet/Verifies.antt =====
-- The signatures that a generated guardian set makes of a VAA, checked against the data of the set's
-- account: guardian.rs, vaa.rs and `build_guardian_set_data` of litesvm.rs together.
use wormhole_svm_utils.Prelude.{
  ℕ, zero, suc, ◌+◌, ◌*◌, ◌%◌, ◌<◌, ◌≤◌, ◌≡◌, refl, arith, List, [], ◌∷◌, ◌++◌, map, length, drop,
  get_elem?, All, Option, some, ok, >>=-eq-ok, ap, sym, ◌∙◌,
}
use wormhole_svm_utils.Prelude.Bytes.{Bytes}
use wormhole_svm_utils.Prelude.Windows.{window, length-window}
use wormhole_svm_utils.Guardian.{
  Crypto, HasArrayTypes, TestGuardian, TestGuardianSet, from_secret, new_guardian, generated_secret,
  generate_from, generate, sign_body, sign_vaa_body,
}
use wormhole_svm_utils.Guardian.Signing.{sign_body_lem, signature_bytes}
use wormhole_svm_utils.Vaa.{TestVaa, body, digest, guardian_signatures}
use wormhole_svm_utils.LiteSvm.{build_guardian_set_data}
use wormhole_svm_utils.LiteSvm.GuardianSet.{window-build_guardian_set_data}

-- Recovering the serialized public key from a digest and the 65 bytes of a signature, as secp256k1
-- documents it: the key that signed the digest is recovered.
pub record Recovery (C : Crypto) : Type 0 where
  pub recover : Bytes → Bytes → Option Bytes
  pub recovers :
      (d : Bytes) (sk : C.SecretKey)
      → length d ≡ 32
      → (let (signature, recovery_id) = C.sign (C.parse_message d) sk in
          recover d (C.serialize_signature signature ++ (C.serialize_recovery_id recovery_id ∷ [])))
        ≡ some (C.serialize_public_key (C.from_secret_key sk))

-- The Ethereum address of a serialized public key.
abbrev pub address_of : Crypto → Bytes → Bytes
address_of C key = window 12 20 (C.keccak256 (drop 1 key))

-- Signature number `k` is checked as Wormhole checks it: it starts with `k`, and the key that is
-- recovered from the rest has the address of guardian `k` in the set's data.
abbrev pub Verifies : (C : Crypto) → Recovery C → Bytes → Bytes → ℕ → Bytes → Type 0
Verifies C R set_data d k signature =
    (key : Bytes) × (signature ≡ k ∷ drop 1 signature)
    × (R.recover d (drop 1 signature) ≡ some key)
    × (address_of C key ≡ window (8 + 20 * k) 20 set_data)

-- Guardian `n` has the number and the address of its secret key.
abbrev pub IsMade : (C : Crypto) → ℕ → TestGuardian C → Type 0
IsMade C n g =
    (g.index ≡ n % 256)
    × (g.eth_address ≡ address_of C (C.serialize_public_key (C.from_secret_key g.secret_key)))

length-address_of :
    (C : Crypto) (T : HasArrayTypes C) (key : Bytes) → length (address_of C key) ≡ 20
length-address_of C T key =
    length-window 12 20 (C.keccak256 (drop 1 key)) (omega (arith, T.length-keccak256 (drop 1 key)))

module _ (C : Crypto) {F : Type 0} where
  new_guardian-IsMade :
      (secret : Bytes) (n : ℕ) (g : TestGuardian C)
      → new_guardian C {E = F} secret (n % 256) ≡ ok g
      → IsMade C n g
  unfolding new_guardian from_secret window
  new_guardian-IsMade secret n g h = ground arith

  pub generate_from-IsMade :
      (count seed i k : ℕ) (gs : List (TestGuardian C))
      → generate_from C {E = F} count seed i ≡ ok gs
      → k < count
      → (g : TestGuardian C) × (get_elem? gs k ≡ some g) × IsMade C (i + k) g
  unfolding generate_from
  generate_from-IsMade zero seed i k gs h below = absurd (omega arith)
  generate_from-IsMade (suc count) seed i zero gs h below =
      let (g0, made, rest) =
        >>=-eq-ok (new_guardian C {E = F} (generated_secret C seed i) (i % 256)) _ h in
      let (gs0, more, whole) = >>=-eq-ok (generate_from C {E = F} count seed (i + 1)) _ rest in
      let here : i + 0 ≡ i = omega arith in
      let first : get_elem? gs zero ≡ some g0 = ground arith in
      (g0, first, rw here (new_guardian-IsMade (generated_secret C seed i) i g0 made))
  generate_from-IsMade (suc count) seed i (suc k) gs h below =
      let (g0, made, rest) =
        >>=-eq-ok (new_guardian C {E = F} (generated_secret C seed i) (i % 256)) _ h in
      let (gs0, more, whole) = >>=-eq-ok (generate_from C {E = F} count seed (i + 1)) _ rest in
      let (g, at, known) = generate_from-IsMade count seed (i + 1) k gs0 more (omega arith) in
      let here : i + 1 + k ≡ i + suc k = omega arith in
      let next : get_elem? gs (suc k) ≡ some g = ground arith in (g, next, rw here at known)

  module _ (T : HasArrayTypes C) where
    pub generate_from-All :
        (count seed i : ℕ) (gs : List (TestGuardian C))
        → generate_from C {E = F} count seed i ≡ ok gs
        → All (λ (g : TestGuardian C). length g.eth_address ≡ 20) gs
    unfolding generate_from
    generate_from-All zero seed i gs h = let none_made : [] ≡ gs = cc in rw (← none_made) tt
    generate_from-All (suc count) seed i gs h =
        let (g0, made, rest) =
          >>=-eq-ok (new_guardian C {E = F} (generated_secret C seed i) (i % 256)) _ h in
        let (gs0, more, whole) = >>=-eq-ok (generate_from C {E = F} count seed (i + 1)) _ rest in
        let all_made : g0 ∷ gs0 ≡ gs = cc in
        let (_, address) = new_guardian-IsMade (generated_secret C seed i) i g0 made in
        rw (← all_made) (
          rw address
              (length-address_of C T (C.serialize_public_key (C.from_secret_key g0.secret_key))),
          generate_from-All count seed (i + 1) gs0 more,
        )

-- Signature `k` is the one of guardian `k`.
get_elem?-sign_vaa_body :
    (C : Crypto) (gs : List (TestGuardian C)) (b : Bytes) (k : ℕ) (g : TestGuardian C)
    → get_elem? gs k ≡ some g
    → get_elem? (map (λ (g : TestGuardian C). sign_body C g b) gs) k ≡ some (sign_body C g b)
get_elem?-sign_vaa_body C [] b k g at = cc
get_elem?-sign_vaa_body C (x ∷ gs) b zero g at = let same : x ≡ g = cc in rw same refl
get_elem?-sign_vaa_body C (x ∷ gs) b (suc k) g at = get_elem?-sign_vaa_body C gs b k g at

module _ (C : Crypto) (T : HasArrayTypes C) (R : Recovery C) where
  pub sign_body-Verifies :
      (g : TestGuardian C) (k : ℕ) (b set_data : Bytes)
      → k < 256
      → IsMade C k g
      → window (8 + 20 * k) 20 set_data ≡ g.eth_address
      → Verifies C R set_data (C.keccak256 (C.keccak256 b)) k (sign_body C g b)
  sign_body-Verifies g k b set_data below (number, address) placed =
      let d = C.keccak256 (C.keccak256 b) in
      let index : g.index ≡ k = omega arith in
      rw (sign_body_lem C T g b) (
        C.serialize_public_key (C.from_secret_key g.secret_key),
        ap (λ (i : ℕ). i ∷ signature_bytes C T g d) index,
        R.recovers d g.secret_key (T.length-keccak256 (C.keccak256 b)),
        sym address ∙ sym placed,
      )

  -- If at most 256 guardians are generated, the crates' arrays have their lengths and a signature
  -- gives back the key that made it, then a VAA signed by the set has a signature of each of them,
  -- in order: signature `k` starts with `k`, and the key that is recovered from the rest and the
  -- VAA's digest has the address that the data of the set's account holds for guardian `k`.
  pub guardian_signatures-Verifies :
      {F : Type 0} (count seed index k : ℕ) (set : TestGuardianSet C) (v : TestVaa)
      → count ≤ 256
      → generate C {E = F} count seed ≡ ok set
      → k < count
      → (signature : Bytes) × (get_elem? (guardian_signatures C v set) k ≡ some signature)
        × Verifies C R (build_guardian_set_data C set index) (digest C v) k signature
  unfolding generate guardian_signatures sign_vaa_body digest
  guardian_signatures-Verifies {F} count seed index k set v small h below =
      let (gs, made, whole) = >>=-eq-ok (generate_from C {E = F} count seed 0) _ h in
      let same : record { guardians = gs } ≡ set = cc in
      let (g, at, known) = generate_from-IsMade C count seed 0 k gs made below in
      let shift : 0 + k ≡ k = omega arith in
      let placed =
        window-build_guardian_set_data C (record { guardians = gs }) index k g
          (generate_from-All C T count seed 0 gs made) at in
      rw (← same) (
        sign_body C g (body v),
        get_elem?-sign_vaa_body C gs (body v) k g at,
        sign_body-Verifies g k (body v)
            (build_guardian_set_data C (record { guardians = gs }) index) (omega arith)
            (rw shift at known) placed,
      )
