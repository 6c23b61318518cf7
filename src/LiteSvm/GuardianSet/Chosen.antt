-- ===== src/LiteSvm/GuardianSet/Chosen.antt =====
-- VAAs that some of a generated set's guardians sign: `TestVaa::sign_with`, read back by the command
-- line and checked against the data of the set's account.
use wormhole_svm_utils.Prelude.{
  ℕ, zero, suc, ◌+◌, ◌*◌, ◌%◌, ◌^◌, ◌<◌, ◌≤◌, ◌≡◌, refl, ap, arith, ltb, ltb_of_lt, ltb_of_le,
  if◌then◌else◌, List, [], ◌∷◌, length, get_elem?, none, some, ok, >>=-eq-ok,
}
use wormhole_svm_utils.Prelude.Bytes.{Bytes}
use wormhole_svm_utils.Guardian.{
  Crypto, HasArrayTypes, TestGuardian, TestGuardianSet, generate, generate_from, sign_each,
  sign_body, sign_vaa_body_with, new_guardian, generated_secret,
}
use wormhole_svm_utils.Guardian.Signing.{length-sign_body}
use wormhole_svm_utils.Vaa.{TestVaa, body, digest, sign_with}
use wormhole_svm_utils.Cli.SignedVaa.{SignedVaa, parse_signed_vaa}
use wormhole_svm_utils.Cli.SignedVaa.RoundTrip.{AreSignatures, parse_signed_vaa-build_signed_vaa}
use wormhole_svm_utils.Prelude.Windows.{window}
use wormhole_svm_utils.LiteSvm.GuardianSet.{window-build_guardian_set_data}
use wormhole_svm_utils.LiteSvm.{build_guardian_set_data}
use wormhole_svm_utils.LiteSvm.GuardianSet.Verifies.{
  Recovery, Verifies, IsMade, generate_from-IsMade, generate_from-All, sign_body-Verifies,
}
use native.Mathlib.Decide.{dec_lt}

-- The indices of guardians that there are.
unfoldable pub kept : ℕ → Bytes → Bytes
kept count [] = []
kept count (i ∷ indices) = let rest = kept count indices in if ltb i count then i ∷ rest else rest

kept_of_lt :
    (count i : ℕ) (indices : Bytes) → i < count → kept count (i ∷ indices) ≡ i ∷ kept count indices
unfolding kept
kept_of_lt count i indices h = rw (ltb_of_lt i count h) refl

kept_of_le :
    (count i : ℕ) (indices : Bytes) → count ≤ i → kept count (i ∷ indices) ≡ kept count indices
unfolding kept
kept_of_le count i indices h = rw (ltb_of_le i count h) refl

-- Two lists of one length whose members are related in their order.
pub data Each {A B : Type 0} (P : A → B → Type 0) : List A → List B → Type 0 where
  none_left : Each P [] []
  next :
      {a : A} {b : B} {xs : List A} {ys : List B} → P a b → Each P xs ys → Each P (a ∷ xs) (b ∷ ys)

Each-length :
    {A B : Type 0} {P : A → B → Type 0} {xs : List A} {ys : List B}
    → Each P xs ys
    → length ys ≡ length xs
Each-length none_left = refl
Each-length (next p rest) = ap suc (Each-length rest)

get_elem?_of_le : {A : Type 0} (xs : List A) (k : ℕ) → length xs ≤ k → get_elem? xs k ≡ none
get_elem?_of_le [] k h = refl
get_elem?_of_le (x ∷ xs) zero h = absurd (omega arith)
get_elem?_of_le (x ∷ xs) (suc k) h = get_elem?_of_le xs k (omega arith)

length-generate_from :
    (C : Crypto) {F : Type 0} (count seed i : ℕ) (gs : List (TestGuardian C))
    → generate_from C {E = F} count seed i ≡ ok gs
    → length gs ≡ count
unfolding generate_from
length-generate_from C zero seed i gs h = ground arith
length-generate_from C {F = F} (suc count) seed i gs h =
    let (g0, made, rest) =
      >>=-eq-ok (new_guardian C {E = F} (generated_secret C seed i) (i % 256)) _ h in
    let (gs0, more, whole) = >>=-eq-ok (generate_from C {E = F} count seed (i + 1)) _ rest in
    let size = length-generate_from C {F = F} count seed (i + 1) gs0 more in
    let same : g0 ∷ gs0 ≡ gs = cc in rw (← same) (ap suc size)

module _ (C : Crypto) (gs : List (TestGuardian C)) (b : Bytes) (i : ℕ) (indices : Bytes) where
  sign_each_of_some :
      (g : TestGuardian C)
      → get_elem? gs i ≡ some g
      → sign_each C gs b (i ∷ indices) ≡ sign_body C g b ∷ sign_each C gs b indices
  unfolding sign_each
  sign_each_of_some g at = rw (at, sign_each) refl

  sign_each_of_none :
      get_elem? gs i ≡ none → sign_each C gs b (i ∷ indices) ≡ sign_each C gs b indices
  unfolding sign_each
  sign_each_of_none at = rw (at, sign_each) refl

module _ (C : Crypto) (T : HasArrayTypes C) (R : Recovery C) (set_data : Bytes) (count : ℕ)
    (gs : List (TestGuardian C))
    (there : (k : ℕ)
      → k < count
      → (g : TestGuardian C) × (get_elem? gs k ≡ some g) × (IsMade C k g))
    (missing : (k : ℕ) → count ≤ k → get_elem? gs k ≡ none) (small : count ≤ 256) where
  sign_each-AreSignatures : (b indices : Bytes) → AreSignatures (sign_each C gs b indices)
  unfolding sign_each
  sign_each-AreSignatures b [] = tt
  sign_each-AreSignatures b (i ∷ indices) = elim (dec_lt i count) [
    | yes h ↦
        let (g, at, _) = there i h in
        rw (sign_each_of_some C gs b i indices g at)
          (length-sign_body C T g b, sign_each-AreSignatures b indices)
    | no h ↦
        rw (sign_each_of_none C gs b i indices (missing i (omega arith)))
          (sign_each-AreSignatures b indices)
  ]

  sign_each-Each :
      (b : Bytes)
      → ((k : ℕ) (g : TestGuardian C)
          → get_elem? gs k ≡ some g
          → window (8 + 20 * k) 20 set_data ≡ g.eth_address)
      → (indices : Bytes)
      → Each
          (Verifies C R set_data (C.keccak256 (C.keccak256 b)))
          (kept count indices)
          (sign_each C gs b indices)
  unfolding sign_each kept
  sign_each-Each b placed [] = none_left
  sign_each-Each b placed (i ∷ indices) = elim (dec_lt i count) [
    | yes h ↦
        let (g, at, made) = there i h in
        rw (sign_each_of_some C gs b i indices g at, kept_of_lt count i indices h)
          (next (sign_body-Verifies C T R g i b set_data (omega arith) made (placed i g at))
            (sign_each-Each b placed indices))
    | no h ↦
        rw
          (
            sign_each_of_none C gs b i indices (missing i (omega arith)),
            kept_of_le count i indices (omega arith),
          )
          (sign_each-Each b placed indices)
  ]

module _ (C : Crypto) (T : HasArrayTypes C) (R : Recovery C) where
  -- If at most 256 guardians are generated, the crates' arrays have their lengths, a signature
  -- gives back the key that made it, the guardian set index is a u32 and fewer than 256 of the
  -- chosen indices are guardians': then `parse_signed_vaa` reads what `TestVaa::sign_with` writes
  -- as the VAA's body with one signature for each of these indices, in the order of the choice and
  -- with its repetitions, and each of them starts with its index and gives back a key with the
  -- address that the data of the set's account holds for that guardian.
  pub sign_with-Verifies :
      {F : Type 0} (count seed index : ℕ) (set : TestGuardianSet C) (v : TestVaa) (indices : Bytes)
      → count ≤ 256
      → generate C {E = F} count seed ≡ ok set
      → v.guardian_set_index < 2 ^ 32
      → length (kept count indices) < 256
      → (r : SignedVaa) × (parse_signed_vaa (sign_with C v set indices) ≡ ok r)
        × (r.body ≡ body v)
        × Each
            (Verifies C R (build_guardian_set_data C set index) (digest C v))
            (kept count indices)
            r.signatures
  unfolding generate sign_with sign_vaa_body_with digest
  sign_with-Verifies {F} count seed index set v indices small h hg few =
      let (gs, made, whole) = >>=-eq-ok (generate_from C {E = F} count seed 0) _ h in
      let same : record { guardians = gs } ≡ set = cc in
      let set_data = build_guardian_set_data C (record { guardians = gs }) index in
      let there : (k : ℕ)
          → k < count
          → (g : TestGuardian C) × (get_elem? gs k ≡ some g) × IsMade C k g =
        λ k below.
          let (g, at, known) = generate_from-IsMade C count seed 0 k gs made below in
          let shift : 0 + k ≡ k = omega arith in (g, at, rw shift at known) in
      let missing = λ (k : ℕ) (h : count ≤ k).
        get_elem?_of_le gs k (omega (arith, length-generate_from C {F = F} count seed 0 gs made)) in
      let each =
        sign_each-Each C T R set_data count gs there missing small (body v)
          (λ k g at.
            window-build_guardian_set_data C (record { guardians = gs }) index k g
              (generate_from-All C T count seed 0 gs made) at)
          indices in
      rw (← same) (
        record {
          guardian_set_index = v.guardian_set_index;
          signatures = sign_each C gs (body v) indices;
          body = body v;
        },
        parse_signed_vaa-build_signed_vaa v (body v) _ hg
            (sign_each-AreSignatures C T R set_data count gs there missing small (body v) indices)
            (omega (arith, Each-length each)),
        refl,
        each,
      )
