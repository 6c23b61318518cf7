-- ===== src/Guardian/Generate.antt =====
-- `TestGuardianSet::generate`, and signing with a choice of its guardians.
use wormhole_svm_utils.Prelude.{ℕ, zero, suc, ◌+◌, ◌%◌, ◌<◌, ◌≡◌, refl, arith}
use wormhole_svm_utils.Prelude.{List, [], ◌∷◌, map, take, get_elem?, All, some, ok}
use wormhole_svm_utils.Prelude.{>>=-eq-ok}
use wormhole_svm_utils.Prelude.Bytes.{Bytes}
use wormhole_svm_utils.Guardian.{Crypto, HasArrayTypes, TestGuardian, TestGuardianSet}
use wormhole_svm_utils.Guardian.{new_guardian, generated_secret, generate_from, generate}
use wormhole_svm_utils.Guardian.{sign_each, sign_vaa_body_with}
use wormhole_svm_utils.Guardian.Signing.{sign_body_lem}

-- What is known of guardian number `n` of a generated set.
abbrev pub Generated : (C : Crypto) → ℕ → ℕ → TestGuardian C → Type 0
Generated C seed n g =
    (g.index ≡ n % 256) × (C.parse_secret_key (generated_secret C seed n) ≡ some g.secret_key)

module _ (C : Crypto) {E : Type 0} where
  new_guardian_ok :
      (secret : Bytes) (i : ℕ) (g : TestGuardian C)
      → new_guardian C {E = E} secret i ≡ ok g
      → (g.index ≡ i) × (C.parse_secret_key secret ≡ some g.secret_key)
  unfolding new_guardian
  new_guardian_ok secret i g h = ground arith

  generate_from_ok :
      (count seed i k : ℕ) (gs : List (TestGuardian C)) (g : TestGuardian C)
      → generate_from C {E = E} count seed i ≡ ok gs
      → get_elem? gs k ≡ some g
      → (k < count) × Generated C seed (i + k) g
  unfolding generate_from
  generate_from_ok zero seed i k gs g h at = ground arith
  generate_from_ok (suc count) seed i zero gs g h at =
      let (g0, made, rest) =
        >>=-eq-ok (new_guardian C {E = E} (generated_secret C seed i) (i % 256)) _ h in
      let (gs0, more, whole) = >>=-eq-ok (generate_from C {E = E} count seed (i + 1)) _ rest in
      let first : get_elem? (g0 ∷ gs0) zero ≡ some g = ground arith in
      let same : g0 ≡ g = ground arith in
      let here : i + 0 ≡ i = omega arith in
      rw (here, ← same) (omega arith, new_guardian_ok (generated_secret C seed i) (i % 256) g0 made)
  generate_from_ok (suc count) seed i (suc k) gs g h at =
      let (g0, made, rest) =
        >>=-eq-ok (new_guardian C {E = E} (generated_secret C seed i) (i % 256)) _ h in
      let (gs0, more, whole) = >>=-eq-ok (generate_from C {E = E} count seed (i + 1)) _ rest in
      let next : get_elem? gs0 k ≡ some g = ground arith in
      let (below, known) = generate_from_ok count seed (i + 1) k gs0 g more next in
      let here : i + 1 + k ≡ i + suc k = omega arith in (omega arith, rw here at known)

module _ (C : Crypto) {E : Type 0} (count seed : ℕ) where
  -- In a generated set, guardian `k` is there only for `k` below `count`; its index is `k` as a u8,
  -- and its secret key is the one that the hash of the seed and `k` parses to.
  pub generate_ok :
      (set : TestGuardianSet C) (k : ℕ) (g : TestGuardian C)
      → generate C {E = E} count seed ≡ ok set
      → get_elem? set.guardians k ≡ some g
      → (k < count) × Generated C seed k g
  unfolding generate
  generate_ok set k g h at =
      let (gs, made, whole) = >>=-eq-ok (generate_from C {E = E} count seed 0) _ h in
      let here : get_elem? gs k ≡ some g = ground arith in
      let (below, known) = generate_from_ok C count seed 0 k gs g made here in
      let shift : 0 + k ≡ k = omega arith in (below, rw shift at known)

-- Every guardian below `n` is there, and carries its position as its index.
abbrev pub IsIndexed : (C : Crypto) → ℕ → TestGuardianSet C → Type 0
IsIndexed C n set =
    (k : ℕ) → k < n → (g : TestGuardian C) × (get_elem? set.guardians k ≡ some g) × (g.index ≡ k)

module _ (C : Crypto) (T : HasArrayTypes C) (n : ℕ) (set : TestGuardianSet C) where
  sign_each-indices :
      (b indices : Bytes)
      → IsIndexed C n set
      → All (λ (i : ℕ). i < n) indices
      → map (take 1) (sign_each C set.guardians b indices) ≡ map (λ (i : ℕ). i ∷ []) indices
  unfolding sign_each
  sign_each-indices b [] known below = refl
  sign_each-indices b (i ∷ indices) known (h, below) =
      let (g, at, same) = known i h in
      rw (at, sign_each) (rw (sign_body_lem C T g b, same, sign_each-indices b indices known below))

  -- If the guardians of a set are numbered by their positions, and all chosen indices are
  -- positions, then signing with the chosen guardians gives one signature for each, in the order of
  -- the choice, and each begins with the index that was asked for.
  pub sign_vaa_body_with-indices :
      (b indices : Bytes)
      → IsIndexed C n set
      → All (λ (i : ℕ). i < n) indices
      → map (take 1) (sign_vaa_body_with C set b indices) ≡ map (λ (i : ℕ). i ∷ []) indices
  unfolding sign_vaa_body_with
  sign_vaa_body_with-indices = sign_each-indices
