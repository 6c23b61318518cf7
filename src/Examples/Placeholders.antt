-- ===== src/Examples/Placeholders.antt =====
-- The placeholders of the toy protocol, replaced.
use wormhole_svm_utils.Prelude.{
  ℕ, ◌<◌, sym, ap, ◌+◌, ◌≤◌, ◌≡◌, ◌≢◌, refl, arith, List, [], ◌∷◌, All,
}
use wormhole_svm_utils.Prelude.{true, list_eq, nat_eq, Memᴰ}
use mathlib.Core.List.Memᴰ.{head, tail}
use mathlib.Core.List.Memᴰ as Memᴰ
use wormhole_svm_utils.Solana.{writable}
use wormhole_svm_utils.Submit.Execute.{
  discover_keypairs, convert_instruction, convert_account, keypair_placeholders,
}
use wormhole_svm_utils.Submit.Execute.Placeholders.{IsReal, keys, convert_instruction-IsReal}
use wormhole_svm_utils.Submit.Execute.{substitute, discover_among}
use wormhole_svm_utils.Examples.Toy.{toy_connection, toy_protocol, group, instruction}

-- One-byte keys from 20 on are no placeholders.
below : (n : ℕ) (xs : List ℕ) → All (λ (x : ℕ). x < 10) xs → Memᴰ n xs → n < 10
below n [] h m = elim m [ ]
below n (x ∷ xs) (h, hs) (head e) = omega (arith, e)
below n (x ∷ xs) (h, hs) (tail m) = below n xs hs m

first : List ℕ → ℕ
first [] = 0
first (x ∷ xs) = x

pub other_key : (n m : ℕ) → m < n → (n ∷ []) ≢ (m ∷ [])
unfolding first
other_key n m h e = let same : n ≡ m = ap first e in absurd (omega arith)

digits : All (λ (x : ℕ). x < 10) (0 ∷ 1 ∷ 2 ∷ 3 ∷ 4 ∷ 5 ∷ 6 ∷ 7 ∷ 8 ∷ 9 ∷ [])
digits = (
  omega arith,
  (
    omega arith,
    (
      omega arith,
      (
        omega arith,
        (
          omega arith,
          (omega arith, (omega arith, (omega arith, (omega arith, (omega arith, tt))))),
        ),
      ),
    ),
  ),
)

real : (n : ℕ) → 20 ≤ n → IsReal toy_protocol toy_connection (n ∷ [])
unfolding keypair_placeholders
real n h = (
  other_key n 1 (omega arith),
  other_key n 3 (omega arith),
  other_key n 2 (omega arith),
  λ m.
      let (i, mi, e) =
        Memᴰ.of_map (λ (i : ℕ). (10 + i) ∷ []) (0 ∷ 1 ∷ 2 ∷ 3 ∷ 4 ∷ 5 ∷ 6 ∷ 7 ∷ 8 ∷ 9 ∷ []) m in
      let small : i < 10 = below i _ digits mi in other_key n (10 + i) (omega arith) (sym e),
)

third :
    Memᴰ
      (writable (107 ∷ []) true)
      (convert_instruction toy_protocol
        (20 ∷ [])
        (104 ∷ [])
        (60 ∷ [])
        (keys toy_protocol toy_connection (group ∷ []) (20 ∷ []) (104 ∷ []) (60 ∷ []) (7, []))
        instruction).accounts
unfolding list_eq convert_instruction convert_account substitute discover_keypairs discover_among
    keypair_placeholders
third = tail (tail (head refl))

convert_instruction-IsReal_example : IsReal toy_protocol toy_connection (107 ∷ [])
convert_instruction-IsReal_example =
    convert_instruction-IsReal toy_protocol toy_connection (group ∷ []) (20 ∷ []) (104 ∷ [])
      (60 ∷ []) (7, []) (real 20 (omega arith)) (real 104 (omega arith)) (real 60 (omega arith))
      (λ t. real (100 + t.0) (omega arith)) group instruction (writable (107 ∷ []) true) (head refl)
      (head refl) third
