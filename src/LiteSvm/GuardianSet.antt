-- ===== src/LiteSvm/GuardianSet.antt =====
-- Where a guardian's address stands in the data of a guardian set's account.
pub mod Verifies
pub mod Chosen
use wormhole_svm_utils.Prelude.{
  ℕ, zero, suc, ◌+◌, ◌*◌, ◌%◌, ◌^◌, ◌≡◌, refl, sym, ap, ◌∙◌, arith, List, [], ◌∷◌, ◌++◌,
}
use wormhole_svm_utils.Prelude.{length, concat, map, drop, get_elem?, some, All, append_assoc}
use wormhole_svm_utils.Prelude.Bytes.{Bytes, to_le_bytes, length-to_le_bytes}
use wormhole_svm_utils.Prelude.Windows.{window, window-at, drop-past, drop-drop}
use wormhole_svm_utils.Guardian.{Crypto, TestGuardian, TestGuardianSet, len}
use wormhole_svm_utils.LiteSvm.{build_guardian_set_data}

module _ {C : Crypto} where
  abbrev addresses : List (TestGuardian C) → Bytes
  addresses gs = concat (map (λ (g : TestGuardian C). g.eth_address) gs)

  abbrev AreAddressed : List (TestGuardian C) → Type 0
  AreAddressed = All (λ (g : TestGuardian C). length g.eth_address ≡ 20)

  length-address :
      (gs : List (TestGuardian C)) (k : ℕ) (g : TestGuardian C)
      → AreAddressed gs
      → get_elem? gs k ≡ some g
      → length g.eth_address ≡ 20
  length-address [] k g h at = cc
  length-address (x ∷ gs) zero g (hx, h) at =
      let same : x ≡ g = cc in ap (λ (t : TestGuardian C). length t.eth_address) (sym same) ∙ hx
  length-address (x ∷ gs) (suc k) g (hx, h) at = length-address gs k g h at

  -- Address `k` of addresses of 20 bytes, past `20 * k` bytes.
  drop-addresses :
      (gs : List (TestGuardian C)) (k : ℕ) (g : TestGuardian C) (rest : Bytes)
      → AreAddressed gs
      → get_elem? gs k ≡ some g
      → (tail : Bytes) × (drop (20 * k) (addresses gs ++ rest) ≡ g.eth_address ++ tail)
  drop-addresses [] k g rest h at = cc
  drop-addresses (x ∷ gs) zero g rest h at =
      let same : x ≡ g = cc in
      (
        addresses gs ++ rest,
        append_assoc x.eth_address (addresses gs) rest
            ∙ ap (λ (t : TestGuardian C). t.eth_address ++ (addresses gs ++ rest)) same,
      )
  drop-addresses (x ∷ gs) (suc k) g rest (hx, h) at =
      let (tail, e) = drop-addresses gs k g rest h at in
      let sum : 20 * suc k ≡ 20 + 20 * k = omega arith in
      let whole = (x.eth_address ++ addresses gs) ++ rest in
      let past : drop 20 whole ≡ addresses gs ++ rest =
        drop-past whole x.eth_address (addresses gs ++ rest) 0 20
          (append_assoc x.eth_address (addresses gs) rest) hx 20 refl in
      (tail, rw (sum, drop-drop 20 (20 * k) whole, past) e)

-- If the guardians' addresses have 20 bytes, then in the data of the set's account the address of
-- guardian `k` is the 20 bytes from `8 + 20 * k` on.
pub window-build_guardian_set_data :
    (C : Crypto) (set : TestGuardianSet C) (index k : ℕ) (g : TestGuardian C)
    → All (λ (g : TestGuardian C). length g.eth_address ≡ 20) set.guardians
    → get_elem? set.guardians k ≡ some g
    → window (8 + 20 * k) 20 (build_guardian_set_data C set index) ≡ g.eth_address
unfolding build_guardian_set_data
window-build_guardian_set_data C set index k g h at =
    let first = to_le_bytes 4 index in
    let second = to_le_bytes 4 (len C set % 2 ^ 32) in
    let times = to_le_bytes 4 0 ++ to_le_bytes 4 0 in
    let keys = addresses set.guardians ++ times in
    let whole = first ++ (second ++ keys) in
    let at_4 : drop 4 whole ≡ second ++ keys =
      drop-past whole first (second ++ keys) 0 4 refl (length-to_le_bytes 4 index) 4 refl in
    let at_8 : drop 8 whole ≡ keys =
      drop-past whole second keys 4 4 at_4 (length-to_le_bytes 4 (len C set % 2 ^ 32)) 8 refl in
    let (tail, e) = drop-addresses set.guardians k g times h at in
    let there : drop (8 + 20 * k) whole ≡ g.eth_address ++ tail =
      rw (drop-drop 8 (20 * k) whole, at_8) e in
    window-at whole g.eth_address tail (8 + 20 * k) 20 there (length-address set.guardians k g h at)
