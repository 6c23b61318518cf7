-- ===== src/LiteSvm/Modified.antt =====
-- crates/wormhole-svm-test/src/litesvm.rs: the VAAs that `with_vaa` makes from the given one, each
-- with one field changed.
pub mod Differs
use wormhole_svm_utils.Prelude.{ℕ, zero, suc, ◌+◌, ◌%◌, ◌^◌, [], ◌∷◌}
use wormhole_svm_utils.Prelude.Bytes.{Bytes}
use wormhole_svm_utils.Vaa.{TestVaa}
use Prim.Native.Nat.{bit_xor}

-- `xs[i] = f(xs[i])`, for an index that the array's type keeps in range.
unfoldable pub update_at : ℕ → (ℕ → ℕ) → Bytes → Bytes
update_at i f [] = []
update_at zero f (b ∷ bs) = f b ∷ bs
update_at (suc i) f (b ∷ bs) = b ∷ update_at i f bs

-- `sequence: vaa.sequence.wrapping_add(1)`
unfoldable pub wrong_sequence : TestVaa → TestVaa
wrong_sequence v = record v { sequence = (v.sequence + 1) % 2 ^ 64 }

-- `emitter_chain: vaa.emitter_chain.wrapping_add(1)`
unfoldable pub wrong_chain : TestVaa → TestVaa
wrong_chain v = record v { emitter_chain = (v.emitter_chain + 1) % 2 ^ 16 }

-- `wrong_addr[31] ^= 0xFF`
unfoldable pub wrong_address : TestVaa → TestVaa
unfolding update_at
wrong_address v = record v {
  emitter_address = update_at 31 (λ b. bit_xor b 0xFF) v.emitter_address;
}
