-- ===== src/Vaa.antt =====
-- crates/wormhole-svm-test/src/vaa.rs: test VAAs, their body bytes and their signed form.
pub mod Injective
pub mod Layout
use wormhole_svm_utils.Prelude.{ℕ, ◌+◌, ◌%◌, ◌^◌, Bool, true, false, List, [], ◌∷◌, ◌++◌, length}
use wormhole_svm_utils.Prelude.{replicate, concat}
use wormhole_svm_utils.Prelude.Bytes.{Bytes, to_be_bytes}
use wormhole_svm_utils.Guardian.{
  Crypto, TestGuardianSet, copy_at, sign_vaa_body, sign_vaa_body_with,
}

pub data ReplayProtection : Type 0 where
  replayable non_replayable : ReplayProtection

pub record VaaChecks : Type 0 where
  pub emitter_chain : Bool
  pub emitter_address : Bool
  pub replay : ReplayProtection

abbrev pub default_checks : VaaChecks
default_checks = record { emitter_chain = true; emitter_address = true; replay = non_replayable }

-- The integer fields are u16 (chain), u64 (sequence), u32 and u8; the address has 32 bytes.
pub record TestVaa : Type 0 where
  pub emitter_chain : ℕ
  pub emitter_address : Bytes
  pub sequence : ℕ
  pub payload : Bytes
  pub timestamp : ℕ
  pub nonce : ℕ
  pub consistency_level : ℕ
  pub guardian_set_index : ℕ
  pub checks : VaaChecks

-- `TestVaa::new`
unfoldable pub new_vaa : ℕ → Bytes → ℕ → Bytes → TestVaa
new_vaa emitter_chain emitter_address sequence payload = record {
  emitter_chain = emitter_chain;
  emitter_address = emitter_address;
  sequence = sequence;
  payload = payload;
  timestamp = 1234567890;
  nonce = 0;
  consistency_level = 1;
  guardian_set_index = 0;
  checks = default_checks;
}

-- `TestVaa::body`
unfoldable pub body : TestVaa → Bytes
body v =
    to_be_bytes 4 v.timestamp
    ++ (to_be_bytes 4 v.nonce
        ++ (to_be_bytes 2 v.emitter_chain
            ++ (v.emitter_address
                ++ (to_be_bytes 8 v.sequence ++ (v.consistency_level ∷ v.payload)))))

-- `TestVaa::build_signed_vaa`; `as u8` keeps the number of signatures modulo 256.
unfoldable pub build_signed_vaa : TestVaa → Bytes → List Bytes → Bytes
build_signed_vaa v body signatures =
    1
    ∷ (to_be_bytes 4 v.guardian_set_index
        ++ ((length signatures % 256) ∷ (concat signatures ++ body)))

module _ (C : Crypto) where
  -- `TestVaa::digest`
  unfoldable pub digest : TestVaa → Bytes
  unfolding body
  digest v = let message_hash = C.keccak256 (body v) in C.keccak256 message_hash

  -- `TestVaa::sign`
  unfoldable pub sign : TestVaa → TestGuardianSet C → Bytes
  unfolding body build_signed_vaa
  sign v guardians =
      let b = body v in
      let signatures = sign_vaa_body C guardians b in build_signed_vaa v b signatures

  -- `TestVaa::sign_with`
  unfoldable pub sign_with : TestVaa → TestGuardianSet C → Bytes → Bytes
  unfolding body build_signed_vaa
  sign_with v guardians indices =
      let b = body v in
      let signatures = sign_vaa_body_with C guardians b indices in build_signed_vaa v b signatures

  -- `TestVaa::guardian_signatures`
  unfoldable pub guardian_signatures : TestVaa → TestGuardianSet C → List Bytes
  unfolding body
  guardian_signatures v guardians = sign_vaa_body C guardians (body v)

unfoldable pub emitter_address_from_20 : Bytes → Bytes
unfolding copy_at
emitter_address_from_20 addr = copy_at 12 addr (replicate 32 0)

unfoldable pub emitter_address_from_32 : Bytes → Bytes
emitter_address_from_32 addr = addr
