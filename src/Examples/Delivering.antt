-- ===== src/Examples/Delivering.antt =====
-- Two messages posted in one transaction, and the second one's way to the verifier program.
use wormhole_svm_utils.Prelude.{
  ℕ, ap, zero, suc, ◌<◌, ◌≡◌, refl, arith, [], ◌∷◌, replicate, ok, list_eq,
}
use wormhole_svm_utils.Prelude.Bytes.{Bytes, AreBytes, to_le_bytes}
use wormhole_svm_utils.Prelude.Windows.{window}
use wormhole_svm_utils.Vaa.{sign, digest, guardian_signatures}
use wormhole_svm_utils.Cli.SignedVaa.{SignedVaa, parse_signed_vaa}
use wormhole_svm_utils.Capture.{
  PostedMessageInfo, to_test_vaa, parse_post_message, parse_message_event,
  extract_posted_message_info_from_tx,
}
use wormhole_svm_utils.Capture.Extraction.{IsOther}
use wormhole_svm_utils.Emitter.{EmitterDeps, find_emitter_address, post_message_data}
use wormhole_svm_utils.Emitter.Posting.{Accounts}
use wormhole_svm_utils.Verifier
use wormhole_svm_utils.Workflow.Emission.{
  Emission, HasConstants, IsEmission, inner_list, info_of, extract-emit,
}
use wormhole_svm_utils.Workflow.Delivery.{receipt, process_instruction-emit}
use wormhole_svm_utils.Examples.Signing.{toy_crypto, toy_crypto-HasArrayTypes, guardians}
use wormhole_svm_utils.Examples.Programs.{emitter_deps, accepting, toy_deps}
use wormhole_svm_utils.Examples.Messages.{selector, discriminator}

abbrev long_deps : EmitterDeps
long_deps = record emitter_deps { find_program_address = λ seeds program. (replicate 32 92, 255) }

abbrev anchor : Bytes
anchor = replicate 8 228

abbrev long_accounts : Accounts long_deps accepting
long_accounts = record {
  core_bridge_config = 91 ∷ [];
  message = 90 ∷ [];
  emitter = replicate 32 92;
  sequence = 89 ∷ [];
  payer = 1 ∷ [];
  fee_collector = 88 ∷ [];
  clock = 94 ∷ [];
  system_program = 93 ∷ [];
  core_bridge_program = 95 ∷ [];
  event_authority = 87 ∷ [];
  post_message_shim = 96 ∷ [];
}

-- The bridge fee's transfer stands before the first, and a log account's write between.
abbrev first_emission : Emission long_deps accepting discriminator anchor
first_emission = record {
  accounts = long_accounts;
  nonce = 4;
  finality = 1;
  payload = 7 ∷ 8 ∷ [];
  sequence = 41;
  submission_time = 1700000000;
  before = (2 ∷ 0 ∷ []) ∷ [];
  between = (3 ∷ []) ∷ [];
  behind = [];
}

abbrev second_emission : Emission long_deps accepting discriminator anchor
second_emission = record {
  accounts = long_accounts;
  nonce = 7;
  finality = 1;
  payload = 1 ∷ 2 ∷ 3 ∷ 4 ∷ 5 ∷ [];
  sequence = 42;
  submission_time = 1700000000;
  before = [];
  between = (3 ∷ []) ∷ [];
  behind = (9 ∷ []) ∷ [];
}

short-IsOther : (b : ℕ) → IsOther selector discriminator (b ∷ [])
unfolding parse_post_message parse_message_event
short-IsOther b = (refl, refl)

transfer-IsOther : IsOther selector discriminator (2 ∷ 0 ∷ [])
unfolding parse_post_message parse_message_event
transfer-IsOther = (refl, refl)

own_address : replicate 32 92 ≡ (find_emitter_address long_deps).0
unfolding find_emitter_address
own_address = refl

same_byte : (n : ℕ) (b : ℕ) → b < 256 → AreBytes (replicate n b)
same_byte zero b h = tt
same_byte (suc n) b h = (h, same_byte n b h)

emitter_bytes : AreBytes (find_emitter_address long_deps).0
unfolding find_emitter_address
emitter_bytes = same_byte 32 92 (omega arith)

head_of : Bytes → ℕ
head_of [] = 0
head_of (b ∷ bs) = b

constants : HasConstants long_deps accepting discriminator anchor
unfolding find_emitter_address head_of
constants = record {
  length-selector = refl;
  length-discriminator = refl;
  length-anchor = refl;
  anchor_differs = λ e. let same : 228 ≡ 5 = ap head_of e in absurd (omega arith);
  length-emitter = refl;
}

first-IsEmission : IsEmission long_deps accepting discriminator anchor first_emission
unfolding find_emitter_address head_of post_message_data window to_le_bytes
first-IsEmission = record {
  own = refl;
  shim = refl;
  nonce_u32 = omega arith;
  payload_u32 = omega arith;
  sequence_u64 = omega arith;
  submission_time_u32 = omega arith;
  no_event = λ e. let same : 4 ≡ 6 = ap head_of e in absurd (omega arith);
  before_others = (transfer-IsOther, tt);
  between_others = (short-IsOther 3, tt);
  behind_others = tt;
}

second-IsEmission : IsEmission long_deps accepting discriminator anchor second_emission
unfolding find_emitter_address head_of post_message_data window to_le_bytes
second-IsEmission = record {
  own = refl;
  shim = refl;
  nonce_u32 = omega arith;
  payload_u32 = omega arith;
  sequence_u64 = omega arith;
  submission_time_u32 = omega arith;
  no_event = λ e. let same : 7 ≡ 6 = ap head_of e in absurd (omega arith);
  before_others = tt;
  between_others = (short-IsOther 3, tt);
  behind_others = (short-IsOther 9, tt);
}

extract-emit_example :
    extract_posted_message_info_from_tx selector discriminator (
      inner_list long_deps accepting discriminator anchor first_emission
      ∷ inner_list long_deps accepting discriminator anchor second_emission
      ∷ [])
    ≡ ok (
        info_of long_deps accepting discriminator anchor first_emission
        ∷ info_of long_deps accepting discriminator anchor second_emission
        ∷ [])
extract-emit_example =
    extract-emit long_deps accepting discriminator anchor constants
      (first_emission ∷ second_emission ∷ []) (first-IsEmission, (second-IsEmission, tt))

process_instruction-emit_example :
    (info : PostedMessageInfo) × (extract_posted_message_info_from_tx selector discriminator
        (inner_list long_deps accepting discriminator anchor second_emission ∷ [])
      ≡ ok (info ∷ []))
    × (r : SignedVaa) × (parse_signed_vaa (sign toy_crypto (to_test_vaa info) guardians) ≡ ok r)
    × (r.signatures ≡ guardian_signatures toy_crypto (to_test_vaa info) guardians)
    × (Verifier.process_instruction toy_deps accepting
          ((1 ∷ []) ∷ (2 ∷ []) ∷ (3 ∷ []) ∷ (99 ∷ []) ∷ [])
          (Verifier.build_instruction_data 254 r.body)
        ≡ (
          ok tt,
          receipt 1 42
              (1 ∷ 2 ∷ 3 ∷ 4 ∷ 5 ∷ [])
              (digest toy_crypto (to_test_vaa info))
              (toy_deps.verify_hash_instruction
                (99 ∷ [])
                (2 ∷ [])
                (3 ∷ [])
                254
                (digest toy_crypto (to_test_vaa info)))
              ((2 ∷ []) ∷ (3 ∷ []) ∷ []),
        ))
process_instruction-emit_example =
    process_instruction-emit long_deps accepting discriminator anchor toy_crypto toy_deps accepting
      toy_crypto-HasArrayTypes (λ bs. refl) constants second_emission guardians (1 ∷ []) (2 ∷ [])
      (3 ∷ []) (99 ∷ []) [] 254 second-IsEmission emitter_bytes (omega arith)
      (omega arith, (omega arith, (omega arith, (omega arith, (omega arith, tt))))) (omega arith)
      (omega arith) refl refl
