-- ===== src/Capture.antt =====
-- crates/wormhole-svm-test/src/litesvm.rs: reading posted Wormhole messages back from the inner
-- instructions of a transaction.
pub mod Parsing
pub mod Crossing
pub mod Reading
pub mod Extraction
use wormhole_svm_utils.Prelude.{ℕ, ◌+◌, ltb, ◌==◌, list_eq, not, ◌||◌, List, [], ◌∷◌, ◌++◌, length}
use wormhole_svm_utils.Prelude.{
  Bool, true, false, Option, some, none, Result, ok, err, panic, ◌>>=◌, ◌>>◌,
}
use wormhole_svm_utils.Prelude.{fail_if}
use wormhole_svm_utils.Prelude.Bytes.{Bytes, from_le_bytes}
use wormhole_svm_utils.Prelude.Windows.{index, array_or, slice, slice_from}
use wormhole_svm_utils.Solana.{Pubkey}
use wormhole_svm_utils.Vaa.{TestVaa, default_checks}

pub record PostMessageData : Type 0 where
  pub nonce : ℕ
  pub finality : ℕ
  pub payload : Bytes

pub record MessageEvent : Type 0 where
  pub emitter : Pubkey
  pub sequence : ℕ
  pub submission_time : ℕ

pub record PostedMessageInfo : Type 0 where
  pub emitter : Pubkey
  pub emitter_chain : ℕ
  pub sequence : ℕ
  pub payload : Bytes
  pub nonce : ℕ
  pub consistency_level : ℕ
  pub timestamp : ℕ

-- A function that returns an `Option` and may panic: `err tt` is its `None`.
abbrev pub Maybe : Type 0 → Type 0
Maybe A = Result (Unit {0}) A

-- The constants of the shim's crates: the selector of `post_message` and the event's discriminator.
module _ (post_message_selector message_event_discriminator : Bytes) where
  -- `PostMessageData::parse`; the second test reads `data[..8]` only if the first passes.
  unfoldable pub parse_post_message : Bytes → Maybe PostMessageData
  unfolding index
  parse_post_message bytes = do
    fail_if (ltb (length bytes) 17) tt
    selector ← slice 0 8 bytes
    fail_if (not (selector == post_message_selector)) tt
    nonce ← array_or (err tt) 4 8 12 bytes
    finality ← index 12 bytes
    len_bytes ← array_or (err tt) 4 13 17 bytes
    let payload_len = from_le_bytes len_bytes
    fail_if (ltb (length bytes) (17 + payload_len)) tt
    payload ← slice 17 (17 + payload_len) bytes
    ok (record { nonce = from_le_bytes nonce; finality = finality; payload = payload })

  -- `MessageEvent::parse`
  unfoldable pub parse_message_event : Bytes → Maybe MessageEvent
  parse_message_event bytes = do
    fail_if (ltb (length bytes) 60) tt
    discriminator ← slice 8 16 bytes
    fail_if (not (discriminator == message_event_discriminator)) tt
    event_data ← slice_from 16 bytes
    emitter ← array_or (err tt) 32 0 32 event_data
    sequence ← array_or (err tt) 8 32 40 event_data
    submission_time ← array_or (err tt) 4 40 44 event_data
    ok (record {
      emitter = emitter;
      sequence = from_le_bytes sequence;
      submission_time = from_le_bytes submission_time;
    })

-- `PostedMessageInfo::from_event`
unfoldable pub from_event : MessageEvent → Bytes → ℕ → ℕ → PostedMessageInfo
from_event event payload nonce consistency_level = record {
  emitter = event.emitter;
  emitter_chain = 1;
  sequence = event.sequence;
  payload = payload;
  nonce = nonce;
  consistency_level = consistency_level;
  timestamp = event.submission_time;
}

-- `PostedMessageInfo::to_test_vaa`
unfoldable pub to_test_vaa : PostedMessageInfo → TestVaa
to_test_vaa info = record {
  emitter_chain = info.emitter_chain;
  emitter_address = info.emitter;
  sequence = info.sequence;
  payload = info.payload;
  timestamp = info.timestamp;
  nonce = info.nonce;
  consistency_level = info.consistency_level;
  guardian_set_index = 0;
  checks = default_checks;
}

-- `if let Some(x) = .. { v.push(x) }`: what it pushes.
abbrev pub pushed : {A : Type 0} → Maybe A → Maybe (List A)
pushed (ok a) = ok (a ∷ [])
pushed (err _) = ok []
pushed panic = panic

-- The closure that is mapped over the zipped vectors.
unfoldable pub pair_up : List PostMessageData → List MessageEvent → List PostedMessageInfo
pair_up [] events = []
pair_up (post_msg ∷ posts) [] = []
pair_up (post_msg ∷ posts) (event ∷ events) =
    from_event event post_msg.payload post_msg.nonce post_msg.finality ∷ pair_up posts events

module _ (post_message_selector message_event_discriminator : Bytes) where
  -- The loop over one list of inner instructions, by their data.
  unfoldable pub scan_list : List Bytes → Maybe (List PostMessageData × List MessageEvent)
  scan_list [] = ok ([], [])
  scan_list (inner ∷ inner_list) = do
    post_messages ←
        pushed (parse_post_message post_message_selector message_event_discriminator inner)
    events ← pushed (parse_message_event post_message_selector message_event_discriminator inner)
    (later_messages, later_events) ← scan_list inner_list
    ok (post_messages ++ later_messages, events ++ later_events)

  -- The loop over the lists.
  unfoldable pub scan : List (List Bytes) → Maybe (List PostMessageData × List MessageEvent)
  scan [] = ok ([], [])
  scan (inner_list ∷ lists) = do
    (post_messages, events) ← scan_list inner_list
    (later_messages, later_events) ← scan lists
    ok (post_messages ++ later_messages, events ++ later_events)

  -- `extract_posted_message_info_from_tx`, on the data of `meta.inner_instructions`.
  unfoldable pub extract_posted_message_info_from_tx :
      List (List Bytes) → Maybe (List PostedMessageInfo)
  extract_posted_message_info_from_tx inner_instructions = do
    (post_messages, events) ← scan inner_instructions
    ok (pair_up post_messages events)
