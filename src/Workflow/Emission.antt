-- ===== src/Workflow/Emission.antt =====
-- Messages that the emitter program posts, read back from the transaction: the first half of
-- `test_emit_capture_verify_roundtrip` of tests/verify_vaa_example.rs.
use wormhole_svm_utils.Prelude.{
  ℕ, ◌^◌, ◌<◌, ◌≡◌, ◌≢◌, List, [], ◌∷◌, ◌++◌, map, concat, length, append_assoc, All, ok,
  Result-cases, inl, inr,
}
use wormhole_svm_utils.Prelude.Bytes.{Bytes}
use wormhole_svm_utils.Prelude.Windows.{window}
use wormhole_svm_utils.Solana.{Runtime, Run, Event, log, cpi}
use wormhole_svm_utils.Emitter
use wormhole_svm_utils.Emitter.{EmitterDeps, find_emitter_address, post_message_data}
use wormhole_svm_utils.Emitter.Posting.{
  Accounts, listed, post_ix, emitter_seeds, process_instruction-build_instruction_data_emit,
  post_message_data-posted_data,
}
use wormhole_svm_utils.Capture.{
  MessageEvent, PostedMessageInfo, from_event, extract_posted_message_info_from_tx,
}
use wormhole_svm_utils.Capture.Parsing.{
  event_bytes, parse_message_event-event_bytes, parse_post_message-post_message_data,
}
use wormhole_svm_utils.Capture.Crossing.{parse_message_event_err, parse_post_message-event_bytes}
use wormhole_svm_utils.Capture.Extraction.{IsOther, Posts, done, other, message, extract-Posts}

-- The data of the CPI calls of a run, in order.
unfoldable pub cpi_data : {L I : Type 0} → List (Event L I) → List Bytes
cpi_data [] = []
cpi_data (log l ∷ es) = cpi_data es
cpi_data (cpi ix infos seeds ∷ es) = ix.ix_data ∷ cpi_data es

module _ (D : EmitterDeps) (R : Runtime) (discriminator anchor : Bytes) where
  -- One instruction of the emitter program: the accounts that it was given, what it was asked to
  -- post, the sequence number and the time that the shim reported, and the inner instructions
  -- before the program's own, between this and the shim's event, and behind.
  pub record Emission : Type 0 where
    pub accounts : Accounts D R
    pub nonce : ℕ
    pub finality : ℕ
    pub payload : Bytes
    pub sequence : ℕ
    pub submission_time : ℕ
    pub before : List Bytes
    pub between : List Bytes
    pub behind : List Bytes

  -- What the client's data asks the program to do.
  abbrev pub emit : Emission → Run Emitter.Log R.AccountInfo (Unit {0})
  emit m =
      Emitter.process_instruction D R (listed D R m.accounts)
        (Emitter.build_instruction_data m.nonce m.finality m.payload)

  abbrev pub event_of : Emission → MessageEvent
  event_of m = record {
    emitter = (find_emitter_address D).0;
    sequence = m.sequence;
    submission_time = m.submission_time;
  }

  -- The inner instructions of the emission: among others, the program's own CPI, then the shim's
  -- event.
  abbrev pub inner_list : Emission → List Bytes
  inner_list m =
      m.before
      ++ (cpi_data (emit m).1
          ++ (m.between
              ++ (event_bytes D.post_message_selector discriminator anchor (event_of m)
                  ∷ m.behind)))

  abbrev pub info_of : Emission → PostedMessageInfo
  info_of m = record {
    emitter = (find_emitter_address D).0;
    emitter_chain = 1;
    sequence = m.sequence;
    payload = m.payload;
    nonce = m.nonce;
    consistency_level = m.finality;
    timestamp = m.submission_time;
  }

  -- The constants have the lengths of their types, and the event's anchor is not the selector.
  pub record HasConstants : Type 0 where
    pub length-selector : length D.post_message_selector ≡ 8
    pub length-discriminator : length discriminator ≡ 8
    pub length-anchor : length anchor ≡ 8
    pub anchor_differs : anchor ≢ D.post_message_selector
    pub length-emitter : length (find_emitter_address D).0 ≡ 32

  -- The program's own address and the shim's are among the accounts, the integers are of their
  -- types, the call's bytes do not carry the event's discriminator, and the other inner
  -- instructions parse as neither.
  pub record IsEmission (m : Emission) : Type 0 where
    pub own : R.key m.accounts.emitter ≡ (find_emitter_address D).0
    pub shim : R.key m.accounts.post_message_shim ≡ D.post_message_shim_program_id
    pub nonce_u32 : m.nonce < 2 ^ 32
    pub payload_u32 : length m.payload < 2 ^ 32
    pub sequence_u64 : m.sequence < 2 ^ 64
    pub submission_time_u32 : m.submission_time < 2 ^ 32
    pub no_event : window 8 8 (post_message_data D m.nonce m.finality m.payload) ≢ discriminator
    pub before_others : All (IsOther D.post_message_selector discriminator) m.before
    pub between_others : All (IsOther D.post_message_selector discriminator) m.between
    pub behind_others : All (IsOther D.post_message_selector discriminator) m.behind

  abbrev PostsHere : List Bytes → List PostedMessageInfo → Type 0
  PostsHere = Posts D.post_message_selector discriminator

  cpi_data-emit :
      (m : Emission)
      → IsEmission m
      → cpi_data (emit m).1 ≡ post_message_data D m.nonce m.finality m.payload ∷ []
  unfolding cpi_data
  cpi_data-emit m h =
      rw
        (
          post_message_data-posted_data D R m.nonce m.finality m.payload h.payload_u32,
          process_instruction-build_instruction_data_emit D R m.accounts m.nonce m.finality
              m.payload h.own h.shim h.nonce_u32 h.payload_u32,
        )
        (elim (Result-cases (
          R.invoke_signed (post_ix D R m.accounts m.nonce m.finality m.payload)
            (listed D R m.accounts) (emitter_seeds D R))) [
              | inl (_, e) ↦ rw e
              | inr (inl (_, e)) ↦ rw e
              | inr (inr e) ↦ rw e
            ])

  others-Posts :
      (xs : List Bytes) {ds : List Bytes} {ms : List PostedMessageInfo}
      → All (IsOther D.post_message_selector discriminator) xs
      → PostsHere ds ms
      → PostsHere (xs ++ ds) ms
  others-Posts [] h p = p
  others-Posts (x ∷ xs) (o, h) p = other x o (others-Posts xs h p)

  module _ (K : HasConstants) where
    inner_list-Posts :
        (m : Emission) (ds : List Bytes) (ms : List PostedMessageInfo)
        → IsEmission m
        → PostsHere ds ms
        → PostsHere (inner_list m ++ ds) (info_of m ∷ ms)
    unfolding from_event
    inner_list-Posts m ds ms h p =
        let call = post_message_data D m.nonce m.finality m.payload in
        let event = event_bytes D.post_message_selector discriminator anchor (event_of m) in
        let tail = m.between ++ (event ∷ m.behind) in
        rw
          (
            cpi_data-emit m h,
            append_assoc m.before (call ∷ tail) ds,
            append_assoc m.between (event ∷ m.behind) ds,
          )
          (others-Posts m.before h.before_others (
            message call event m.between
              (record { nonce = m.nonce; finality = m.finality; payload = m.payload }) (event_of m)
              (parse_post_message-post_message_data D discriminator m.nonce m.finality m.payload
                K.length-selector h.nonce_u32 h.payload_u32)
              (parse_message_event_err D.post_message_selector discriminator call h.no_event)
              h.between_others
              (parse_post_message-event_bytes D.post_message_selector discriminator anchor
                (event_of m) K.length-anchor K.anchor_differs)
              (parse_message_event-event_bytes D.post_message_selector discriminator anchor
                (event_of m) K.length-anchor K.length-discriminator K.length-emitter h.sequence_u64
                h.submission_time_u32)
              (others-Posts m.behind h.behind_others p)))

    every-Posts :
        (ms : List Emission)
        → All IsEmission ms
        → PostsHere (concat (map inner_list ms)) (map info_of ms)
    every-Posts [] h = done
    every-Posts (m ∷ ms) (hm, h) =
        inner_list-Posts m (concat (map inner_list ms)) (map info_of ms) hm (every-Posts ms h)

    -- If the constants have the lengths of their types and the event's anchor is not the selector,
    -- and the inner instructions of a transaction are those of emitter instructions that were given
    -- the program's own address and the shim, each with the one CPI that the program's run on the
    -- client's data makes, then the shim's event, with integers of their types, a call that does
    -- not carry the event's discriminator, and around them only instructions that parse as neither:
    -- then the extraction returns, in order, what each of them was asked to post, with the emitter,
    -- the sequence number and the time of its event.
    pub extract-emit :
        (ms : List Emission)
        → All IsEmission ms
        → extract_posted_message_info_from_tx D.post_message_selector discriminator
            (map inner_list ms)
          ≡ ok (map info_of ms)
    extract-emit ms h =
        extract-Posts D.post_message_selector discriminator (map inner_list ms) (map info_of ms)
          (every-Posts ms h)
