-- ===== src/Capture/Parsing.antt =====
-- The two parsers on every input, and on what the programs write.
use wormhole_svm_utils.Prelude.{ℕ, ◌+◌, ◌-◌, ◌%◌, ◌^◌, ◌≤◌, ◌<◌, ◌≡◌, ◌≢◌, refl, ap, ◌∙◌, arith}
use wormhole_svm_utils.Prelude.{[], ◌∷◌, ◌++◌, length, drop, get_elem?, some, ok, err, panic}
use wormhole_svm_utils.Prelude.{length-append, ◌==◌, list_eq, ==_iff}
use wormhole_svm_utils.Prelude.{true, get_elem?_of_lt, get_elem?_of_drop, length-drop}
use wormhole_svm_utils.Prelude.Bytes.{Bytes, to_le_bytes, from_le_bytes}
use wormhole_svm_utils.Prelude.Bytes.{length-to_le_bytes, from_le_bytes-to_le_bytes}
use wormhole_svm_utils.Prelude.Windows.{
  window, window-at, window-all, drop-past, slice_ok, array_or_ok,
}
use wormhole_svm_utils.Prelude.Windows.{slice_from_ok}
use wormhole_svm_utils.Emitter.{EmitterDeps, post_message_data}
use wormhole_svm_utils.Capture.{MessageEvent, parse_post_message, parse_message_event}
use native.Mathlib.Decide.{dec_le}

module _ (selector discriminator : Bytes) where
  -- An instruction with the selector and a whole payload is read.
  pub parse_post_message_ok :
      (bytes : Bytes) (finality n : ℕ)
      → window 0 8 bytes ≡ selector
      → get_elem? bytes 12 ≡ some finality
      → from_le_bytes (window 13 4 bytes) ≡ n
      → 17 + n ≤ length bytes
      → parse_post_message selector discriminator bytes
        ≡ ok (record {
          nonce = from_le_bytes (window 8 4 bytes);
          finality = finality;
          payload = window 17 n bytes;
        })
  unfolding parse_post_message
  parse_post_message_ok bytes finality n sel at e h =
      let size : 17 + n - 17 ≡ n = omega arith in
      let same : (window 0 8 bytes == selector) ≡ true =
        (==_iff (window 0 8 bytes) selector).1 sel in
      ground (
        arith,
        slice_ok {E = Unit {0}} 0 8 bytes (omega arith) (omega arith),
        array_or_ok {E = Unit {0}} (err tt) 4 8 12 bytes (omega arith) (omega arith),
        array_or_ok {E = Unit {0}} (err tt) 4 13 17 bytes (omega arith) (omega arith),
        slice_ok {E = Unit {0}} 17 (17 + n) bytes (omega arith) h,
      )

  -- No slice expression of `PostMessageData::parse` is out of range: it does not panic, on any
  -- input.
  pub parse_post_message-ne-panic :
      (bytes : Bytes) → parse_post_message selector discriminator bytes ≢ panic
  unfolding parse_post_message
  parse_post_message-ne-panic bytes = elim (dec_le 17 (length bytes)) [
    | no short ↦ ground arith
    | yes header ↦
        let n = from_le_bytes (window 13 4 bytes) in
        let size : 17 + n - 17 ≡ n = omega arith in
        let (finality, at) = get_elem?_of_lt 12 bytes (omega arith) in
        elim (dec_le (17 + n) (length bytes)) [
          | no cut ↦ ground (
            arith,
            slice_ok {E = Unit {0}} 0 8 bytes (omega arith) (omega arith),
            array_or_ok {E = Unit {0}} (err tt) 4 8 12 bytes (omega arith) (omega arith),
            array_or_ok {E = Unit {0}} (err tt) 4 13 17 bytes (omega arith) (omega arith),
          )
          | yes whole ↦ ground (
            arith,
            slice_ok {E = Unit {0}} 0 8 bytes (omega arith) (omega arith),
            array_or_ok {E = Unit {0}} (err tt) 4 8 12 bytes (omega arith) (omega arith),
            array_or_ok {E = Unit {0}} (err tt) 4 13 17 bytes (omega arith) (omega arith),
            slice_ok {E = Unit {0}} 17 (17 + n) bytes (omega arith) whole,
          )
        ]
  ]

  pub parse_message_event_ok :
      (bytes : Bytes)
      → window 8 8 bytes ≡ discriminator
      → 60 ≤ length bytes
      → parse_message_event selector discriminator bytes
        ≡ ok (record {
          emitter = window 0 32 (drop 16 bytes);
          sequence = from_le_bytes (window 32 8 (drop 16 bytes));
          submission_time = from_le_bytes (window 40 4 (drop 16 bytes));
        })
  unfolding parse_message_event
  parse_message_event_ok bytes disc h =
      let same : (window 8 8 bytes == discriminator) ≡ true =
        (==_iff (window 8 8 bytes) discriminator).1 disc in
      let rest : 44 ≤ length (drop 16 bytes) = omega (arith, length-drop 16 bytes) in
      ground (
        arith,
        slice_ok {E = Unit {0}} 8 16 bytes (omega arith) (omega arith),
        slice_from_ok {E = Unit {0}} 16 bytes (omega arith),
        array_or_ok {E = Unit {0}} (err tt) 32 0 32 (drop 16 bytes) (omega arith) (omega arith),
        array_or_ok {E = Unit {0}} (err tt) 8 32 40 (drop 16 bytes) (omega arith) (omega arith),
        array_or_ok {E = Unit {0}} (err tt) 4 40 44 (drop 16 bytes) (omega arith) (omega arith),
      )

  pub parse_message_event-ne-panic :
      (bytes : Bytes) → parse_message_event selector discriminator bytes ≢ panic
  unfolding parse_message_event
  parse_message_event-ne-panic bytes = elim (dec_le 60 (length bytes)) [
    | no short ↦ ground arith
    | yes h ↦
        let rest : 44 ≤ length (drop 16 bytes) = omega (arith, length-drop 16 bytes) in
        ground (
          arith,
          slice_ok {E = Unit {0}} 8 16 bytes (omega arith) (omega arith),
          slice_from_ok {E = Unit {0}} 16 bytes (omega arith),
          array_or_ok {E = Unit {0}} (err tt) 32 0 32 (drop 16 bytes) (omega arith) (omega arith),
          array_or_ok {E = Unit {0}} (err tt) 8 32 40 (drop 16 bytes) (omega arith) (omega arith),
          array_or_ok {E = Unit {0}} (err tt) 4 40 44 (drop 16 bytes) (omega arith) (omega arith),
        )
  ]

  -- The bytes of the self-CPI that reports a message: eight bytes of Anchor's, the discriminator,
  -- and the event.
  unfoldable pub event_bytes : Bytes → MessageEvent → Bytes
  event_bytes anchor e =
      anchor
      ++ (discriminator
          ++ (e.emitter ++ (to_le_bytes 8 e.sequence ++ to_le_bytes 4 e.submission_time)))

  -- If the anchor and the discriminator have 8 bytes and the event's fields are of their types, an
  -- event is read back from its bytes.
  pub parse_message_event-event_bytes :
      (anchor : Bytes) (e : MessageEvent)
      → length anchor ≡ 8
      → length discriminator ≡ 8
      → length e.emitter ≡ 32
      → e.sequence < 2 ^ 64
      → e.submission_time < 2 ^ 32
      → parse_message_event selector discriminator (event_bytes anchor e) ≡ ok e
  unfolding event_bytes
  parse_message_event-event_bytes anchor e ha hd he hs ht =
      let words = to_le_bytes 8 e.sequence ++ to_le_bytes 4 e.submission_time in
      let tail = e.emitter ++ words in
      let raw = anchor ++ (discriminator ++ tail) in
      let eight = length-to_le_bytes 8 e.sequence in
      let four = length-to_le_bytes 4 e.submission_time in
      let at_8 : drop 8 raw ≡ discriminator ++ tail =
        drop-past raw anchor (discriminator ++ tail) 0 8 refl ha 8 refl in
      let at_16 : drop 16 raw ≡ tail = drop-past raw discriminator tail 8 8 at_8 hd 16 refl in
      let at_32 : drop 32 tail ≡ words = drop-past tail e.emitter words 0 32 refl he 32 refl in
      let at_40 : drop 40 tail ≡ to_le_bytes 4 e.submission_time =
        drop-past tail (to_le_bytes 8 e.sequence) (to_le_bytes 4 e.submission_time) 32 8 at_32 eight
          40 refl in
      let time : window 40 4 tail ≡ to_le_bytes 4 e.submission_time =
        unfold window in
        rw at_40 (unfold window in window-all (to_le_bytes 4 e.submission_time) 4 four) in
      let size : 60 ≤ length raw = omega (
        arith,
        length-append anchor (discriminator ++ tail),
        length-append discriminator tail,
        length-append e.emitter words,
        length-append (to_le_bytes 8 e.sequence) (to_le_bytes 4 e.submission_time),
      ) in
      rw (
        parse_message_event_ok raw (window-at raw discriminator tail 8 8 at_8 hd) size,
        at_16,
        window-at tail e.emitter words 0 32 refl he,
        window-at tail (to_le_bytes 8 e.sequence) (to_le_bytes 4 e.submission_time) 32 8 at_32
            eight,
        time,
        from_le_bytes-to_le_bytes 8 e.sequence hs,
        from_le_bytes-to_le_bytes 4 e.submission_time ht,
      )

-- With a selector of 8 bytes, a u32 nonce and a payload shorter than 2^32: the data of the CPI that
-- the emitter program makes is read back as the message that it posts.
pub parse_post_message-post_message_data :
    (D : EmitterDeps) (discriminator : Bytes) (nonce finality : ℕ) (payload : Bytes)
    → length D.post_message_selector ≡ 8
    → nonce < 2 ^ 32
    → length payload < 2 ^ 32
    → parse_post_message D.post_message_selector discriminator
        (post_message_data D nonce finality payload)
      ≡ ok (record { nonce = nonce; finality = finality; payload = payload })
unfolding post_message_data
parse_post_message-post_message_data D discriminator nonce finality payload hs hn hp =
    let n = length payload in
    let first = to_le_bytes 4 nonce in
    let word = to_le_bytes 4 (n % 2 ^ 32) in
    let tail = finality ∷ (word ++ payload) in
    let raw = D.post_message_selector ++ (first ++ tail) in
    let four : length first ≡ 4 = length-to_le_bytes 4 nonce in
    let four' : length word ≡ 4 = length-to_le_bytes 4 (n % 2 ^ 32) in
    let at_8 : drop 8 raw ≡ first ++ tail =
      drop-past raw D.post_message_selector (first ++ tail) 0 8 refl hs 8 refl in
    let at_12 : drop 12 raw ≡ (finality ∷ []) ++ (word ++ payload) =
      drop-past raw first tail 8 4 at_8 four 12 refl in
    let at_13 : drop 13 raw ≡ word ++ payload =
      drop-past raw (finality ∷ []) (word ++ payload) 12 1 at_12 refl 13 refl in
    let at_17 : drop 17 raw ≡ payload = drop-past raw word payload 13 4 at_13 four' 17 refl in
    let whole : window 17 n raw ≡ payload =
      unfold window in rw at_17 (unfold window in window-all payload n refl) in
    let value : from_le_bytes (window 13 4 raw) ≡ n =
      ap from_le_bytes (window-at raw word payload 13 4 at_13 four')
      ∙ from_le_bytes-to_le_bytes 4 (n % 2 ^ 32) (omega arith)
      ∙ omega arith in
    let number : from_le_bytes (window 8 4 raw) ≡ nonce =
      ap from_le_bytes (window-at raw first tail 8 4 at_8 four)
      ∙ from_le_bytes-to_le_bytes 4 nonce hn in
    let at : get_elem? raw 12 ≡ some finality =
      get_elem?_of_drop 12 raw (word ++ payload) finality at_12 in
    let size : 17 + n ≤ length raw = omega (
      arith,
      length-append D.post_message_selector (first ++ tail),
      length-append first tail,
      length-append word payload,
    ) in
    rw (
      parse_post_message_ok D.post_message_selector discriminator raw finality n
          (window-at raw D.post_message_selector (first ++ tail) 0 8 refl hs) at value size,
      number,
      whole,
    )
