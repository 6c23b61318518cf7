-- ===== src/Capture/Reading/Messages.antt =====
-- What `PostMessageData::parse` accepts.
use wormhole_svm_utils.Prelude.{
  ℕ, ◌+◌, ◌^◌, ◌<◌, ◌≤◌, ◌≡◌, ◌↔◌, refl, ap, ◌∙◌, subst, arith, [], ◌∷◌, ◌++◌, length, drop,
  get_elem?, some, ok, err, ◌==◌, list_eq, ==_iff, Bool-cases, inl, inr, length-append,
  get_elem?_of_lt, get_elem?_of_drop,
}
use wormhole_svm_utils.Prelude.Bytes.{
  Bytes, AreBytes, to_le_bytes, from_le_bytes, length-to_le_bytes, from_le_bytes-to_le_bytes,
}
use wormhole_svm_utils.Prelude.Windows.{
  window, window-at, drop-past, length-window, slice_ok, array_or_ok,
}
use wormhole_svm_utils.Capture.{PostMessageData, parse_post_message}
use wormhole_svm_utils.Capture.Parsing.{parse_post_message_ok}
use wormhole_svm_utils.Capture.Crossing.{parse_post_message_err}
use native.Mathlib.Decide.{dec_le}
use wormhole_svm_utils.Prelude.Words.{
  window-append-drop, drop-get_elem?, word-window, from_le_bytes-window-lt,
}

module _ (selector discriminator : Bytes) where
  -- The selector, the nonce, the finality and the length of the payload in the words of their
  -- types, the payload, and anything behind.
  pub record IsMessage (raw : Bytes) (m : PostMessageData) : Type 0 where
    pub behind : Bytes
    pub nonce_u32 : m.nonce < 2 ^ 32
    pub payload_u32 : length m.payload < 2 ^ 32
    pub layout :
        raw
        ≡ selector
          ++ (to_le_bytes 4 m.nonce
              ++ (m.finality ∷ (to_le_bytes 4 (length m.payload) ++ (m.payload ++ behind))))

  IsMessage-parse :
      (raw : Bytes) (m : PostMessageData)
      → length selector ≡ 8
      → IsMessage raw m
      → parse_post_message selector discriminator raw ≡ ok m
  IsMessage-parse raw m hs i =
      let n = length m.payload in
      let first = to_le_bytes 4 m.nonce in
      let word = to_le_bytes 4 n in
      let last = m.payload ++ i.behind in
      let tail = m.finality ∷ (word ++ last) in
      let four : length first ≡ 4 = length-to_le_bytes 4 m.nonce in
      let four' : length word ≡ 4 = length-to_le_bytes 4 n in
      let at_8 : drop 8 raw ≡ first ++ tail =
        drop-past raw selector (first ++ tail) 0 8 i.layout hs 8 refl in
      let at_12 : drop 12 raw ≡ (m.finality ∷ []) ++ (word ++ last) =
        drop-past raw first tail 8 4 at_8 four 12 refl in
      let at_13 : drop 13 raw ≡ word ++ last =
        drop-past raw (m.finality ∷ []) (word ++ last) 12 1 at_12 refl 13 refl in
      let at_17 : drop 17 raw ≡ last = drop-past raw word last 13 4 at_13 four' 17 refl in
      let value : from_le_bytes (window 13 4 raw) ≡ n =
        ap from_le_bytes (window-at raw word last 13 4 at_13 four')
        ∙ from_le_bytes-to_le_bytes 4 n i.payload_u32 in
      let size : 17 + n ≤ length raw = omega (
        arith,
        ap length i.layout,
        length-append selector (first ++ tail),
        length-append first tail,
        length-append word last,
        length-append m.payload i.behind,
      ) in
      rw (
        parse_post_message_ok selector discriminator raw m.finality n
            (window-at raw selector (first ++ tail) 0 8 i.layout hs)
            (get_elem?_of_drop 12 raw (word ++ last) m.finality at_12) value size,
        window-at raw first tail 8 4 at_8 four,
        window-at raw m.payload i.behind 17 n at_17 refl,
        from_le_bytes-to_le_bytes 4 m.nonce i.nonce_u32,
      )

  abbrev message_at : Bytes → ℕ → PostMessageData
  message_at raw finality = record {
    nonce = from_le_bytes (window 8 4 raw);
    finality = finality;
    payload = window 17 (from_le_bytes (window 13 4 raw)) raw;
  }

  message_at-IsMessage :
      (raw : Bytes) (finality : ℕ)
      → AreBytes raw
      → window 0 8 raw ≡ selector
      → get_elem? raw 12 ≡ some finality
      → 17 + from_le_bytes (window 13 4 raw) ≤ length raw
      → IsMessage raw (message_at raw finality)
  message_at-IsMessage raw finality bytes sel at h =
      let n = from_le_bytes (window 13 4 raw) in
      let whole : length (window 17 n raw) ≡ n = length-window 17 n raw h in
      let below : n < 2 ^ 32 = from_le_bytes-window-lt 13 4 raw bytes (omega arith) in
      record {
        behind = drop (17 + n) raw;
        nonce_u32 = from_le_bytes-window-lt 8 4 raw bytes (omega arith);
        payload_u32 = omega arith;
        layout = rw (
          whole,
          word-window 8 4 raw bytes (omega arith),
          word-window 13 4 raw bytes (omega arith),
          window-append-drop 17 n (17 + n) raw refl,
          window-append-drop 13 4 17 raw refl,
          ← drop-get_elem? 12 raw finality at,
          window-append-drop 8 4 12 raw refl,
          ← sel,
          window-append-drop 0 8 8 raw refl,
        );
      }

  header_of_parse :
      (raw : Bytes) (m : PostMessageData)
      → parse_post_message selector discriminator raw ≡ ok m
      → 17 ≤ length raw
  unfolding parse_post_message
  header_of_parse raw m h = elim (dec_le 17 (length raw)) [
    | no short ↦ ground arith
    | yes long ↦ long
  ]

  selector_of_parse :
      (raw : Bytes) (m : PostMessageData)
      → parse_post_message selector discriminator raw ≡ ok m
      → window 0 8 raw ≡ selector
  selector_of_parse raw m h = elim (Bool-cases (window 0 8 raw == selector)) [
    | inl same ↦ (==_iff (window 0 8 raw) selector).0 same
    | inr other ↦
        let unread =
          parse_post_message_err selector discriminator raw
            (λ sel. let same = (==_iff (window 0 8 raw) selector).1 sel in cc) in
        cc
  ]

  length-parse_post_message :
      (raw : Bytes) (m : PostMessageData)
      → parse_post_message selector discriminator raw ≡ ok m
      → 17 + from_le_bytes (window 13 4 raw) ≤ length raw
  unfolding parse_post_message
  length-parse_post_message raw m h =
      let header = header_of_parse raw m h in
      let n = from_le_bytes (window 13 4 raw) in
      let (finality, at) = get_elem?_of_lt 12 raw (omega arith) in
      elim (dec_le (17 + n) (length raw)) [
        | yes whole ↦ whole
        | no cut ↦ ground (
          arith,
          slice_ok {E = Unit {0}} 0 8 raw (omega arith) (omega arith),
          array_or_ok {E = Unit {0}} (err tt) 4 8 12 raw (omega arith) (omega arith),
          array_or_ok {E = Unit {0}} (err tt) 4 13 17 raw (omega arith) (omega arith),
        )
      ]

  -- If the selector has 8 bytes, `PostMessageData::parse` reads a message from bytes exactly where
  -- these are the selector, the nonce in a little-endian u32, the finality, the payload's length in
  -- a little-endian u32, the payload, and anything behind.
  pub parse_post_message-IsMessage :
      (raw : Bytes) (m : PostMessageData)
      → AreBytes raw
      → length selector ≡ 8
      → (parse_post_message selector discriminator raw ≡ ok m) ↔ IsMessage raw m
  parse_post_message-IsMessage raw m bytes hs = (
    λ h.
        let whole = length-parse_post_message raw m h in
        let sel = selector_of_parse raw m h in
        let (finality, at) = get_elem?_of_lt 12 raw (omega arith) in
        let read : message_at raw finality ≡ m =
          let reading =
            parse_post_message_ok selector discriminator raw finality _ sel at refl whole in
          cc in
        subst (IsMessage raw) read (message_at-IsMessage raw finality bytes sel at whole),
    IsMessage-parse raw m hs,
  )
