-- ===== src/Capture/Reading/Events.antt =====
-- What `MessageEvent::parse` accepts.
use wormhole_svm_utils.Prelude.{
  ◌^◌, ◌<◌, ◌≤◌, ◌≡◌, ◌↔◌, refl, ap, subst, arith, ◌++◌, length, drop, ok, ◌==◌, list_eq, ==_iff,
  Bool-cases, inl, inr, length-append, length-drop,
}
use wormhole_svm_utils.Prelude.Bytes.{
  Bytes, IsByte, AreBytes, to_le_bytes, from_le_bytes, length-to_le_bytes,
  from_le_bytes-to_le_bytes,
}
use wormhole_svm_utils.Prelude.Windows.{window, window-at, drop-past, length-window}
use wormhole_svm_utils.Capture.{MessageEvent, parse_message_event}
use wormhole_svm_utils.Capture.Parsing.{parse_message_event_ok}
use wormhole_svm_utils.Capture.Crossing.{parse_message_event_err}
use native.Mathlib.Decide.{dec_le}
use wormhole_svm_utils.Prelude.Words.{
  All-drop, window-append-drop, word-window, from_le_bytes-window-lt,
}

module _ (selector discriminator : Bytes) where
  -- Eight bytes of any value, the discriminator, the event with numbers of their types, and
  -- anything behind.
  pub record IsEvent (raw : Bytes) (e : MessageEvent) : Type 0 where
    pub anchor : Bytes
    pub behind : Bytes
    pub length-anchor : length anchor ≡ 8
    pub length-emitter : length e.emitter ≡ 32
    pub sequence_u64 : e.sequence < 2 ^ 64
    pub submission_time_u32 : e.submission_time < 2 ^ 32
    pub layout :
        raw
        ≡ anchor
          ++ (discriminator
              ++ (e.emitter
                  ++ (to_le_bytes 8 e.sequence ++ (to_le_bytes 4 e.submission_time ++ behind))))

  IsEvent-parse :
      (raw : Bytes) (e : MessageEvent)
      → length discriminator ≡ 8
      → IsEvent raw e
      → parse_message_event selector discriminator raw ≡ ok e
  IsEvent-parse raw e hd i =
      let times = to_le_bytes 4 e.submission_time ++ i.behind in
      let words = to_le_bytes 8 e.sequence ++ times in
      let tail = e.emitter ++ words in
      let eight = length-to_le_bytes 8 e.sequence in
      let four = length-to_le_bytes 4 e.submission_time in
      let at_8 : drop 8 raw ≡ discriminator ++ tail =
        drop-past raw i.anchor (discriminator ++ tail) 0 8 i.layout i.length-anchor 8 refl in
      let at_16 : drop 16 raw ≡ tail = drop-past raw discriminator tail 8 8 at_8 hd 16 refl in
      let at_32 : drop 32 tail ≡ words =
        drop-past tail e.emitter words 0 32 refl i.length-emitter 32 refl in
      let at_40 : drop 40 tail ≡ times =
        drop-past tail (to_le_bytes 8 e.sequence) times 32 8 at_32 eight 40 refl in
      let size : 60 ≤ length raw = omega (
        arith,
        ap length i.layout,
        length-append i.anchor (discriminator ++ tail),
        length-append discriminator tail,
        length-append e.emitter words,
        length-append (to_le_bytes 8 e.sequence) times,
        length-append (to_le_bytes 4 e.submission_time) i.behind,
      ) in
      rw (
        parse_message_event_ok selector discriminator raw
            (window-at raw discriminator tail 8 8 at_8 hd) size,
        at_16,
        window-at tail e.emitter words 0 32 refl i.length-emitter,
        window-at tail (to_le_bytes 8 e.sequence) times 32 8 at_32 eight,
        window-at tail (to_le_bytes 4 e.submission_time) i.behind 40 4 at_40 four,
        from_le_bytes-to_le_bytes 8 e.sequence i.sequence_u64,
        from_le_bytes-to_le_bytes 4 e.submission_time i.submission_time_u32,
      )

  abbrev event_at : Bytes → MessageEvent
  event_at tail = record {
    emitter = window 0 32 tail;
    sequence = from_le_bytes (window 32 8 tail);
    submission_time = from_le_bytes (window 40 4 tail);
  }

  event_at-IsEvent :
      (raw : Bytes)
      → AreBytes raw
      → window 8 8 raw ≡ discriminator
      → 60 ≤ length raw
      → IsEvent raw (event_at (drop 16 raw))
  event_at-IsEvent raw bytes disc h =
      let tail = drop 16 raw in
      let size : 44 ≤ length tail = omega (arith, length-drop 16 raw) in
      let tail_bytes = All-drop IsByte 16 raw bytes in
      record {
        anchor = window 0 8 raw;
        behind = drop 44 tail;
        length-anchor = length-window 0 8 raw (omega arith);
        length-emitter = length-window 0 32 tail (omega arith);
        sequence_u64 = from_le_bytes-window-lt 32 8 tail tail_bytes (omega arith);
        submission_time_u32 = from_le_bytes-window-lt 40 4 tail tail_bytes (omega arith);
        layout = rw (
          word-window 32 8 tail tail_bytes (omega arith),
          word-window 40 4 tail tail_bytes (omega arith),
          window-append-drop 40 4 44 tail refl,
          window-append-drop 32 8 40 tail refl,
          window-append-drop 0 32 32 tail refl,
          ← disc,
          window-append-drop 8 8 16 raw refl,
          window-append-drop 0 8 8 raw refl,
        );
      }

  length-parse_message_event :
      (raw : Bytes) (e : MessageEvent)
      → parse_message_event selector discriminator raw ≡ ok e
      → 60 ≤ length raw
  unfolding parse_message_event
  length-parse_message_event raw e h = elim (dec_le 60 (length raw)) [
    | no short ↦ ground arith
    | yes long ↦ long
  ]

  discriminator_of_parse :
      (raw : Bytes) (e : MessageEvent)
      → parse_message_event selector discriminator raw ≡ ok e
      → window 8 8 raw ≡ discriminator
  discriminator_of_parse raw e h = elim (Bool-cases (window 8 8 raw == discriminator)) [
    | inl same ↦ (==_iff (window 8 8 raw) discriminator).0 same
    | inr other ↦
        let unread =
          parse_message_event_err selector discriminator raw
            (λ disc. let same = (==_iff (window 8 8 raw) discriminator).1 disc in cc) in
        cc
  ]

  -- If the discriminator has 8 bytes, `MessageEvent::parse` reads an event from bytes exactly where
  -- these are any eight bytes, the discriminator, the emitter of 32 bytes, the sequence number in a
  -- little-endian u64, the time in a little-endian u32, and anything behind.
  pub parse_message_event-IsEvent :
      (raw : Bytes) (e : MessageEvent)
      → AreBytes raw
      → length discriminator ≡ 8
      → (parse_message_event selector discriminator raw ≡ ok e) ↔ IsEvent raw e
  parse_message_event-IsEvent raw e bytes hd = (
    λ h.
        let long = length-parse_message_event raw e h in
        let disc = discriminator_of_parse raw e h in
        let read : event_at (drop 16 raw) ≡ e =
          let whole = parse_message_event_ok selector discriminator raw disc long in cc in
        subst (IsEvent raw) read (event_at-IsEvent raw bytes disc long),
    IsEvent-parse raw e hd,
  )
