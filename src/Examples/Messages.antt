-- ===== src/Examples/Messages.antt =====
-- A posted message, read back from the inner instructions of its transaction.
use wormhole_svm_utils.Prelude.{
  ℕ, zero, suc, ◌<◌, ◌≡◌, ◌↔◌, All-append, refl, arith, [], ◌∷◌, ◌++◌, replicate,
}
use wormhole_svm_utils.Prelude.{ok, err, list_eq, nat_eq}
use wormhole_svm_utils.Prelude.Bytes.{Bytes, IsByte, AreBytes, from_le_bytes}
use wormhole_svm_utils.Prelude.Windows.{slice, slice_from, array_or}
use wormhole_svm_utils.Capture.{
  PostMessageData, MessageEvent, parse_post_message, parse_message_event,
}
use wormhole_svm_utils.Capture.{from_event, pair_up, extract_posted_message_info_from_tx}
use wormhole_svm_utils.Capture.Reading.Events.{IsEvent, parse_message_event-IsEvent}
use wormhole_svm_utils.Capture.Reading.Messages.{IsMessage, parse_post_message-IsMessage}
use wormhole_svm_utils.Capture.Extraction.{posts, events, extract_ok, done, message, extract-Posts}

abbrev pub selector : Bytes
selector = replicate 8 5

abbrev pub discriminator : Bytes
discriminator = replicate 8 6

abbrev event : MessageEvent
event = record { emitter = replicate 32 4; sequence = 300; submission_time = 1700000000 }

abbrev numbers : Bytes
numbers = 44 ∷ 1 ∷ 0 ∷ 0 ∷ 0 ∷ 0 ∷ 0 ∷ 0 ∷ 0 ∷ 241 ∷ 83 ∷ 101 ∷ []

abbrev fields : Bytes
fields = replicate 32 4 ++ numbers

abbrev event_data : Bytes
event_data = replicate 8 228 ++ (discriminator ++ fields)

abbrev call_data : Bytes
call_data = selector ++ (6 ∷ 0 ∷ 0 ∷ 0 ∷ 1 ∷ 2 ∷ 0 ∷ 0 ∷ 0 ∷ 7 ∷ 8 ∷ [])

abbrev call : PostMessageData
call = record { nonce = 6; finality = 1; payload = 7 ∷ 8 ∷ [] }

repeated : (n b : ℕ) → b < 256 → AreBytes (replicate n b)
repeated zero b h = tt
repeated (suc n) b h = (h, repeated n b h)

numbers-AreBytes : AreBytes numbers
numbers-AreBytes = (
  omega arith,
  (
    omega arith,
    (
      omega arith,
      (
        omega arith,
        (
          omega arith,
          (
            omega arith,
            (
              omega arith,
              (omega arith, (omega arith, (omega arith, (omega arith, (omega arith, tt))))),
            ),
          ),
        ),
      ),
    ),
  ),
)

event_data-AreBytes : AreBytes event_data
event_data-AreBytes =
    All-append IsByte (replicate 8 228) (discriminator ++ fields) (repeated 8 228 (omega arith)) (
      All-append IsByte discriminator fields (repeated 8 6 (omega arith))
        (All-append IsByte (replicate 32 4) numbers (repeated 32 4 (omega arith)) numbers-AreBytes))

parse_message_event-IsEvent_example :
    (parse_message_event selector discriminator event_data ≡ ok event)
    ↔ IsEvent selector discriminator event_data event
parse_message_event-IsEvent_example =
    parse_message_event-IsEvent selector discriminator event_data event event_data-AreBytes refl

call_data-AreBytes : AreBytes call_data
call_data-AreBytes =
    All-append IsByte selector (6 ∷ 0 ∷ 0 ∷ 0 ∷ 1 ∷ 2 ∷ 0 ∷ 0 ∷ 0 ∷ 7 ∷ 8 ∷ [])
      (repeated 8 5 (omega arith))
      (
        omega arith,
        (
          omega arith,
          (
            omega arith,
            (
              omega arith,
              (
                omega arith,
                (
                  omega arith,
                  (omega arith, (omega arith, (omega arith, (omega arith, (omega arith, tt))))),
                ),
              ),
            ),
          ),
        ),
      )

parse_post_message-IsMessage_example :
    (parse_post_message selector discriminator call_data ≡ ok call)
    ↔ IsMessage selector discriminator call_data call
parse_post_message-IsMessage_example =
    parse_post_message-IsMessage selector discriminator call_data call call_data-AreBytes refl

call-parse : parse_post_message selector discriminator call_data ≡ ok call
unfolding parse_post_message list_eq slice array_or from_le_bytes
call-parse = refl

call-no_event : parse_message_event selector discriminator call_data ≡ err tt
unfolding parse_message_event list_eq slice slice_from array_or from_le_bytes
call-no_event = refl

event-no_call : parse_post_message selector discriminator event_data ≡ err tt
unfolding parse_post_message list_eq slice array_or from_le_bytes
event-no_call = refl

event-parse : parse_message_event selector discriminator event_data ≡ ok event
unfolding parse_message_event list_eq slice slice_from array_or from_le_bytes
event-parse = refl

extract-Posts_example :
    extract_posted_message_info_from_tx selector discriminator ((call_data ∷ event_data ∷ []) ∷ [])
    ≡ ok (from_event event (7 ∷ 8 ∷ []) 6 1 ∷ [])
extract-Posts_example =
    extract-Posts selector discriminator ((call_data ∷ event_data ∷ []) ∷ [])
      (from_event event (7 ∷ 8 ∷ []) 6 1 ∷ [])
      (message call_data event_data [] call event call-parse call-no_event tt event-no_call
        event-parse done)

extract_ok_example :
    extract_posted_message_info_from_tx selector discriminator
      ((call_data ∷ []) ∷ (event_data ∷ []) ∷ [])
    ≡ ok (
        pair_up
          (posts selector discriminator (call_data ∷ event_data ∷ []))
          (events selector discriminator (call_data ∷ event_data ∷ [])))
extract_ok_example = extract_ok selector discriminator ((call_data ∷ []) ∷ (event_data ∷ []) ∷ [])
