-- ===== src/Capture/Extraction.antt =====
-- `extract_posted_message_info_from_tx`: which messages it returns, and in which order.
use wormhole_svm_utils.Prelude.{◌≡◌, ◌≢◌, refl, ap, ◌∙◌}
use wormhole_svm_utils.Prelude.{List, [], ◌∷◌, ◌++◌, concat, All, append_assoc, ok, err, panic}
use wormhole_svm_utils.Prelude.Bytes.{Bytes}
use wormhole_svm_utils.Capture.{PostMessageData, MessageEvent, PostedMessageInfo, Maybe, pushed}
use wormhole_svm_utils.Capture.{parse_post_message, parse_message_event, pair_up, scan_list, scan}
use wormhole_svm_utils.Capture.{from_event, extract_posted_message_info_from_tx}
use wormhole_svm_utils.Capture.Parsing.{parse_post_message-ne-panic, parse_message_event-ne-panic}

-- The value of a parse, if there is one.
abbrev taken : {A : Type 0} → Maybe A → List A
taken (ok a) = a ∷ []
taken (err _) = []
taken panic = []

pushed-taken : {A : Type 0} (m : Maybe A) → m ≢ panic → pushed m ≡ ok (taken m)
pushed-taken (ok a) h = refl
pushed-taken (err _) h = refl
pushed-taken panic h = absurd (h refl)

module _ (selector discriminator : Bytes) where
  -- What the instructions in a list parse to.
  unfoldable pub posts : List Bytes → List PostMessageData
  posts [] = []
  posts (d ∷ ds) = taken (parse_post_message selector discriminator d) ++ posts ds

  unfoldable pub events : List Bytes → List MessageEvent
  events [] = []
  events (d ∷ ds) = taken (parse_message_event selector discriminator d) ++ events ds

  posts-append : (xs ys : List Bytes) → posts (xs ++ ys) ≡ posts xs ++ posts ys
  unfolding posts
  posts-append [] ys = refl
  posts-append (x ∷ xs) ys = rw (posts-append xs ys, append_assoc)

  events-append : (xs ys : List Bytes) → events (xs ++ ys) ≡ events xs ++ events ys
  unfolding events
  events-append [] ys = refl
  events-append (x ∷ xs) ys = rw (events-append xs ys, append_assoc)

  scan_list_ok : (l : List Bytes) → scan_list selector discriminator l ≡ ok (posts l, events l)
  unfolding scan_list posts events
  scan_list_ok [] = refl
  scan_list_ok (d ∷ l) = rw (
    pushed-taken (parse_post_message selector discriminator d)
        (parse_post_message-ne-panic selector discriminator d),
    pushed-taken (parse_message_event selector discriminator d)
        (parse_message_event-ne-panic selector discriminator d),
    scan_list_ok l,
  )

  scan_ok :
      (ls : List (List Bytes))
      → scan selector discriminator ls ≡ ok (posts (concat ls), events (concat ls))
  unfolding scan
  scan_ok [] = unfold posts events in refl
  scan_ok (l ∷ ls) =
      rw (scan_list_ok l, scan_ok ls, posts-append l (concat ls), events-append l (concat ls))

  -- The extraction never panics; how the inner instructions are divided into lists does not matter;
  -- and it pairs the parsed calls with the parsed events in order.
  pub extract_ok :
      (ls : List (List Bytes))
      → extract_posted_message_info_from_tx selector discriminator ls
        ≡ ok (pair_up (posts (concat ls)) (events (concat ls)))
  unfolding extract_posted_message_info_from_tx
  extract_ok ls = rw (scan_ok ls)

  -- An instruction that is neither a call of `post_message` nor an event.
  abbrev pub IsOther : Bytes → Type 0
  IsOther d =
      (parse_post_message selector discriminator d ≡ err tt)
      × (parse_message_event selector discriminator d ≡ err tt)

  -- Inner instructions that post messages one after the other: each call is followed by its
  -- event, with other instructions before, between and behind.
  pub data Posts : List Bytes → List PostedMessageInfo → Type 0 where
    done : Posts [] []
    other :
        (d : Bytes) {ds : List Bytes} {ms : List PostedMessageInfo}
        → IsOther d
        → Posts ds ms
        → Posts (d ∷ ds) ms
    message :
        (c e : Bytes) (between : List Bytes) (p : PostMessageData) (v : MessageEvent)
        {ds : List Bytes} {ms : List PostedMessageInfo}
        → parse_post_message selector discriminator c ≡ ok p
        → parse_message_event selector discriminator c ≡ err tt
        → All IsOther between
        → parse_post_message selector discriminator e ≡ err tt
        → parse_message_event selector discriminator e ≡ ok v
        → Posts ds ms
        → Posts (c ∷ (between ++ (e ∷ ds))) (from_event v p.payload p.nonce p.finality ∷ ms)

  posts_of_others : (ds : List Bytes) → All IsOther ds → posts ds ≡ []
  unfolding posts
  posts_of_others [] h = refl
  posts_of_others (d ∷ ds) (o, h) = rw (o.0, posts_of_others ds h)

  events_of_others : (ds : List Bytes) → All IsOther ds → events ds ≡ []
  unfolding events
  events_of_others [] h = refl
  events_of_others (d ∷ ds) (o, h) = rw (o.1, events_of_others ds h)

  pair_up-Posts :
      {ds : List Bytes} {ms : List PostedMessageInfo}
      → Posts ds ms
      → pair_up (posts ds) (events ds) ≡ ms
  unfolding posts events pair_up
  pair_up-Posts done = refl
  pair_up-Posts (other d o rest) = rw (o.0, o.1) (pair_up-Posts rest)
  pair_up-Posts (message c e between p v {ds} {ms} pc ec others pe ee rest) =
      rw
        (
          pc,
          ec,
          posts-append between (e ∷ ds),
          events-append between (e ∷ ds),
          posts_of_others between others,
          events_of_others between others,
          pe,
          ee,
        )
        (ap (λ (t : List PostedMessageInfo). from_event v p.payload p.nonce p.finality ∷ t)
          (pair_up-Posts rest))

  -- If the inner instructions, in order, are the calls of some messages, each followed by its
  -- event, among instructions that parse as neither, then the extraction returns just these
  -- messages in this order.
  pub extract-Posts :
      (ls : List (List Bytes)) (ms : List PostedMessageInfo)
      → Posts (concat ls) ms
      → extract_posted_message_info_from_tx selector discriminator ls ≡ ok ms
  extract-Posts ls ms posted = extract_ok ls ∙ ap ok (pair_up-Posts posted)
