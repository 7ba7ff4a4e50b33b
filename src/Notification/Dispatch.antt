-- ===== src/Notification/Dispatch.antt =====
-- Which handlers a frame reaches.
use anychat_sdk.Prelude.{
  ℕ, String, ◌≡◌, ◌≢◌, ◌⊎◌, pos, refl, ap, inl, inr, arith, List, [], ◌∷◌, ◌++◌, Option, none, some,
  text_ne, is_empty, if◌then◌else◌,
}
use anychat_sdk.Types.{NotificationEvent}
use anychat_sdk.Json.Values.{parse_int64_value}
use anychat_sdk.Notification.{
  NotificationManager, WsFrame, Readers, Call, acked, notified, notify_all, ack_of,
  MsgSentAckPayload, handle_raw,
}

notify_all-append :
    (evt : NotificationEvent) (hs ks : List (Option ℕ))
    → notify_all evt (hs ++ ks) ≡ notify_all evt hs ++ notify_all evt ks
unfolding notify_all
notify_all-append evt [] ks = refl
notify_all-append evt (none ∷ hs) ks = notify_all-append evt hs ks
notify_all-append evt (some h ∷ hs) ks = ap (◌∷◌ (notified h evt)) (notify_all-append evt hs ks)

-- The handlers that are set.
abbrev pub set_handlers : List (Option ℕ) → List ℕ
set_handlers [] = []
set_handlers (none ∷ hs) = set_handlers hs
set_handlers (some h ∷ hs) = h ∷ set_handlers hs

-- The calls of the handlers with an event.
abbrev pub calls_with : NotificationEvent → List ℕ → List Call
calls_with evt [] = []
calls_with evt (h ∷ hs) = notified h evt ∷ calls_with evt hs

-- The text of `data` that the handlers get: an empty object where there is none.
abbrev pub data_text : Option String → String
data_text none = "{}"
data_text (some raw) = if is_empty raw then "{}" else raw

-- A text that is no frame, and a frame of another type than the three, reaches no handler.
other_frames_silent :
    (readers : Readers) (raw : String) (m : NotificationManager)
    → ((readers.read_frame raw ≡ none)
        ⊎ ((frame : WsFrame) × (readers.read_frame raw ≡ some frame)
            × (frame.type ≢ "pong")
            × (frame.type ≢ "message.sent")
            × (frame.type ≢ "notification")))
    → handle_raw readers raw m ≡ []
unfolding handle_raw
other_frames_silent readers raw m (inl f) = ground arith
other_frames_silent readers raw m (inr (frame, f, a, b, c)) = ground arith

-- An acknowledgement reaches the handler of sent messages, if it is set, with the ids of the frame
-- and its numbers read, and no other handler.
ack_reaches_handler :
    (readers : Readers) (raw payload : String) (frame : WsFrame) (p : MsgSentAckPayload)
    (m : NotificationManager)
    → readers.read_frame raw ≡ some frame
    → frame.type ≡ "message.sent"
    → frame.payload ≡ some payload
    → payload ≢ ""
    → readers.read_ack payload ≡ some p
    → handle_raw readers raw m ≡ elim m.on_msg_sent [
      | none ↦ []
      | some h ↦
          acked h (record {
            message_id = p.message_id;
            sequence = parse_int64_value p.sequence (pos 0);
            timestamp = parse_int64_value p.timestamp (pos 0);
            local_id = p.local_id;
          })
          ∷ []
    ]
unfolding handle_raw ack_of
ack_reaches_handler readers raw payload frame p m f t e n r =
    ground (arith, f, text_ne "message.sent" "" refl, text_ne "message.sent" "pong" refl)
