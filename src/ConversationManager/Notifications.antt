-- ===== src/ConversationManager/Notifications.antt =====
-- `handleConversationNotification` and the subscription that calls it.
use anychat_sdk.Prelude.{
  String, Bool, not, ℤ, pos, Option, none, some, is_empty, same_text, if◌then◌else◌,
}
use anychat_sdk.Types.{Conversation, NotificationEvent}
use anychat_sdk.Cache.ConversationCache
use anychat_sdk.Json.Envelope.{same_int}
use anychat_sdk.ConversationManager.{Manager, Api, store, erase, tell}
use anychat_sdk.ConversationManager.Payloads.{
  value_or, NotificationConversationPayload, blank_conversation, notification_conversation_id,
  apply_notification_patch, is_conversation_notification,
}
use anychat_sdk.ConversationManager.Replies.{stamped}

-- `existing`, or a new conversation with the id.
abbrev pub cached_or_new : String → Option Conversation → Conversation
cached_or_new k none = record blank_conversation { conv_id = k }
cached_or_new k (some c) = c

unfoldable pub pin_time : ℤ → Option Bool → Conversation → Conversation
pin_time now pinned c =
    if not (value_or pinned c.is_pinned)
    then record c { pin_time_ms = pos 0 }
    else if same_int c.pin_time_ms (pos 0)
    then record c { pin_time_ms = now }
    else c

-- The conversation that a notification other than a deletion leaves.
unfoldable pub patched :
    ℤ → String → NotificationConversationPayload → String → Option Conversation → Conversation
unfolding apply_notification_patch pin_time
patched now type p k existing =
    let c = record (cached_or_new k existing) { conv_id = k } in
    let c = apply_notification_patch p c in
    let c = if same_text type "conversation.pin_updated" then pin_time now p.is_pinned c else c in
    stamped now c

module _ (api : Api) where
  open api use {read_notification}

  unfoldable pub apply_payload : ℤ → String → NotificationConversationPayload → Manager → Manager
  apply_payload now type p s =
      let k = notification_conversation_id p in
      if is_empty k
      then s
      else if same_text type "conversation.deleted"
      then tell (cached_or_new k (ConversationCache.get k s.cache)) (erase k s)
      else (let c = patched now type p k (ConversationCache.get k s.cache) in tell c (store c s))

  unfoldable pub handle_conversation_notification : ℤ → NotificationEvent → Manager → Manager
  handle_conversation_notification now event s =
      if is_empty event.payload then s else elim (read_notification event.payload) [
        | none ↦ s
        | some p ↦ apply_payload now event.notification_type p s
      ]

  -- The handler that the constructor adds to the notification manager.
  unfoldable pub on_notification : ℤ → NotificationEvent → Manager → Manager
  on_notification now event s =
      if is_conversation_notification event.notification_type
      then handle_conversation_notification now event s
      else s
