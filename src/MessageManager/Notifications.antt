-- ===== src/MessageManager/Notifications.antt =====
-- The handlers of the notifications that concern messages, and the subscription that calls them.
use anychat_sdk.Prelude.{
  String, Bool, not, ◌&&◌, ℤ, pos, ltb_ℤ, Option, none, some, is_empty, same_text, if◌then◌else◌,
}
use anychat_sdk.Types.{Message, NotificationEvent}
use anychat_sdk.Cache.MessageCache
use anychat_sdk.Json.Envelope.{same_int}
use anychat_sdk.Json.Timestamps.{TimestampValue, parse_timestamp_ms}
use anychat_sdk.MessageManager.{
  Manager, Api, received, recalled, deleted, edited, mentioned, read_receipt, typing, tell,
  find_message, update_db, store, insert_cached,
}
use anychat_sdk.MessageManager.Payloads.{
  NotificationMessagePayload, NotificationReadReceiptPayload, NotificationTypingPayload,
  parse_message_from_notification, parse_read_receipt_from_notification,
  parse_typing_from_notification, normalize_epoch_ms,
}

-- `parseJsonObject`: an empty text is no object.
abbrev pub parse_object : {A : Type 0} → (String → Option A) → String → Option A
parse_object read s = if is_empty s then none else read s

-- The message's time, or what stands in for it where it has none.
abbrev pub timed : ℤ → Message → Message
timed t m = if same_int m.timestamp_ms (pos 0) then record m { timestamp_ms = t } else m

-- What the closures of `updateMessageById` write into the cached message.
abbrev pub take_recall : Message → Message → Message
take_recall msg cached = record cached {
  conv_id = (if is_empty msg.conv_id then cached.conv_id else msg.conv_id);
  content = (if is_empty msg.content then cached.content else msg.content);
  status = pos 1;
}

abbrev pub take_deletion : Message → Message → Message
take_deletion msg cached = record cached {
  conv_id = (if is_empty msg.conv_id then cached.conv_id else msg.conv_id);
  status = pos 2;
}

abbrev pub take_changes : Message → Message → Message
take_changes msg cached = record cached {
  content = (if is_empty msg.content then cached.content else msg.content);
  content_type =
      (if same_int msg.content_type (pos 0) then cached.content_type else msg.content_type);
  status = (if same_int msg.status (pos 0) then cached.status else msg.status);
}

abbrev pub content_of : Message → Option String
content_of m = if is_empty m.content then none else some m.content

-- A handler runs on the payload, if it can be read.
abbrev pub on_payload :
    {A : Type 0} → (String → Option A) → String → (A → Manager → Manager) → Manager → Manager
on_payload read raw handle s = elim (parse_object read raw) [ none ↦ s | some p ↦ handle p s ]

module _ (api : Api) where
  open api use {
    read_message_notification, read_receipt_notification, read_typing_notification, calendar_ms,
  }

  -- `if (!found && !msg.conv_id.empty()) msg_cache_->insert(msg);`
  unfoldable pub insert_if_new : Bool → Message → Manager → Manager
  insert_if_new found m s =
      if not found && not (is_empty m.conv_id) then insert_cached api m s else s

  -- `updateMessageById` with a closure that writes to the cached message and copies it to `msg`;
  -- where no message has the id and `msg` has a conversation, `msg` is cached.
  unfoldable pub patch_cached :
      (Message → Message → Message) → Message → Manager → Message × Manager
  patch_cached take msg s =
      let (cache, found) = MessageCache.update_message_by_id msg.message_id (take msg) s.cache in
      let m : Message = elim (find_message msg.message_id s.cache.buckets) [
        | none ↦ msg
        | some cached ↦ take msg cached
      ] in
      (m, insert_if_new found m (record s { cache = cache }))

  unfoldable pub handle_incoming : ℤ → NotificationMessagePayload → Manager → Manager
  unfolding parse_message_from_notification
  handle_incoming t p s =
      let m = parse_message_from_notification calendar_ms p in
      if is_empty m.message_id
      then s
      else (let m = timed (normalize_epoch_ms t) m in tell (received m) (store api m s))

  unfoldable pub handle_mentioned : ℤ → NotificationMessagePayload → Manager → Manager
  unfolding parse_message_from_notification
  handle_mentioned t p s =
      let m = parse_message_from_notification calendar_ms p in
      if is_empty m.message_id
      then s
      else (let m = timed (normalize_epoch_ms t) m in tell (mentioned m) (store api m s))

  -- The time of the event, where the payload has none of its own.
  abbrev pub event_time : ℤ → Option TimestampValue → ℤ
  event_time t none = normalize_epoch_ms t
  event_time t (some v) = parse_timestamp_ms calendar_ms (some v)

  unfoldable pub handle_recalled : ℤ → NotificationMessagePayload → Manager → Manager
  handle_recalled t p s =
      let m = parse_message_from_notification calendar_ms p in
      if is_empty m.message_id
      then s
      else (let m = timed (event_time t p.recalled_at) (record m { status = pos 1 }) in
          let r = patch_cached take_recall m s in
          tell (recalled r.0) (update_db r.0.message_id (pos 1) (content_of r.0) r.1))

  unfoldable pub handle_deleted : ℤ → NotificationMessagePayload → Manager → Manager
  handle_deleted t p s =
      let m = parse_message_from_notification calendar_ms p in
      if is_empty m.message_id
      then s
      else (let m = timed (event_time t p.deleted_at) (record m { status = pos 2 }) in
          let r = patch_cached take_deletion m s in
          tell (deleted r.0) (update_db r.0.message_id (pos 2) none r.1))

  unfoldable pub handle_edited : NotificationMessagePayload → Manager → Manager
  handle_edited p s =
      let m = parse_message_from_notification calendar_ms p in
      if is_empty m.message_id
      then s
      else (let r = patch_cached take_changes m s in
          tell (edited r.0) (update_db r.0.message_id r.0.status (content_of r.0) r.1))

  unfoldable pub handle_read_receipt : ℤ → NotificationReadReceiptPayload → Manager → Manager
  handle_read_receipt t p s =
      let e = parse_read_receipt_from_notification calendar_ms p in
      tell
        (read_receipt (
          if same_int e.read_at_ms (pos 0)
          then record e { read_at_ms = normalize_epoch_ms t }
          else e))
        s

  unfoldable pub handle_typing : ℤ → NotificationTypingPayload → Manager → Manager
  handle_typing t p s =
      let e = parse_typing_from_notification calendar_ms p in
      tell
        (typing (
          if same_int e.expire_at_ms (pos 0) && ltb_ℤ (pos 0) t
          then record e { expire_at_ms = normalize_epoch_ms t }
          else e))
        s

  -- The handler that the constructor adds to the notification manager.
  unfoldable pub on_notification : NotificationEvent → Manager → Manager
  on_notification event s =
      let type = event.notification_type in
      let t = event.timestamp in
      let on_message = on_payload read_message_notification event.payload in
      if same_text type "message.new"
      then on_message (handle_incoming t) s
      else if same_text type "message.read_receipt"
      then on_payload read_receipt_notification event.payload (handle_read_receipt t) s
      else if same_text type "message.recalled"
      then on_message (handle_recalled t) s
      else if same_text type "message.deleted"
      then on_message (handle_deleted t) s
      else if same_text type "message.edited"
      then on_message handle_edited s
      else if same_text type "message.typing"
      then on_payload read_typing_notification event.payload (handle_typing t) s
      else if same_text type "message.mentioned"
      then on_message (handle_mentioned t) s
      else s
