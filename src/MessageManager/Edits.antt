-- ===== src/MessageManager/Edits.antt =====
-- What a notification of a recall or of an edit does to a message that is cached.
use anychat_sdk.Prelude.{
  String, false, ℤ, pos, ◌≡◌, ◌≢◌, refl, inl, inr, arith, ◌∷◌, Option, none, some, is_empty, ltb_ℤ,
  ◌&&◌, Bool-cases, if◌then◌else◌,
}
use anychat_sdk.Types.{Message}
use anychat_sdk.Cache.MessageCache
use anychat_sdk.Cache.MessageCache.{update_message_by_id}
use anychat_sdk.Json.Envelope.{same_int}
use anychat_sdk.Json.Timestamps.{parse_timestamp_ms}
use anychat_sdk.Json.Values.{IntegerValue, parse_int32_value, parse_int64_value}
use anychat_sdk.MessageManager.{Manager, Api, recalled, edited, tell, find_message, update_db}
use anychat_sdk.MessageManager.Lookup.{
  ids, mapped, found-update, ids-update, find_message-id, find_message-update,
  find_row-update_message_db,
}
use anychat_sdk.MessageManager.Notifications.{
  patch_cached, insert_if_new, handle_recalled, handle_edited, take_recall, take_changes,
  content_of,
}
use anychat_sdk.MessageManager.Payloads.{
  NotificationMessagePayload, parse_message_from_notification, normalize_message_content_type,
  blank_message,
}
use anychat_sdk.MessageManager.Rows.{Row, find_row}
use anychat_sdk.MessageManager.Rows as Rows

-- The content type that a notification names: 1, a text, where it names none, and where what it
-- names is not 1 to 7.
abbrev pub named_type : Option IntegerValue → ℤ
named_type none = pos 1
named_type (some v) =
    let z = parse_int32_value (some v) (pos 1) in
    if ltb_ℤ (pos 0) z && ltb_ℤ z (pos 8) then z else pos 1

normalize_lem : (v : Option IntegerValue) → normalize_message_content_type v ≡ named_type v
unfolding normalize_message_content_type parse_int32_value parse_int64_value
normalize_lem none = refl
normalize_lem (some v) = ground arith

-- A content type that was read is never the unspecified one.
normalized-specified : (v : Option IntegerValue) → normalize_message_content_type v ≢ pos 0
unfolding normalize_message_content_type
normalized-specified v = ground arith

module _ (api : Api) where
  -- Where the message is cached, it is changed in its place and nothing is inserted.
  patch_cached-found :
      (take : Message → Message → Message) (msg m : Message) (s : Manager)
      → ((x : Message) → (take msg x).message_id ≡ x.message_id)
      → find_message msg.message_id s.cache.buckets ≡ some m
      → patch_cached api take msg s ≡ (
        take msg m,
        record s { cache = (update_message_by_id msg.message_id (take msg) s.cache).0 },
      )
  unfolding patch_cached insert_if_new
  patch_cached-found take msg m s keeps h =
      rw (found-update msg.message_id (take msg) keeps s.cache m h, patch_cached, h) refl

  -- What a notification does behind its tests, for the message that it brings.
  recall_with :
      (msg m : Message) (s : Manager)
      → msg.message_id ≢ ""
      → find_message msg.message_id s.cache.buckets ≡ some m
      → let r = patch_cached api take_recall msg s in
        let s' = tell (recalled r.0) (update_db r.0.message_id (pos 1) (content_of r.0) r.1) in
        let m' = take_recall msg m in
        (find_message msg.message_id s'.cache.buckets ≡ some m')
        × ((k : String) → ids (MessageCache.get s'.cache k) ≡ ids (MessageCache.get s.cache k))
        × (find_row msg.message_id s'.rows
            ≡ mapped (Rows.with_status (pos 1) (content_of m')) (find_row msg.message_id s.rows))
        × (s'.log ≡ (if s.has_listener then recalled m' ∷ s.log else s.log))
  unfolding tell update_db
  recall_with msg m s n h =
      let found = find_message-id msg.message_id s.cache.buckets m h in
      rw (patch_cached-found take_recall msg m s (λ x. refl) h) (
        ground (arith, h, find_message-update msg.message_id (take_recall msg) (λ x. refl) s.cache),
        λ k. ground (arith, ids-update msg.message_id (take_recall msg) (λ x. refl) s.cache k),
        ground (
          arith,
          found,
          n,
          find_row-update_message_db m.message_id msg.message_id (pos 1)
              (content_of (take_recall msg m)) s.rows,
        ),
        ground arith,
      )

  -- A recall that is notified of a message that is cached: the message gets status 1, and the
  -- conversation and the content of the notification unless they are empty, but it stays in the
  -- bucket that it is in, whichever conversation it now names; its row gets status 1, and the
  -- listener, if there is one, is told of it.
  pub recall_notified :
      (t : ℤ) (p : NotificationMessagePayload) (m : Message) (s : Manager)
      → p.message_id ≢ ""
      → find_message p.message_id s.cache.buckets ≡ some m
      → let s' = handle_recalled api t p s in
        let m' = record m {
          conv_id = (if is_empty p.conversation_id then m.conv_id else p.conversation_id);
          content = (if is_empty p.content then m.content else p.content);
          status = pos 1;
        } in
        (find_message p.message_id s'.cache.buckets ≡ some m')
        × ((k : String) → ids (MessageCache.get s'.cache k) ≡ ids (MessageCache.get s.cache k))
        × (find_row p.message_id s'.rows
            ≡ mapped (Rows.with_status (pos 1) (content_of m')) (find_row p.message_id s.rows))
        × (s'.log ≡ (if s.has_listener then recalled m' ∷ s.log else s.log))
  unfolding handle_recalled parse_message_from_notification tell update_db
  recall_notified t p m s n h =
      let named : is_empty p.message_id ≡ false = ground arith in
      elim (Bool-cases (same_int (parse_timestamp_ms api.calendar_ms p.sent_at) (pos 0))) [
        | inl e ↦ rw (named, handle_recalled, e) (recall_with _ m s n h)
        | inr e ↦ rw (named, handle_recalled, e) (recall_with _ m s n h)
      ]

  -- An edit that is notified of a message that is cached gives it the content of the notification,
  -- unless that is empty, and always a content type: that of the notification if it is 1 to 7, and
  -- 1, a text, if the notification has none or another one. The status stays, and the row's content
  -- and status become those of the cached message; the listener, if there is one, is told of it.
  pub edit_notified :
      (p : NotificationMessagePayload) (m : Message) (s : Manager)
      → p.message_id ≢ ""
      → find_message p.message_id s.cache.buckets ≡ some m
      → let s' = handle_edited api p s in
        let m' = record m {
          content = (if is_empty p.content then m.content else p.content);
          content_type = named_type p.content_type;
        } in
        (find_message p.message_id s'.cache.buckets ≡ some m')
        × (find_row p.message_id s'.rows
            ≡ mapped (Rows.with_status m.status (content_of m')) (find_row p.message_id s.rows))
        × (s'.log ≡ (if s.has_listener then edited m' ∷ s.log else s.log))
  unfolding handle_edited parse_message_from_notification blank_message tell update_db
  edit_notified p m s n h =
      let msg = parse_message_from_notification api.calendar_ms p in
      let named : is_empty p.message_id ≡ false = ground arith in
      let found = find_message-id p.message_id s.cache.buckets m h in
      let specified = normalized-specified p.content_type in
      let m' = record m {
        content = (if is_empty p.content then m.content else p.content);
        content_type = named_type p.content_type;
      } in
      let same : take_changes msg m ≡ m' =
        ground (arith, specified, normalize_lem p.content_type) in
      rw (named, handle_edited, patch_cached-found take_changes msg m s (λ x. refl) h)
        (
          ground (
            arith,
            h,
            same,
            find_message-update p.message_id (take_changes msg) (λ x. refl) s.cache,
          ),
          ground (
            arith,
            found,
            n,
            same,
            find_row-update_message_db m.message_id p.message_id m.status (content_of m') s.rows,
          ),
          ground (arith, same),
        )
