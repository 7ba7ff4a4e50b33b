-- ===== src/Sync/Merge.antt =====
-- The merge functions of core/src/sync_engine.cpp. One clock reading serves a call of
-- `mergeSessions`.
use anychat_sdk.Prelude.{
  String, Bool, false, ◌&&◌, not, ℤ, pos, ltb_ℤ, max_ℤ, to_int32, List, [], ◌∷◌, Option, none, some,
  is_empty, if◌then◌else◌,
}
use anychat_sdk.Prelude.Sort.{Sorter}
use anychat_sdk.Types.{Message, Conversation, private, group, text}
use anychat_sdk.Cache.ConversationCache
use anychat_sdk.Cache.ConversationCache.{ConversationCache}
use anychat_sdk.Cache.MessageCache
use anychat_sdk.Cache.MessageCache.{MessageCache, seq_less}
use anychat_sdk.Json.Digits.{codes}
use anychat_sdk.Json.Timestamps.{parse_timestamp_ms}
use anychat_sdk.Json.Values.{parse_int64_value, parse_bool_value, to_lower, same_codes}
use anychat_sdk.Sync.Payloads.{
  FriendDelta, GroupDelta, ConversationDelta, MessageDelta, ConversationMessages,
  parse_message_content,
}
use anychat_sdk.Sync.Tables.{
  FriendRow, GroupRow, ConversationRow, MessageRow, Tables, upsert_friend, upsert_group,
  upsert_conversation, insert_message, raise_local_seq,
}

-- What the engine works on.
pub record Stores : Type 0 where
  pub db : Tables
  pub conv_cache : ConversationCache
  pub msg_cache : MessageCache

-- glaze's reader of a JSON string, and the reading of a calendar text.
pub record Readers : Type 0 where
  pub read_string : String → Option String
  pub calendar_ms : String → ℤ

abbrev pub friend_row : FriendDelta → FriendRow
friend_row p = record {
  user_id = p.user_id;
  remark = p.remark;
  updated_at_ms = parse_int64_value p.updated_at (pos 0);
  is_deleted = parse_bool_value p.is_deleted false;
}

unfoldable pub merge_friends : List FriendDelta → List FriendRow → List FriendRow
merge_friends [] rows = rows
merge_friends (p ∷ ps) rows =
    merge_friends ps (if is_empty p.user_id then rows else upsert_friend (friend_row p) rows)

abbrev pub group_row : GroupDelta → GroupRow
group_row p = record {
  group_id = p.group_id;
  name = p.name;
  avatar_url = p.avatar;
  member_count = parse_int64_value p.member_count (pos 0);
  updated_at_ms = parse_int64_value p.updated_at (pos 0);
}

unfoldable pub merge_groups : List GroupDelta → List GroupRow → List GroupRow
merge_groups [] rows = rows
merge_groups (p ∷ ps) rows =
    merge_groups ps (if is_empty p.group_id then rows else upsert_group (group_row p) rows)

abbrev pub is_group : String → Bool
is_group s = same_codes (to_lower (codes s)) (codes "group")

-- `content_type` where it names one of the seven types, and 1 otherwise.
abbrev pub known_content_type : ℤ → ℤ
known_content_type z = if not (ltb_ℤ z (pos 1)) && not (ltb_ℤ (pos 7) z) then z else pos 1

module _ (readers : Readers) where
  open readers use {read_string, calendar_ms}

  unfoldable pub session_row : ℤ → ConversationDelta → ConversationRow
  session_row now p = record {
    conv_id = p.conversation_id;
    conv_type = (if is_group p.conversation_type then "group" else "private");
    target_id = p.target_id;
    last_msg_text = parse_message_content read_string p.last_message_content;
    last_msg_time_ms = parse_timestamp_ms calendar_ms p.last_message_time;
    unread_count = to_int32 (parse_int64_value p.unread_count (pos 0));
    is_pinned = parse_bool_value p.is_pinned false;
    is_muted = parse_bool_value p.is_muted false;
    local_seq = pos 0;
    updated_at_ms = now;
  }

  -- The `Conversation` that goes into the cache: the fields that are not set have the struct's
  -- initial values.
  unfoldable pub session_conversation : ℤ → ConversationDelta → Conversation
  session_conversation now p = record {
    conv_id = p.conversation_id;
    conv_type = (if is_group p.conversation_type then group else private);
    target_id = p.target_id;
    last_msg_id = "";
    last_msg_text = parse_message_content read_string p.last_message_content;
    last_msg_time_ms = parse_timestamp_ms calendar_ms p.last_message_time;
    unread_count = to_int32 (parse_int64_value p.unread_count (pos 0));
    is_pinned = parse_bool_value p.is_pinned false;
    is_muted = parse_bool_value p.is_muted false;
    burn_after_reading = pos 0;
    auto_delete_duration = pos 0;
    pin_time_ms = pos 0;
    local_seq = pos 0;
    updated_at_ms = now;
  }

  -- The body of the loop of `mergeSessions`.
  unfoldable pub merge_session : ℤ → ConversationDelta → Stores → Stores
  merge_session now p s = if is_empty p.conversation_id then s else record s {
    db = record (s.db) {
      conversations = upsert_conversation (session_row now p) s.db.conversations;
    };
    conv_cache = ConversationCache.upsert (session_conversation now p) s.conv_cache;
  }

  unfoldable pub merge_sessions : ℤ → List ConversationDelta → Stores → Stores
  merge_sessions now [] s = s
  merge_sessions now (p ∷ ps) s = merge_sessions now ps (merge_session now p s)

  unfoldable pub synced_row : String → MessageDelta → MessageRow
  synced_row conv_id p = record {
    message_id = p.message_id;
    conv_id = conv_id;
    sender_id = p.sender_id;
    content_type = known_content_type (to_int32 (parse_int64_value p.content_type (pos 1)));
    content = parse_message_content read_string p.content;
    seq = parse_int64_value p.sequence (pos 0);
    reply_to = p.reply_to;
    status = to_int32 (parse_int64_value p.status (pos 0));
    send_state = pos 1;
    timestamp_ms = parse_timestamp_ms calendar_ms p.created_at;
    local_id = "";
  }

  unfoldable pub synced_message : String → MessageDelta → Message
  unfolding synced_row
  synced_message conv_id p =
      let row = synced_row conv_id p in
      record {
        message_id = row.message_id;
        local_id = "";
        conv_id = conv_id;
        sender_id = row.sender_id;
        content_type = row.content_type;
        type = text;
        content = row.content;
        seq = row.seq;
        reply_to = row.reply_to;
        timestamp_ms = row.timestamp_ms;
        status = row.status;
        send_state = pos 1;
        is_read = false;
      }

  module _ (sorter : Sorter seq_less) where
    -- The body of the inner loop of `mergeConvMessages`, with `max_seq_seen`.
    unfoldable pub merge_message : String → MessageDelta → ℤ → Stores → ℤ × Stores
    merge_message conv_id p seen s = if is_empty p.message_id then (seen, s) else (
      max_ℤ seen (parse_int64_value p.sequence (pos 0)),
      record s {
        db = insert_message (synced_row conv_id p) s.db;
        msg_cache = MessageCache.insert sorter (synced_message conv_id p) s.msg_cache;
      },
    )

    unfoldable pub merge_messages : String → List MessageDelta → ℤ → Stores → ℤ × Stores
    merge_messages conv_id [] seen s = (seen, s)
    merge_messages conv_id (p ∷ ps) seen s =
        let r = merge_message conv_id p seen s in merge_messages conv_id ps r.0 r.1

    -- The updates behind the inner loop.
    unfoldable pub raise_seq : String → ℤ → Stores → Stores
    raise_seq conv_id seen s =
        if ltb_ℤ (pos 0) seen
        then (let s' = record s {
          db = record (s.db) { conversations = raise_local_seq seen conv_id s.db.conversations };
        } in
            elim (ConversationCache.get conv_id s.conv_cache) [
              | none ↦ s'
              | some cached ↦
                  if ltb_ℤ cached.local_seq seen
                  then record s' {
                    conv_cache =
                        ConversationCache.upsert (record cached { local_seq = seen }) s.conv_cache;
                  }
                  else s'
            ])
        else s

    unfoldable pub merge_conv : ConversationMessages → Stores → Stores
    merge_conv conv s = if is_empty conv.conversation_id then s else elim conv.messages [
      | none ↦ s
      | some ms ↦
          let r = merge_messages conv.conversation_id ms (pos 0) s in
          raise_seq conv.conversation_id r.0 r.1
    ]

    unfoldable pub merge_conv_messages : List ConversationMessages → Stores → Stores
    merge_conv_messages [] s = s
    merge_conv_messages (c ∷ cs) s = merge_conv_messages cs (merge_conv c s)
