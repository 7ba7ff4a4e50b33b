-- ===== src/Sync/Keeps.antt =====
-- What a sync keeps: the caches' invariants, and everything where the reply is refused.
use anychat_sdk.Prelude.{
  String, ℤ, pos, ltb_ℤ, ◌≡◌, ◌≢◌, ◌⊎◌, inl, inr, arith, List, [], ◌∷◌, Option, none, some,
  is_empty, Bool-cases, Option-cases,
}
use anychat_sdk.Prelude.Sort.{Sorter}
use anychat_sdk.Cache.ConversationCache
use anychat_sdk.Cache.ConversationCache.Invariant
use anychat_sdk.Cache.MessageCache.{seq_less}
use anychat_sdk.Cache.MessageCache.Invariant as MessageInvariant
use anychat_sdk.Json.Envelope.{HttpResponse, ApiEnvelope}
use anychat_sdk.Json.Values.{parse_int64_value}
use anychat_sdk.Sync.{
  friends_part, groups_part, sessions_part, messages_part, merge_response, store_sync_time,
  on_sync_reply,
}
use anychat_sdk.Sync.Merge.{
  Stores, Readers, merge_session, merge_sessions, merge_message, merge_messages, raise_seq,
  merge_conv, merge_conv_messages, session_conversation, synced_message,
}
use anychat_sdk.Sync.Payloads.{
  FriendDelta, GroupDelta, SyncResponse, ConversationDelta, MessageDelta, ConversationMessages,
  payload_list,
}

-- Both caches satisfy their invariants.
pub record AreValid (s : Stores) : Type 0 where
  pub conversations : Invariant.IsValid s.conv_cache
  pub messages : MessageInvariant.IsValid s.msg_cache

module _ (readers : Readers) where
  merge_session-AreValid :
      (now : ℤ) (p : ConversationDelta) (s : Stores)
      → AreValid s
      → AreValid (merge_session readers now p s)
  unfolding merge_session
  merge_session-AreValid now p s v = elim (Bool-cases (is_empty p.conversation_id)) [
    | inl e ↦ rw e v
    | inr e ↦ rw e (record {
      conversations =
          Invariant.upsert-IsValid (session_conversation readers now p) s.conv_cache
            v.conversations;
      messages = v.messages;
    })
  ]

  merge_sessions-AreValid :
      (now : ℤ) (ps : List ConversationDelta) (s : Stores)
      → AreValid s
      → AreValid (merge_sessions readers now ps s)
  unfolding merge_sessions
  merge_sessions-AreValid now [] s v = v
  merge_sessions-AreValid now (p ∷ ps) s v =
      merge_sessions-AreValid now ps (merge_session readers now p s)
        (merge_session-AreValid now p s v)

  module _ (sorter : Sorter seq_less) where
    merge_message-AreValid :
        (k : String) (p : MessageDelta) (seen : ℤ) (s : Stores)
        → AreValid s
        → AreValid (merge_message readers sorter k p seen s).1
    unfolding merge_message
    merge_message-AreValid k p seen s v = elim (Bool-cases (is_empty p.message_id)) [
      | inl e ↦ rw e v
      | inr e ↦ rw e (record {
        conversations = v.conversations;
        messages =
            MessageInvariant.insert-IsValid sorter (synced_message readers k p) s.msg_cache
              v.messages;
      })
    ]

    merge_messages-AreValid :
        (k : String) (ps : List MessageDelta) (seen : ℤ) (s : Stores)
        → AreValid s
        → AreValid (merge_messages readers sorter k ps seen s).1
    unfolding merge_messages
    merge_messages-AreValid k [] seen s v = v
    merge_messages-AreValid k (p ∷ ps) seen s v =
        let r = merge_message readers sorter k p seen s in
        merge_messages-AreValid k ps r.0 r.1 (merge_message-AreValid k p seen s v)

    raise_seq-AreValid :
        (k : String) (seen : ℤ) (s : Stores)
        → AreValid s
        → AreValid (raise_seq readers sorter k seen s)
    unfolding raise_seq
    raise_seq-AreValid k seen s v = elim (Bool-cases (ltb_ℤ (pos 0) seen)) [
      | inr e ↦ rw e v
      | inl e ↦ elim (Option-cases (ConversationCache.get k s.conv_cache)) [
        | inl n ↦ rw (e, n) (record { conversations = v.conversations; messages = v.messages })
        | inr (c, n) ↦ elim (Bool-cases (ltb_ℤ c.local_seq seen)) [
          | inr l ↦ rw (e, n, l) (record { conversations = v.conversations; messages = v.messages })
          | inl l ↦
              rw (e, n, l)
                (record {
                  conversations =
                      Invariant.upsert-IsValid (record c { local_seq = seen }) s.conv_cache
                        v.conversations;
                  messages = v.messages;
                })
        ]
      ]
    ]

    merge_conv-AreValid :
        (c : ConversationMessages) (s : Stores)
        → AreValid s
        → AreValid (merge_conv readers sorter c s)
    unfolding merge_conv
    merge_conv-AreValid c s v = elim (Bool-cases (is_empty c.conversation_id)) [
      | inl e ↦ rw e v
      | inr e ↦ elim (Option-cases c.messages) [
        | inl n ↦ rw (e, n) v
        | inr (ms, n) ↦
            rw (e, n)
              (raise_seq-AreValid c.conversation_id _ _
                (merge_messages-AreValid c.conversation_id ms (pos 0) s v))
      ]
    ]

    merge_conv_messages-AreValid :
        (cs : List ConversationMessages) (s : Stores)
        → AreValid s
        → AreValid (merge_conv_messages readers sorter cs s)
    unfolding merge_conv_messages
    merge_conv_messages-AreValid [] s v = v
    merge_conv_messages-AreValid (c ∷ cs) s v =
        merge_conv_messages-AreValid cs (merge_conv readers sorter c s) (merge_conv-AreValid c s v)

    friends_part-AreValid :
        (o : Option (List FriendDelta)) (s : Stores)
        → AreValid s
        → AreValid (friends_part readers sorter o s)
    unfolding friends_part
    friends_part-AreValid none s v = v
    friends_part-AreValid (some l) s v = record {
      conversations = v.conversations;
      messages = v.messages;
    }

    groups_part-AreValid :
        (o : Option (List GroupDelta)) (s : Stores)
        → AreValid s
        → AreValid (groups_part readers sorter o s)
    unfolding groups_part
    groups_part-AreValid none s v = v
    groups_part-AreValid (some l) s v = record {
      conversations = v.conversations;
      messages = v.messages;
    }

    sessions_part-AreValid :
        (now : ℤ) (o : Option (List ConversationDelta)) (s : Stores)
        → AreValid s
        → AreValid (sessions_part readers sorter now o s)
    unfolding sessions_part
    sessions_part-AreValid now none s v = v
    sessions_part-AreValid now (some l) s v = merge_sessions-AreValid now l s v

    messages_part-AreValid :
        (o : Option (List ConversationMessages)) (s : Stores)
        → AreValid s
        → AreValid (messages_part readers sorter o s)
    unfolding messages_part
    messages_part-AreValid none s v = v
    messages_part-AreValid (some l) s v = merge_conv_messages-AreValid l s v

    merge_response-AreValid :
        (now : ℤ) (r : SyncResponse) (s : Stores)
        → AreValid s
        → AreValid (merge_response readers sorter now r s)
    unfolding merge_response
    merge_response-AreValid now r s v = messages_part-AreValid r.conversations _ (
        sessions_part-AreValid now (payload_list r.conversation_data) _ (
          groups_part-AreValid (payload_list r.groups) _
            (friends_part-AreValid (payload_list r.friends) s v)))

    module _ (read_response : String → Option (ApiEnvelope SyncResponse)) where
      store_sync_time-AreValid :
          (r : SyncResponse) (s : Stores)
          → AreValid s
          → AreValid (store_sync_time readers sorter r s)
      unfolding store_sync_time
      store_sync_time-AreValid r s v =
          elim (Bool-cases (ltb_ℤ (pos 0) (parse_int64_value r.sync_time (pos 0)))) [
            | inl e ↦ rw e (record { conversations = v.conversations; messages = v.messages })
            | inr e ↦ rw e v
          ]

      -- A reply to a sync, whatever it holds, keeps the conversation cache in order with distinct
      -- ids, and every bucket of the message cache sorted, within its size and free of duplicates.
      pub on_sync_reply-AreValid :
          (now : ℤ) (resp : HttpResponse) (s : Stores)
          → AreValid s
          → AreValid (on_sync_reply readers sorter read_response now resp s)
      unfolding on_sync_reply
      on_sync_reply-AreValid now resp s v = elim (Option-cases (read_response resp.body)) [
        | inl n ↦ ground (arith, n)
        | inr (root, n) ↦
            let merged = merge_response-AreValid now root.payload s v in
            ground (arith, n, store_sync_time-AreValid root.payload _ merged)
      ]

      -- A reply with a transport error, with a status other than 200, whose body cannot be read, or
      -- whose code is not 0 changes nothing.
      refused_reply_unchanged :
          (now : ℤ) (resp : HttpResponse) (s : Stores)
          → (resp.error ≢ "")
            ⊎ (resp.status_code ≢ pos 200)
            ⊎ (read_response resp.body ≡ none)
            ⊎ ((root : ApiEnvelope SyncResponse) × (read_response resp.body ≡ some root)
                × (root.code ≢ pos 0))
          → on_sync_reply readers sorter read_response now resp s ≡ s
      unfolding on_sync_reply
      refused_reply_unchanged now resp s h = ground arith
