-- ===== src/ConversationManager/Deletion.antt =====
-- What a deletion and a patch leave in the cache, in the table and with the listener.
use anychat_sdk.Prelude.{
  String, true, ℤ, ◌≡◌, ◌≢◌, arith, ◌∷◌, Option, none, some, same_text, if◌then◌else◌,
}
use anychat_sdk.Types.{Conversation}
use anychat_sdk.Cache.ConversationCache
use anychat_sdk.Cache.ConversationCache.Invariant.{IsValid}
use anychat_sdk.Cache.ConversationCache.Lookup.{get-remove, get-upsert}
use anychat_sdk.Http.{succeeded, answers, with_reply, strict}
use anychat_sdk.Json.Envelope.{HttpResponse, ApiEnvelope, parse_api_envelope_response}
use anychat_sdk.ConversationManager.{Manager, Api, erase, store, tell}
use anychat_sdk.ConversationManager.Mirror.{find_row-delete_row, find_row-upsert_db}
use anychat_sdk.ConversationManager.Notifications.{apply_payload, patched}
use anychat_sdk.ConversationManager.Payloads.{
  NotificationConversationPayload, notification_conversation_id,
}
use anychat_sdk.ConversationManager.Replies.{on_delete_reply}
use anychat_sdk.ConversationManager.Rows.{find_row, delete_db, contains, row_of}

patched-conv_id :
    (now : ℤ) (type : String) (p : NotificationConversationPayload) (o : Option Conversation)
    → (patched now type p (notification_conversation_id p) o).conv_id
      ≡ notification_conversation_id p
unfolding patched
patched-conv_id now type p o = ground arith

module _ (api : Api) where
  -- When the server has deleted a conversation it is no longer cached. Its row is gone too only if
  -- the table holds none of its messages: otherwise the foreign key keeps the row, and the caller
  -- is told of a success all the same.
  pub deleted_row_stays :
      (k : String) (resp : HttpResponse) (s : Manager) (root : ApiEnvelope (Unit {0}))
      → parse_api_envelope_response tt api.read_none api.http_message strict
          "delete conversation failed" resp
        ≡ (true, root)
      → let (t, next) = on_delete_reply api k resp s in
        (next ≡ answers (succeeded tt))
        × (ConversationCache.get k t.cache ≡ none)
        × (find_row k t.rows ≡ (if contains k s.message_convs then find_row k s.rows else none))
  unfolding on_delete_reply with_reply erase delete_db
  deleted_row_stays k resp s root e =
      ground (arith, e, get-remove k k s.cache, find_row-delete_row k k s.rows)

  -- A patch for a conversation with an id, other than a deletion, is cached and stored, whether the
  -- conversation was known or not, and told to the listener if there is one; the other conversations
  -- stay as they were.
  patch_applied :
      (now : ℤ) (type : String) (p : NotificationConversationPayload) (j : String) (s : Manager)
      → IsValid s.cache
      → let k = notification_conversation_id p in
        let c = patched now type p k (ConversationCache.get k s.cache) in
        let t = apply_payload api now type p s in
        k ≢ ""
        → type ≢ "conversation.deleted"
        → (ConversationCache.get j t.cache
            ≡ (if same_text k j then some c else ConversationCache.get j s.cache))
          × (find_row j t.rows ≡ (if same_text k j then some (row_of c) else find_row j s.rows))
          × (t.log ≡ (if s.has_listener then c ∷ s.log else s.log))
  unfolding apply_payload store tell
  patch_applied now type p j s v n d =
      let c =
        patched now type p (notification_conversation_id p)
          (ConversationCache.get (notification_conversation_id p) s.cache) in
      ground (
        arith,
        patched-conv_id now type p (ConversationCache.get (notification_conversation_id p) s.cache),
        get-upsert c s.cache j v,
        find_row-upsert_db c j s.rows,
      )
