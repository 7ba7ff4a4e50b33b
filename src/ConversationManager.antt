-- ===== src/ConversationManager.antt =====
-- core/src/conversation_manager.cpp: the list of conversations, kept in the cache and in the table.
-- A method ends with an answer or with a request, and the reply to the request is a function of its
-- own. One clock reading serves a call. The JSON readers and writers are parameters.
pub mod Payloads
pub mod Rows
pub mod Requests
pub mod Replies
pub mod Notifications
pub mod Mirror
pub mod Run
pub mod Restart
pub mod Deletion
use anychat_sdk.Prelude.{
  ℕ, String, Bool, true, false, not, ℤ, pos, negsuc, ltb_ℤ, max_ℤ, to_int32, List, [], ◌∷◌, ◌++◌,
  Option, none, some, is_empty, same_text, if◌then◌else◌,
}
use anychat_sdk.Prelude.Sort.{Sorter}
use anychat_sdk.Types.{Conversation, NotificationEvent}
use anychat_sdk.Cache.ConversationCache
use anychat_sdk.Cache.ConversationCache.{ConversationCache}
use anychat_sdk.Http.{
  Method, Request, Answer, succeeded, failed, Next, answers, asks, refuse, Written, with_body,
  with_reply, strict,
}
use anychat_sdk.Json.Digits.{codes, to_string}
use anychat_sdk.Json.Envelope.{
  HttpResponse, ApiEnvelope, Read, parse_api_envelope_response, same_int,
}
use anychat_sdk.ConversationManager.Payloads.{
  value_or, ConversationPayload, MarkMessagesReadPayload, ConversationUnreadStatePayload,
  ConversationReadReceiptPayload, NotificationConversationPayload, ConversationUnreadState,
  ConversationReadReceipt, ConversationMarkReadResult, blank_conversation,
  parse_conversation_payload, parse_unread_state_message, parse_read_receipt,
  notification_conversation_id, apply_notification_patch, is_conversation_notification,
}
use anychat_sdk.ConversationManager.Rows.{
  Row, row_of, upsert_db, delete_db, update_rows, listed_before, row_to_conversation,
}

-- `message_convs` is the column `conv_id` of the table of messages, and `log` holds the calls of `onConversationUpdated`, the newest first.
pub record Manager : Type 0 where
  pub cache : ConversationCache
  pub rows : List Row
  pub message_convs : List String
  pub has_listener : Bool
  pub log : List Conversation

-- glaze, and what else the manager calls and does not implement.
pub record Api : Type 0 where
  pub read_none : String → Read (Unit {0})
  pub read_list : String → Read (Option (List ConversationPayload))
  pub read_conversation : String → Read ConversationPayload
  pub read_marked : String → Read MarkMessagesReadPayload
  pub read_total : String → Read (Option ℤ)
  pub read_unread : String → Read ConversationUnreadStatePayload
  pub read_receipts : String → Read (Option (List ConversationReadReceiptPayload))
  pub read_sequence : String → Read (Option ℤ)
  pub read_notification : String → Option NotificationConversationPayload
  pub blank_payload : ConversationPayload
  pub write_ids : List String → Written
  pub write_pinned : Bool → Written
  pub write_muted : Bool → Written
  pub write_duration : ℤ → Written
  pub read_string : String → Option String
  pub calendar_ms : String → ℤ
  pub column_text : ℤ → List ℕ
  pub http_message : ℤ → String

unfoldable pub tell : Conversation → Manager → Manager
tell c s = if s.has_listener then record s { log = c ∷ s.log } else s

unfoldable pub set_listener : Bool → Manager → Manager
set_listener present s = record s { has_listener = present }

-- `conv_cache_->upsert(c); upsertDb(c);`
unfoldable pub store : Conversation → Manager → Manager
unfolding upsert_db
store c s = record s { cache = ConversationCache.upsert c s.cache; rows = upsert_db c s.rows }

-- `conv_cache_->remove(conv_id)` and the DELETE.
unfoldable pub erase : String → Manager → Manager
unfolding delete_db
erase k s = record s {
  cache = ConversationCache.remove k s.cache;
  rows = delete_db k s.message_convs s.rows;
}

-- What the replies do to a cached conversation: nothing where there is none.
unfoldable pub edit : String → (Conversation → Conversation) → Manager → Manager
unfolding store
edit k change s = elim (ConversationCache.get k s.cache) [ none ↦ s | some c ↦ store (change c) s ]

unfoldable pub path_of : String → String → List ℕ
path_of conv_id action = codes "/conversations/" ++ (codes conv_id ++ codes action)

abbrev pub drop_empty : List String → List String
drop_empty [] = []
drop_empty (i ∷ is) = if is_empty i then drop_empty is else i ∷ drop_empty is

module _ (api : Api) where
  open api use {
    read_none, read_list, read_conversation, read_marked, read_total, read_unread, read_receipts,
    read_sequence, read_notification, blank_payload, write_ids, write_pinned, write_muted,
    write_duration, read_string, calendar_ms, column_text, http_message,
  }

  abbrev pub check {ℓ} :
      {A : Type 0} {B : Type ℓ}
      → A
      → (String → Read A)
      → String
      → HttpResponse
      → Manager
      → (A → Manager × Next B)
      → Manager × Next B
  check no_data read fallback resp s accept =
      with_reply (parse_api_envelope_response no_data read http_message strict fallback resp) s
        accept
