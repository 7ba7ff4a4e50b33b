-- ===== src/ConversationManager/Requests.antt =====
-- The methods of `ConversationManagerImpl`, up to the answer or the request that each ends with.
use anychat_sdk.Prelude.{ℕ, String, Bool, ℤ, pos, ltb_ℤ, List, [], ◌∷◌, ◌++◌, if◌then◌else◌}
use anychat_sdk.Prelude.Sort.{Sorter}
use anychat_sdk.Types.{Conversation}
use anychat_sdk.Cache.ConversationCache
use anychat_sdk.Http.{get, post, put, del, succeeded, Next, answers, asks, refuse, with_body}
use anychat_sdk.Json.Digits.{codes, to_string}
use anychat_sdk.ConversationManager.{Manager, Api, path_of}
use anychat_sdk.ConversationManager.Payloads.{
  ConversationReadReceipt, ConversationUnreadState, ConversationMarkReadResult,
}
use anychat_sdk.ConversationManager.Rows.{Row, listed_before, row_to_conversation}

unfoldable pub get_conversation : String → Next Conversation
unfolding path_of
get_conversation conv_id = asks (record { method = get; path = path_of conv_id ""; body = "" })

unfoldable pub delete_conversation : String → Next (Unit {0})
unfolding path_of
delete_conversation conv_id = asks (record { method = del; path = path_of conv_id ""; body = "" })

unfoldable pub mark_all_read : String → Next (Unit {0})
unfolding path_of
mark_all_read conv_id =
    asks (record { method = post; path = path_of conv_id "/read-all"; body = "" })

unfoldable pub get_total_unread : Next ℤ
get_total_unread =
    asks (record { method = get; path = codes "/conversations/unread/total"; body = "" })

unfoldable pub get_message_unread_count : String → ℤ → Next ConversationUnreadState
unfolding path_of
get_message_unread_count conv_id last_read_seq =
    let path = path_of conv_id "/messages/unread-count" in
    asks (record {
      method = get;
      path =
          (if ltb_ℤ last_read_seq (pos 0)
            then path
            else path ++ (codes "?last_read_seq=" ++ to_string last_read_seq));
      body = "";
    })

unfoldable pub get_message_read_receipts : String → Next (List ConversationReadReceipt)
unfolding path_of
get_message_read_receipts conv_id =
    asks (record { method = get; path = path_of conv_id "/messages/read-receipts"; body = "" })

unfoldable pub get_message_sequence : String → Next ℤ
unfolding path_of
get_message_sequence conv_id =
    asks (record { method = get; path = path_of conv_id "/messages/sequence"; body = "" })

abbrev pub conversations_of : (ℤ → List ℕ) → List Row → List Conversation
conversations_of column_text [] = []
conversations_of column_text (r ∷ rs) =
    row_to_conversation column_text r ∷ conversations_of column_text rs

module _ (api : Api) where
  open api use {write_ids, write_pinned, write_muted, write_duration, column_text}

  unfoldable pub mark_messages_read : String → List String → Next ConversationMarkReadResult
  unfolding path_of
  mark_messages_read conv_id [] = refuse "message_ids is empty"
  mark_messages_read conv_id (i ∷ ids) = with_body (write_ids (i ∷ ids)) (λ json.
      asks (record { method = post; path = path_of conv_id "/messages/read"; body = json }))

  unfoldable pub set_pinned : String → Bool → Next (Unit {0})
  unfolding path_of
  set_pinned conv_id pinned =
      with_body (write_pinned pinned)
        (λ json. asks (record { method = put; path = path_of conv_id "/pin"; body = json }))

  unfoldable pub set_muted : String → Bool → Next (Unit {0})
  unfolding path_of
  set_muted conv_id muted =
      with_body (write_muted muted)
        (λ json. asks (record { method = put; path = path_of conv_id "/mute"; body = json }))

  unfoldable pub set_burn_after_reading : String → ℤ → Next (Unit {0})
  unfolding path_of
  set_burn_after_reading conv_id duration =
      with_body (write_duration duration)
        (λ json. asks (record { method = put; path = path_of conv_id "/burn"; body = json }))

  unfoldable pub set_auto_delete : String → ℤ → Next (Unit {0})
  unfolding path_of
  set_auto_delete conv_id duration =
      with_body (write_duration duration)
        (λ json. asks (record { method = put; path = path_of conv_id "/auto_delete"; body = json }))

  -- From the cache, else from the table, else from the server.
  unfoldable pub get_conversation_list :
      Sorter listed_before → Manager → Manager × Next (List Conversation)
  get_conversation_list sorter s = elim s.cache [
    | c ∷ cs ↦ (s, answers (succeeded (c ∷ cs)))
    | [] ↦ elim (sorter.sort s.rows) [
      | r ∷ rs ↦
          let from_db = conversations_of column_text (r ∷ rs) in
          (record s { cache = ConversationCache.set_all from_db }, answers (succeeded from_db))
      | [] ↦ (s, asks (record { method = get; path = codes "/conversations"; body = "" }))
    ]
  ]
