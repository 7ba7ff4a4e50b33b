-- ===== src/ConversationManager/Replies.antt =====
-- The replies to the requests of `ConversationManagerImpl`. A reply that `parseApiEnvelopeResponse`
-- refuses is handed to the caller as an error and changes nothing.
use anychat_sdk.Prelude.{
  String, Bool, ℤ, pos, ltb_ℤ, max_ℤ, to_int32, List, [], ◌∷◌, none, some, is_empty, if◌then◌else◌,
}
use anychat_sdk.Types.{Conversation}
use anychat_sdk.Cache.ConversationCache
use anychat_sdk.Http.{succeeded, Next, answers}
use anychat_sdk.Json.Envelope.{HttpResponse, same_int}
use anychat_sdk.ConversationManager.{Manager, Api, check, store, erase, edit, drop_empty}
use anychat_sdk.ConversationManager.Payloads.{
  value_or, ConversationPayload, ConversationReadReceiptPayload, ConversationUnreadState,
  ConversationReadReceipt, ConversationMarkReadResult, parse_conversation_payload,
  parse_unread_state_message, parse_read_receipt,
}
use anychat_sdk.ConversationManager.Rows.{Row, upsert_db, update_rows}

-- `UPDATE conversations SET local_seq=MAX(local_seq, ?)`
abbrev pub raise_seq : ℤ → Row → Row
raise_seq seq r = record r { local_seq = max_ℤ r.local_seq seq }

abbrev pub stamped : ℤ → Conversation → Conversation
stamped now c = if same_int c.updated_at_ms (pos 0) then record c { updated_at_ms = now } else c

-- What `setPinned` and its siblings do to the cached conversation.
abbrev pub with_pinned : ℤ → Bool → Conversation → Conversation
with_pinned now pinned c = record c {
  is_pinned = pinned;
  pin_time_ms = (if pinned then now else pos 0);
  updated_at_ms = now;
}

abbrev pub with_muted : ℤ → Bool → Conversation → Conversation
with_muted now muted c = record c { is_muted = muted; updated_at_ms = now }

abbrev pub with_burn : ℤ → ℤ → Conversation → Conversation
with_burn now duration c = record c { burn_after_reading = duration; updated_at_ms = now }

abbrev pub with_auto_delete : ℤ → ℤ → Conversation → Conversation
with_auto_delete now duration c = record c { auto_delete_duration = duration; updated_at_ms = now }

abbrev pub with_unread : ℤ → Conversation → Conversation
with_unread unread c = record c { unread_count = to_int32 unread }

-- The branch of `getMessageSequence` behind the parsing.
unfoldable pub advance_seq : String → ℤ → Manager → Manager
advance_seq conv_id seq s = elim (ConversationCache.get conv_id s.cache) [
  | some c ↦ if ltb_ℤ c.local_seq seq then store (record c { local_seq = seq }) s else s
  | none ↦
      if ltb_ℤ (pos 0) seq
      then record s { rows = update_rows conv_id (raise_seq seq) s.rows }
      else s
]

-- The loop's calls of `upsertDb`.
abbrev pub upsert_all : List Conversation → List Row → List Row
upsert_all [] rows = rows
upsert_all (c ∷ cs) rows = upsert_all cs (upsert_db c rows)

module _ (api : Api) where
  open api use {
    read_none, read_list, read_conversation, read_marked, read_total, read_unread, read_receipts,
    read_sequence, blank_payload, read_string, calendar_ms,
  }

  -- The conversations of a list reply that have an id, stamped.
  unfoldable pub listed : ℤ → List ConversationPayload → List Conversation
  unfolding parse_conversation_payload
  listed now [] = []
  listed now (p ∷ ps) =
      let c = parse_conversation_payload read_string calendar_ms p in
      if is_empty c.conv_id then listed now ps else stamped now c ∷ listed now ps

  unfoldable pub on_list_reply : ℤ → HttpResponse → Manager → Manager × Next (List Conversation)
  unfolding listed
  on_list_reply now resp s = check api none read_list "get conversations failed" resp s (λ payloads.
      let convs = listed now (value_or payloads []) in
      let cache = ConversationCache.set_all convs in
      (
        record s { cache = cache; rows = upsert_all convs s.rows },
        answers (succeeded (ConversationCache.get_all cache)),
      ))

  unfoldable pub on_get_reply : ℤ → String → HttpResponse → Manager → Manager × Next Conversation
  on_get_reply now conv_id resp s =
      check api blank_payload read_conversation "get conversation failed" resp s (λ p.
        let c = parse_conversation_payload read_string calendar_ms p in
        let c = record c { conv_id = (if is_empty c.conv_id then conv_id else c.conv_id) } in
        let c = stamped now c in (store c s, answers (succeeded c)))

  unfoldable pub on_delete_reply : String → HttpResponse → Manager → Manager × Next (Unit {0})
  on_delete_reply conv_id resp s =
      check api tt read_none "delete conversation failed" resp s
        (λ _. (erase conv_id s, answers (succeeded tt)))

  unfoldable pub on_read_all_reply : String → HttpResponse → Manager → Manager × Next (Unit {0})
  on_read_all_reply conv_id resp s = check api tt read_none "mark read failed" resp s (λ _. (
    record s {
      cache = ConversationCache.clear_unread conv_id s.cache;
      rows = update_rows conv_id (λ r. record r { unread_count = pos 0 }) s.rows;
    },
    answers (succeeded tt),
  ))

  unfoldable pub on_marked_reply :
      HttpResponse → Manager → Manager × Next ConversationMarkReadResult
  on_marked_reply resp s =
      check api (record { accepted_ids = none; ignored_ids = none; advanced_last_read_seq = none })
        read_marked "mark messages read failed" resp s
        (λ p. (
          s,
          answers (
              succeeded (record {
                accepted_ids = drop_empty (value_or p.accepted_ids []);
                ignored_ids = drop_empty (value_or p.ignored_ids []);
                advanced_last_read_seq = value_or p.advanced_last_read_seq (pos 0);
              })),
        ))

  -- The replies that change the cached conversation and answer with nothing.
  unfoldable pub on_change_reply :
      String
      → String
      → (Conversation → Conversation)
      → HttpResponse
      → Manager
      → Manager × Next (Unit {0})
  on_change_reply fallback conv_id change resp s =
      check api tt read_none fallback resp s (λ _. (edit conv_id change s, answers (succeeded tt)))

  unfoldable pub on_pinned_reply :
      ℤ → String → Bool → HttpResponse → Manager → Manager × Next (Unit {0})
  unfolding on_change_reply
  on_pinned_reply now conv_id pinned =
      on_change_reply "set pinned failed" conv_id (with_pinned now pinned)

  unfoldable pub on_muted_reply :
      ℤ → String → Bool → HttpResponse → Manager → Manager × Next (Unit {0})
  unfolding on_change_reply
  on_muted_reply now conv_id muted =
      on_change_reply "set muted failed" conv_id (with_muted now muted)

  unfoldable pub on_burn_reply : ℤ → String → ℤ → HttpResponse → Manager → Manager × Next (Unit {0})
  unfolding on_change_reply
  on_burn_reply now conv_id duration =
      on_change_reply "set burn_after_reading failed" conv_id (with_burn now duration)

  unfoldable pub on_auto_delete_reply :
      ℤ → String → ℤ → HttpResponse → Manager → Manager × Next (Unit {0})
  unfolding on_change_reply
  on_auto_delete_reply now conv_id duration =
      on_change_reply "set auto_delete failed" conv_id (with_auto_delete now duration)

  unfoldable pub on_total_reply : HttpResponse → Manager → Manager × Next ℤ
  on_total_reply resp s =
      check api none read_total "get total unread failed" resp s
        (λ total. (s, answers (succeeded (to_int32 (value_or total (pos 0))))))

  unfoldable pub on_unread_reply :
      String → HttpResponse → Manager → Manager × Next ConversationUnreadState
  on_unread_reply conv_id resp s =
      check api (record { unread_count = none; last_message_seq = none; last_message = none })
        read_unread "get unread count failed" resp s
        (λ p.
          let unread = value_or p.unread_count (pos 0) in
          (
            edit conv_id (with_unread unread) s,
            answers (
                succeeded (record {
                  unread_count = unread;
                  last_message_seq = value_or p.last_message_seq (pos 0);
                  last_message = elim p.last_message [
                    | none ↦ none
                    | some m ↦ some (parse_unread_state_message read_string calendar_ms m conv_id)
                  ];
                })),
          ))

  abbrev pub read_receipts_of : List ConversationReadReceiptPayload → List ConversationReadReceipt
  read_receipts_of [] = []
  read_receipts_of (p ∷ ps) = parse_read_receipt read_string calendar_ms p ∷ read_receipts_of ps

  unfoldable pub on_receipts_reply :
      HttpResponse → Manager → Manager × Next (List ConversationReadReceipt)
  unfolding parse_read_receipt
  on_receipts_reply resp s =
      check api none read_receipts "get message read receipts failed" resp s
        (λ payloads. (s, answers (succeeded (read_receipts_of (value_or payloads [])))))

  unfoldable pub on_sequence_reply : String → HttpResponse → Manager → Manager × Next ℤ
  on_sequence_reply conv_id resp s =
      check api none read_sequence "get message sequence failed" resp s (λ seq.
        let seq = value_or seq (pos 0) in (advance_seq conv_id seq s, answers (succeeded seq)))
