-- ===== src/MessageManager/Replies.antt =====
-- The replies to the requests of `MessageManagerImpl`.
use anychat_sdk.Prelude.{
  String, Bool, true, false, ℤ, pos, negsuc, List, [], ◌∷◌, ◌++◌, Option, none, some, is_empty,
  length, if◌then◌else◌,
}
use anychat_sdk.Types.{Message}
use anychat_sdk.Http.{
  get, post, succeeded, failed, Next, answers, asks, with_body, with_reply, strict, lacks_route,
}
use anychat_sdk.Json.Digits.{codes}
use anychat_sdk.Json.Envelope.{
  HttpResponse, ApiEnvelope, Read, parse_api_envelope_response, same_int,
}
use anychat_sdk.Json.Values.{parse_int64_value, parse_bool_value}
use anychat_sdk.ConversationManager.Payloads.{value_or}
use anychat_sdk.MessageManager.{
  Manager, Api, Frame, recall_frame, delete_frame, edit_frame, update_cached, update_db, store,
  send_frame, make_http_error,
}
use anychat_sdk.MessageManager.Payloads.{
  MessagePayload, MessageListDataPayload, EditMessageData, empty, wrapped, direct,
  GroupMessageReadState, parse_message_payload, parse_group_message_read_state, blank_message,
}
use anychat_sdk.MessageManager.Requests.{history_fallback_path, parameter}

pub record MessageOfflineResult : Type 0 where
  pub messages : List Message
  pub has_more : Bool
  pub next_seq : ℤ

pub record MessageSearchResult : Type 0 where
  pub messages : List Message
  pub total : ℤ

abbrev pub no_messages : MessageListDataPayload
no_messages = record { messages = none; total = none; has_more = none; next_seq = none }

abbrev pub marked_read : Message → Message
marked_read m = record m { is_read = true }

abbrev pub with_status : ℤ → Message → Message
with_status status m = record m { status = status }

-- `mark_message_ids_read`
unfoldable pub mark_ids_read : List String → Manager → Manager
unfolding update_cached
mark_ids_read [] s = s
mark_ids_read (i ∷ ids) s =
    mark_ids_read ids (if is_empty i then s else update_cached i marked_read s)

-- The message's status in the cache and in the table.
unfoldable pub set_status : String → ℤ → Manager → Manager
set_status i status s = update_db i status none (update_cached i (with_status status) s)

abbrev pub payload_in : EditMessageData → Option MessagePayload
payload_in empty = none
payload_in (wrapped o) = o
payload_in (direct p) = some p

abbrev pub take_edit : Message → Message → Message
take_edit edited m = record m {
  content = edited.content;
  status = (if same_int edited.status (pos 0) then m.status else edited.status);
}

module _ (api : Api) where
  open api use {
    read_none, read_messages, read_group_state, read_edit, write_ids, read_string, calendar_ms,
    http_message,
  }

  abbrev pub check :
      {A : Type 0} → A → (String → Read A) → String → HttpResponse → Bool × ApiEnvelope A
  check no_data read fallback resp =
      parse_api_envelope_response no_data read http_message strict fallback resp

  -- The loop over the messages of a reply: those with an id are stored and handed on.
  unfoldable pub store_listed : String → List MessagePayload → Manager → List Message × Manager
  unfolding parse_message_payload
  store_listed conv_id [] s = ([], s)
  store_listed conv_id (p ∷ ps) s =
      let m = parse_message_payload read_string calendar_ms p conv_id in
      let rest = store_listed conv_id ps (if is_empty m.message_id then s else store api m s) in
      (if is_empty m.message_id then rest.0 else m ∷ rest.0, rest.1)

  unfoldable pub parse_and_return : String → HttpResponse → Manager → Manager × Next (List Message)
  parse_and_return conv_id resp s =
      with_reply (check no_messages read_messages "get history failed" resp) s (λ p.
        let r = store_listed conv_id (value_or p.messages []) s in (r.1, answers (succeeded r.0)))

  unfoldable pub on_history_reply :
      String → ℤ → ℤ → HttpResponse → Manager → Manager × Next (List Message)
  unfolding history_fallback_path
  on_history_reply conv_id before limit resp s =
      if lacks_route resp.status_code
      then (
        s,
        asks
            (record { method = get; path = history_fallback_path conv_id before limit; body = "" }),
      )
      else parse_and_return conv_id resp s

  unfoldable pub on_offline_reply : HttpResponse → Manager → Manager × Next MessageOfflineResult
  on_offline_reply resp s =
      with_reply (check no_messages read_messages "get offline messages failed" resp) s (λ p.
        let r = store_listed "" (value_or p.messages []) s in
        (
          r.1,
          answers (
              succeeded (record {
                messages = r.0;
                has_more = parse_bool_value p.has_more false;
                next_seq = parse_int64_value p.next_seq (pos 0);
              })),
        ))

  unfoldable pub on_search_reply : HttpResponse → Manager → Manager × Next MessageSearchResult
  on_search_reply resp s =
      with_reply (check no_messages read_messages "search messages failed" resp) s (λ p.
        let r = store_listed "" (value_or p.messages []) s in
        (
          r.1,
          answers (
              succeeded
                (record { messages = r.0; total = parse_int64_value p.total (pos (length r.0)) })),
        ))

  unfoldable pub on_group_state_reply :
      HttpResponse → Manager → Manager × Next GroupMessageReadState
  unfolding parse_group_message_read_state
  on_group_state_reply resp s =
      with_reply
        (check (record { read_count = none; unread_count = none; read_members = none })
          read_group_state "get group message read state failed" resp)
        s (λ p. (s, answers (succeeded (parse_group_message_read_state calendar_ms p))))

  -- What the reply to an acknowledgement leads to where the server lacks the route.
  unfoldable pub ack_fallback : String → List String → Next (Unit {0})
  ack_fallback conv_id [] = asks (record {
    method = post;
    path = parameter "/conversations/" (codes conv_id) ++ codes "/read-all";
    body = "";
  })
  ack_fallback conv_id (i ∷ ids) = with_body (write_ids (i ∷ ids)) (λ json. asks (record {
    method = post;
    path = parameter "/conversations/" (codes conv_id) ++ codes "/messages/read";
    body = json;
  }))

  unfoldable pub ack_replied :
      String → List String → ℤ → Bool × ApiEnvelope (Unit {0}) → Manager → Manager × Next (Unit {0})
  ack_replied conv_id ids status (true, root) s = (mark_ids_read ids s, answers (succeeded tt))
  ack_replied conv_id ids status (false, root) s = (
    s,
    if lacks_route status
        then ack_fallback conv_id ids
        else answers (failed root.code root.message),
  )

  unfoldable pub on_ack_reply :
      String → List String → HttpResponse → Manager → Manager × Next (Unit {0})
  unfolding ack_replied
  on_ack_reply conv_id ids resp s =
      ack_replied conv_id ids resp.status_code (check tt read_none "ack messages failed" resp) s

  -- The reply to the second request; there are no ids where all messages were marked.
  unfoldable pub on_ack_fallback_reply :
      List String → HttpResponse → Manager → Manager × Next (Unit {0})
  on_ack_fallback_reply [] resp s =
      with_reply (check tt read_none "mark all read failed" resp) s
        (λ _. (s, answers (succeeded tt)))
  on_ack_fallback_reply (i ∷ ids) resp s =
      with_reply (check tt read_none "mark messages read failed" resp) s
        (λ _. (mark_ids_read (i ∷ ids) s, answers (succeeded tt)))

  -- The common end of the three methods that change a message: `accept` is what a reply that passes
  -- does, and `frame` is sent over the WebSocket where the server lacks the route.
  unfoldable pub change_replied :
      {A : Type 0}
      → Frame
      → HttpResponse
      → (A → Manager → Manager)
      → Bool × ApiEnvelope A
      → Manager
      → Manager × Next (Unit {0})
  change_replied frame resp accept (true, root) s = (accept root.payload s, answers (succeeded tt))
  change_replied frame resp accept (false, root) s =
      if lacks_route resp.status_code then send_frame api frame s else (
        s,
        answers (
            failed (if same_int root.code (pos 0) then negsuc 0 else root.code)
              (if is_empty root.message then make_http_error api resp else root.message)),
      )

  unfoldable pub on_recall_reply : String → HttpResponse → Manager → Manager × Next (Unit {0})
  unfolding change_replied
  on_recall_reply i resp s =
      change_replied (recall_frame i) resp (λ _. set_status i (pos 1))
        (check tt read_none "recall message failed" resp) s

  unfoldable pub on_delete_reply : String → HttpResponse → Manager → Manager × Next (Unit {0})
  unfolding change_replied
  on_delete_reply i resp s =
      change_replied (delete_frame i) resp (λ _. set_status i (pos 2))
        (check tt read_none "delete message failed" resp) s

  -- `edited`: the message of the reply if it has an id, else a blank one with the content.
  unfoldable pub edited_by : String → String → Option MessagePayload → Message
  unfolding parse_message_payload blank_message
  edited_by i content none = record blank_message { message_id = i; content = content }
  edited_by i content (some p) =
      let m = parse_message_payload read_string calendar_ms p "" in
      if is_empty m.message_id then record m { message_id = i; content = content } else m

  unfoldable pub apply_edit : String → String → EditMessageData → Manager → Manager
  unfolding edited_by
  apply_edit i content d s =
      let edited = edited_by i content (payload_in d) in
      update_db i edited.status (some edited.content) (update_cached i (take_edit edited) s)

  unfoldable pub on_edit_reply :
      String → String → HttpResponse → Manager → Manager × Next (Unit {0})
  unfolding change_replied
  on_edit_reply i content resp s =
      change_replied (edit_frame i content) resp (apply_edit i content)
        (check empty read_edit "edit message failed" resp) s
