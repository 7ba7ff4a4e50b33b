-- ===== src/Witnesses/MessageManager.antt =====
-- The theorems on core/src/message_manager.cpp at concrete inputs.
use anychat_sdk.Prelude.{
  String, true, false, ◌≡◌, ◌⊎◌, refl, arith, pos, List, [], ◌∷◌, none, some, text_ne,
}
use anychat_sdk.Prelude.Sort.{Sorter, stable_sorter}
use anychat_sdk.Prelude.Text.{text_dec}
use anychat_sdk.Types.{Message, MessageType}
use anychat_sdk.Cache.MessageCache
use anychat_sdk.Cache.MessageCache.{seq_less}
use anychat_sdk.Cache.MessageCache.Invariant.{IsValid, seq_less-IsStrictWeak, new_cache-IsValid}
use anychat_sdk.Http.{strict, text}
use anychat_sdk.Json.Digits.{codes}
use anychat_sdk.Json.Envelope.{
  HttpResponse, parsed, parse_api_envelope_response, check_code, check_status, read_body,
}
use anychat_sdk.Outbound.{Outbound, QueueRow, Callback, Codec, find_row, build_send_frame}
use anychat_sdk.Outbound.Pending.{HeldBy}
use anychat_sdk.MessageManager.{
  Manager, Api, recalled, edited, recall_frame, find_message, first_with_id,
}
use anychat_sdk.MessageManager.Edits.{recall_notified, edit_notified}
use anychat_sdk.MessageManager.Ids.{
  entries, Outgoing, given, send_texts, all_sent_stored, colliding_message_not_stored,
}
use anychat_sdk.MessageManager.LocalIds.{local_id, text_onto}
use anychat_sdk.MessageManager.Lookup.{ids, mapped}
use anychat_sdk.MessageManager.Notifications.{handle_recalled, handle_edited}
use anychat_sdk.MessageManager.Payloads.{empty, NotificationMessagePayload}
use anychat_sdk.MessageManager.Recall.{Accepted, Refused, recall_outcome, edit_status_differs}
use anychat_sdk.MessageManager.Replies.{no_messages, on_recall_reply, on_edit_reply}
use anychat_sdk.MessageManager.Requests.{send_text_message}
use anychat_sdk.MessageManager.Rows as Rows
use anychat_sdk.MessageManager.Rows.{Row, row_of}
use anychat_sdk.MessageManager.Run.{run, recalls, searched, run-CacheIsValid}
use anychat_sdk.MessageManager.UrlEncode.{url_encode, url_decode, url_decode-url_encode}

abbrev sorter : Sorter seq_less
sorter = stable_sorter seq_less-IsStrictWeak

abbrev codec : Codec
codec = record {
  write_json = λ frame. some frame.payload.content;
  column_text = λ z. "1";
  stoll = λ s. some (pos 1);
}

-- Any body is read as an envelope with code 0 and nothing in it.
abbrev api : Api
api = record {
  read_none = λ s. parsed (record { code = pos 0; message = ""; payload = tt });
  read_messages = λ s. parsed (record { code = pos 0; message = ""; payload = no_messages });
  read_group_state = λ s. parsed (record {
    code = pos 0;
    message = "";
    payload = record { read_count = none; unread_count = none; read_members = none };
  });
  read_edit = λ s. parsed (record { code = pos 0; message = ""; payload = empty });
  read_message_notification = λ s. none;
  read_receipt_notification = λ s. none;
  read_typing_notification = λ s. none;
  write_ack = λ k l. text "{}";
  write_ids = λ l. text "{}";
  write_recall = λ i. text "{}";
  write_edit = λ c. text "{}";
  write_frame = λ f. text "{}";
  read_string = λ s. some s;
  calendar_ms = λ s. pos 0;
  http_message = λ z. "HTTP error";
  codec = codec;
  sorter = sorter;
}

abbrev reply : HttpResponse
reply = record { status_code = pos 200; body = "{}"; error = "" }

abbrev hello : Message
hello = record {
  message_id = "a";
  local_id = "";
  conv_id = "c1";
  sender_id = "alice";
  content_type = pos 3;
  type = MessageType.text;
  content = "hello";
  seq = pos 3;
  reply_to = "";
  timestamp_ms = pos 5;
  status = pos 2;
  send_state = pos 0;
  is_read = false;
}

-- A row that an earlier process left.
abbrev queued : QueueRow
queued = record {
  local_id = "local_1";
  conv_id = "c1";
  conv_type = "private";
  content_type = pos 1;
  content = "first";
  retry_count = 1;
  created_at = pos 7;
}

abbrev outbound : Outbound
outbound = record { rows = queued ∷ []; send_fn = some 1; callbacks = []; log = [] }

abbrev one : Manager
one = record {
  cache = record { bucket_size = 2; buckets = ("c1", hello ∷ []) ∷ [] };
  rows = row_of hello ∷ [];
  conversations = "c1" ∷ [];
  outbound = outbound;
  counter = 1;
  current_user_id = "";
  has_listener = true;
  log = [];
}

hello_found : find_message "a" one.cache.buckets ≡ some hello
unfolding find_message first_with_id text_dec
hello_found = refl

run-CacheIsValid_example :
    IsValid
      (run api
        (searched reply ∷ recalls "a" reply ∷ [])
        (record one { cache = MessageCache.new_cache 2 })).cache
run-CacheIsValid_example =
    run-CacheIsValid api (searched reply ∷ recalls "a" reply ∷ [])
      (record one { cache = MessageCache.new_cache 2 }) (tt, (tt, tt)) (new_cache-IsValid 2)

recall_outcome_example :
    let (t, next) = on_recall_reply api "a" reply one in
    let ok =
      (parse_api_envelope_response tt api.read_none api.http_message strict "recall message failed"
        reply).0 in
    ((ok ≡ true) × Accepted api "a" (pos 1) one t next)
    ⊎ ((ok ≡ false) × Refused api (recall_frame "a") reply one t next)
recall_outcome_example = recall_outcome api "a" reply one (text_ne "a" "" refl)

edit_passed :
    parse_api_envelope_response empty api.read_edit api.http_message strict "edit message failed"
      reply
    ≡ (true, record { code = pos 0; message = ""; payload = empty })
unfolding parse_api_envelope_response check_code check_status read_body
edit_passed = ground (arith, text_ne "{}" "" refl)

-- The message was deleted: its row forgets it.
edit_status_differs_example :
    let t = (on_edit_reply api "a" "new" reply one).0 in
    (find_message "a" t.cache.buckets
      ≡ mapped (λ m. record m { content = "new" }) (find_message "a" one.cache.buckets))
    × (Rows.find_row "a" t.rows
        ≡ mapped (λ r. record r { status = pos 0; content = "new" }) (Rows.find_row "a" one.rows))
edit_status_differs_example =
    edit_status_differs api "a" "new" reply one
      (record { code = pos 0; message = ""; payload = empty }) (text_ne "a" "" refl) edit_passed
      refl

-- It names another conversation, and no content type.
abbrev notified : NotificationMessagePayload
notified = record {
  message_id = "a";
  local_id = "";
  conversation_id = "c2";
  from_user_id = "alice";
  content_type = none;
  content = "";
  seq = none;
  reply_to = "";
  sent_at = none;
  recalled_at = none;
  deleted_at = none;
}

recall_notified_example :
    let s' = handle_recalled api (pos 8) notified one in
    let m' = record hello { conv_id = "c2"; status = pos 1 } in
    (find_message "a" s'.cache.buckets ≡ some m')
    × ((k : String) → ids (MessageCache.get s'.cache k) ≡ ids (MessageCache.get one.cache k))
    × (Rows.find_row "a" s'.rows
        ≡ mapped (Rows.with_status (pos 1) (some "hello")) (Rows.find_row "a" one.rows))
    × (s'.log ≡ recalled m' ∷ [])
unfolding text_dec
recall_notified_example =
    recall_notified api (pos 8) notified hello one (text_ne "a" "" refl) hello_found

edit_notified_example :
    let s' = handle_edited api notified one in
    let m' = record hello { content_type = pos 1 } in
    (find_message "a" s'.cache.buckets ≡ some m')
    × (Rows.find_row "a" s'.rows
        ≡ mapped (Rows.with_status (pos 2) (some "hello")) (Rows.find_row "a" one.rows))
    × (s'.log ≡ edited m' ∷ [])
unfolding text_dec
edit_notified_example = edit_notified api notified hello one (text_ne "a" "" refl) hello_found

queued_found : find_row (local_id 1) one.outbound.rows ≡ some queued
unfolding find_row local_id text_onto text_dec
queued_found = refl

abbrev silent : Callback
silent = record { name = 1; has_success = false; has_error = false }

colliding_message_not_stored_example :
    let t = send_text_message api (pos 9) "c2" "second" silent one in
    HeldBy t.outbound.rows (local_id 1) queued
    × (entries t.outbound.rows ≡ entries one.outbound.rows)
    × (t.outbound.log
        ≡ given one.outbound.send_fn
            (build_send_frame api.codec "c2" "private" (pos 1) "second" (local_id 1))
            one.outbound.log)
colliding_message_not_stored_example =
    colliding_message_not_stored api (pos 9) "c2" "second" silent one queued queued_found

abbrev idle : Manager
idle = record one { outbound = record outbound { rows = [] } }

abbrev outgoing : List Outgoing
outgoing =
    record { now_s = pos 9; conv_id = "c2"; content = "second"; callback = silent }
    ∷ record { now_s = pos 9; conv_id = "c2"; content = "third"; callback = silent }
    ∷ []

all_sent_stored_example :
    let t = send_texts api outgoing idle in
    (t.counter ≡ 3)
    × (entries t.outbound.rows ≡ (local_id 1, "second") ∷ (local_id 2, "third") ∷ [])
all_sent_stored_example = all_sent_stored api outgoing idle (λ k l u. tt) (omega arith)

url_decode-url_encode_example : url_decode (url_encode (codes "a b/é")) ≡ codes "a b/é"
url_decode-url_encode_example =
    url_decode-url_encode (codes "a b/é")
      (omega arith, (omega arith, (omega arith, (omega arith, (omega arith, tt)))))
