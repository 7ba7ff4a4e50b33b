-- ===== src/Witnesses/ConversationManager.antt =====
-- The theorems on core/src/conversation_manager.cpp at concrete inputs.
use anychat_sdk.Prelude.{
  ◌≤◌, Bool, true, false, ◌≡◌, refl, arith, ℤ, pos, [], ◌∷◌, none, some, count_if, text_ne, ltb_ℤ,
  if◌then◌else◌,
}
use anychat_sdk.Prelude.Sort.{Sorter, stable_sorter, IsStrictWeak}
use anychat_sdk.Prelude.Text.{text_dec}
use anychat_sdk.Types.{Conversation, private}
use anychat_sdk.Cache.ConversationCache
use anychat_sdk.Cache.ConversationCache.Invariant.{clear-IsValid}
use anychat_sdk.Cache.ConversationCache.Lookup.{get-upsert}
use anychat_sdk.Http.{strict, text, answers, succeeded}
use anychat_sdk.Json.Digits.{to_string}
use anychat_sdk.Json.Envelope.{
  HttpResponse, parsed, same_int, parse_api_envelope_response, check_code, check_status, read_body,
}
use anychat_sdk.Json.RoundTrip.{stoll-to_string_int64}
use anychat_sdk.ConversationManager.{Manager, Api, store}
use anychat_sdk.ConversationManager.Deletion.{deleted_row_stays}
use anychat_sdk.ConversationManager.Mirror.{IsMirrored, store-IsMirrored}
use anychat_sdk.ConversationManager.Payloads.{ConversationPayload, NotificationConversationPayload}
use anychat_sdk.ConversationManager.Replies.{on_delete_reply}
use anychat_sdk.ConversationManager.Requests.{get_conversation_list}
use anychat_sdk.ConversationManager.Restart.{key_is, InRange, restart_recovers}
use anychat_sdk.ConversationManager.Rows.{Row, row_of, find_row, upsert_db, listed_before}
use anychat_sdk.ConversationManager.Run.{run, deletes, pins, run-IsMirrored}

-- The greater key first, and where two are the same, the order `less`.
abbrev then_by : (Row → ℤ) → (Row → Row → Bool) → Row → Row → Bool
then_by key less a b = if same_int (key a) (key b) then less a b else ltb_ℤ (key b) (key a)

then_by-IsStrictWeak :
    (key : Row → ℤ) (less : Row → Row → Bool) → IsStrictWeak less → IsStrictWeak (then_by key less)
then_by-IsStrictWeak key less w = record {
  asym = λ a b h. ground (arith, h, w.asym a b);
  not_less_trans = λ a b c h k. ground (arith, h, k, w.not_less_trans a b c);
}

later-IsStrictWeak : IsStrictWeak {A = Row} (λ a b. ltb_ℤ b.last_msg_time_ms a.last_msg_time_ms)
later-IsStrictWeak = record {
  asym = λ a b h. ground (arith, h);
  not_less_trans = λ a b c h k. ground (arith, h, k);
}

listed_before-IsStrictWeak : IsStrictWeak listed_before
unfolding listed_before
listed_before-IsStrictWeak =
    then_by-IsStrictWeak (λ r. r.is_pinned) _
      (then_by-IsStrictWeak (λ r. r.pin_time_ms) _ later-IsStrictWeak)

abbrev sorter : Sorter listed_before
sorter = stable_sorter listed_before-IsStrictWeak

abbrev blank : ConversationPayload
blank = record {
  conversation_id = "";
  conversation_type = "";
  target_id = "";
  last_message_id = "";
  last_message_content = "";
  last_message_time = none;
  unread_count = none;
  is_pinned = none;
  is_muted = none;
  burn_after_reading = none;
  auto_delete_duration = none;
  pin_time = none;
  updated_at = none;
}

-- Any body is read as an envelope with code 0 and little in it.
abbrev api : Api
api = record {
  read_none = λ s. parsed (record { code = pos 0; message = ""; payload = tt });
  read_list = λ s. parsed (record { code = pos 0; message = ""; payload = none });
  read_conversation = λ s. parsed (record { code = pos 0; message = ""; payload = blank });
  read_marked = λ s. parsed (record {
    code = pos 0;
    message = "";
    payload = record { accepted_ids = none; ignored_ids = none; advanced_last_read_seq = none };
  });
  read_total = λ s. parsed (record { code = pos 0; message = ""; payload = none });
  read_unread = λ s. parsed (record {
    code = pos 0;
    message = "";
    payload = record { unread_count = none; last_message_seq = none; last_message = none };
  });
  read_receipts = λ s. parsed (record { code = pos 0; message = ""; payload = none });
  read_sequence = λ s. parsed (record { code = pos 0; message = ""; payload = none });
  read_notification = λ s. none;
  blank_payload = blank;
  write_ids = λ l. text "[]";
  write_pinned = λ b. text "{}";
  write_muted = λ b. text "{}";
  write_duration = λ z. text "{}";
  read_string = λ s. some s;
  calendar_ms = λ s. pos 0;
  column_text = to_string;
  http_message = λ z. "HTTP error";
}

abbrev reply : HttpResponse
reply = record { status_code = pos 200; body = "{}"; error = "" }

abbrev chat : Conversation
chat = record {
  conv_id = "c1";
  conv_type = private;
  target_id = "alice";
  last_msg_id = "a";
  last_msg_text = "hello";
  last_msg_time_ms = pos 5;
  unread_count = pos 1;
  is_pinned = true;
  is_muted = false;
  burn_after_reading = pos 0;
  auto_delete_duration = pos 0;
  pin_time_ms = pos 4;
  local_seq = pos 3;
  updated_at_ms = pos 5;
}

-- A manager that has one conversation, with messages.
abbrev new_manager : Manager
new_manager = record {
  cache = [];
  rows = [];
  message_convs = "c1" ∷ [];
  has_listener = true;
  log = [];
}

abbrev one : Manager
one = store chat new_manager

new_manager-IsMirrored : IsMirrored new_manager
unfolding ConversationCache.get ConversationCache.clear
new_manager-IsMirrored = record { valid = clear-IsValid []; mirrored = λ k c h. ground (arith, h) }

one-IsMirrored : IsMirrored one
one-IsMirrored = store-IsMirrored chat new_manager new_manager-IsMirrored

run-IsMirrored_example :
    IsMirrored (run api (pins (pos 9) "c1" false reply ∷ deletes "c1" reply ∷ []) one)
run-IsMirrored_example =
    run-IsMirrored api (pins (pos 9) "c1" false reply ∷ deletes "c1" reply ∷ []) one (tt, (tt, tt))
      one-IsMirrored

chat-InRange : InRange chat
chat-InRange = record {
  last_msg_time = (omega arith, omega arith);
  unread = (omega arith, omega arith);
  burn = (omega arith, omega arith);
  auto_delete = (omega arith, omega arith);
  pin_time = (omega arith, omega arith);
  seq = (omega arith, omega arith);
  updated_at = (omega arith, omega arith);
}

one_row : count_if (key_is "c1") one.rows ≤ 1
unfolding store upsert_db row_of text_dec
one_row = omega arith

found : ConversationCache.get "c1" one.cache ≡ some chat
unfolding store text_dec ConversationCache.clear
found = get-upsert chat [] "c1" (clear-IsValid [])

restart_recovers_example :
    ConversationCache.get "c1"
      (get_conversation_list api sorter (record one { cache = [] })).0.cache
    ≡ some chat
restart_recovers_example =
    restart_recovers api sorter stoll-to_string_int64 "c1" chat one one-IsMirrored one_row
      chat-InRange found

passed :
    parse_api_envelope_response tt api.read_none api.http_message strict
      "delete conversation failed" reply
    ≡ (true, record { code = pos 0; message = ""; payload = tt })
unfolding parse_api_envelope_response check_code check_status read_body
passed = ground (arith, text_ne "{}" "" refl)

deleted_row_stays_example :
    let (t, next) = on_delete_reply api "c1" reply one in
    (next ≡ answers (succeeded tt))
    × (ConversationCache.get "c1" t.cache ≡ none)
    × (find_row "c1" t.rows ≡ find_row "c1" one.rows)
unfolding text_dec find_row store
deleted_row_stays_example =
    deleted_row_stays api "c1" reply one (record { code = pos 0; message = ""; payload = tt })
      passed

abbrev muted : NotificationConversationPayload
muted = record {
  conversation_id = some "c1";
  unread_count = none;
  is_pinned = none;
  is_muted = some true;
  burn_after_reading = none;
  auto_delete_duration = none;
}
