-- ===== src/Witnesses/Outbound.antt =====
-- The theorems on core/src/outbound_queue.cpp at concrete inputs.
use mathlib.Core.List.{reverse}
use anychat_sdk.Prelude.{
  arith, ◌+◌, ◌≤◌, String, true, false, pos, ◌≡◌, refl, List, [], ◌∷◌, ◌++◌, none, some, text_ne,
}
use anychat_sdk.Prelude.Text.{text_dec}
use anychat_sdk.Prelude.Sort.{IsStrictWeak, Sorter, stable_sorter}
use anychat_sdk.Types.{MsgSentAck}
use anychat_sdk.Outbound.{
  QueueRow, Callback, Outbound, Codec, created_before, find_row, on_connected,
}
use anychat_sdk.Outbound.Run.{Call, enqueues, connects, disconnects, acks, run}
use anychat_sdk.Outbound.Pending.{Held, pending_until_ack}
use anychat_sdk.Outbound.Flush.{frames, on_connected-log}
use anychat_sdk.Outbound.Callbacks.{successes, budget, queued, success_at_most_once}

created_before-IsStrictWeak : IsStrictWeak created_before
created_before-IsStrictWeak = record {
  asym = λ a b h. ground (arith, h);
  not_less_trans = λ a b c h k. ground (arith, h, k);
}

abbrev sorter : Sorter created_before
sorter = stable_sorter created_before-IsStrictWeak

-- The writer gives the content for a frame; every column holds the text of 1.
abbrev codec : Codec
codec = record {
  write_json = λ frame. some frame.payload.content;
  column_text = λ z. "1";
  stoll = λ s. some (pos 1);
}

abbrev row : QueueRow
row = record {
  local_id = "m1";
  conv_id = "alice";
  conv_type = "single";
  content_type = pos 1;
  content = "hello";
  retry_count = 0;
  created_at = pos 20;
}

abbrev earlier : QueueRow
earlier = record row { local_id = "m0"; content = "earlier"; created_at = pos 10 }

abbrev notify : Callback
notify = record { name = 4; has_success = true; has_error = false }

abbrev waiting : Outbound
waiting = record {
  rows = row ∷ earlier ∷ [];
  send_fn = none;
  callbacks = ("m1", notify) ∷ [];
  log = [];
}

abbrev ack : String → MsgSentAck
ack k = record { message_id = "s"; sequence = pos 5; timestamp = pos 6; local_id = k }

abbrev calls : List Call
calls =
    connects 1
    ∷ acks (ack "m0")
    ∷ disconnects
    ∷ enqueues (pos 30) "bob" "single" (pos 1) "again" "m1" notify
    ∷ connects 2
    ∷ []

waiting-Held : Held row (find_row "m1" waiting.rows)
unfolding find_row text_dec
waiting-Held = (refl, refl, refl, refl, refl, refl, omega arith)

pending_until_ack_example : Held row (find_row "m1" (run codec sorter calls waiting).rows)
pending_until_ack_example =
    pending_until_ack codec sorter "m1" row calls waiting
      (tt, (text_ne "m0" "m1" refl, (tt, (tt, (tt, tt))))) waiting-Held

on_connected-log_example :
    (on_connected codec sorter 3 waiting).log
    ≡ reverse (frames codec 3 (sorter.sort waiting.rows)) ++ waiting.log
on_connected-log_example = on_connected-log codec sorter 3 waiting

success_at_most_once_example :
    successes 4 (run codec sorter calls waiting).log ≤ budget 4 waiting + queued 4 calls
success_at_most_once_example = success_at_most_once codec sorter 4 calls waiting
