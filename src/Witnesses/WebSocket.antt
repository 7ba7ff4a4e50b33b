-- ===== src/Witnesses/WebSocket.antt =====
-- The theorems on core/src/network/websocket_client.cpp at concrete inputs.
use anychat_sdk.Json.Digits.{codes}
use anychat_sdk.WebSocket.Url.{parse_url, print_url, IsPlain, parse_url-print_url}
use mathlib.Core.List.{reverse}
use anychat_sdk.Prelude.{
  arith, some, All, pos, ◌+◌, ◌≤◌, true, false, ◌≡◌, refl, List, [], ◌∷◌, ◌++◌, none,
}
use anychat_sdk.WebSocket.{
  Client, looping, create, Event, connects, sends, establishes, writes, closes, fails, rounds, run,
}
use anychat_sdk.WebSocket.Redial.{dials, allowed, dials_bounded, exhausted_never_dials}
use anychat_sdk.WebSocket.SendQueue.{written, given, sends_in_order}

abbrev history : List Event
history =
    connects true true
    ∷ sends "a"
    ∷ fails none
    ∷ rounds true
    ∷ establishes 5
    ∷ sends "b"
    ∷ writes 6
    ∷ closes
    ∷ rounds false
    ∷ []

dials_bounded_example : dials (run history create).log ≤ 5 + allowed history
dials_bounded_example = dials_bounded history

sends_in_order_example :
    reverse (written (run history create).log) ++ (run history create).send_queue ≡ given history
sends_in_order_example = sends_in_order history

abbrev exhausted : Client
exhausted = record {
  connected = false;
  running = true;
  has_wsi = false;
  reconnect_count = 5;
  last_ping = 0;
  send_queue = [];
  worker = looping;
  log = [];
}

abbrev attempts : List Event
attempts = rounds true ∷ connects true true ∷ rounds true ∷ fails none ∷ rounds true ∷ []

exhausted_never_dials_example : dials (run attempts exhausted).log ≡ dials exhausted.log
exhausted_never_dials_example =
    exhausted_never_dials exhausted attempts refl refl refl (tt, (tt, (tt, (tt, (tt, tt)))))

host-IsPlain : All IsPlain (codes "chat.example")
host-IsPlain = ground arith

parse_url-print_url_example :
    parse_url (print_url true (codes "chat.example") 8443 (codes "ws"))
    ≡ some (record {
      use_ssl = true;
      host = codes "chat.example";
      port = pos 8443;
      path = codes "/ws";
    })
parse_url-print_url_example =
    parse_url-print_url true (codes "chat.example") 8443 (codes "ws") host-IsPlain (omega arith)
