-- ===== src/WebSocket.antt =====
-- core/src/network/websocket_client.cpp: the WebSocket client. libwebsockets calls back with
-- `established`, `received`, `writeable`, `connection_error` and `closed` from inside its service
-- call; `loop_round` is what the worker's loop does after that call. Clock readings are in
-- seconds, and a send is a text given to `lws_write`.
pub mod Redial
pub mod SendQueue
pub mod Url
use anychat_sdk.Prelude.{
  ℕ, suc, ◌+◌, ◌-◌, ◌*◌, ◌^◌, String, Bool, true, false, not, ◌&&◌, List, [], ◌∷◌, ◌++◌, Option,
  none, some, ltb, leb, if◌then◌else◌,
}

pub data Effect : Type 0 where
  dialled : Effect  -- `lws_client_connect_via_info`
  slept : ℕ → Effect
  wrote : String → Effect  -- a message of the queue
  pinged : Effect  -- the client's own ping frame
  told_connected told_disconnected : Effect
  told_error told_message : String → Effect

-- The worker thread: none to join, in its loop, or out of it.
pub data Worker : Type 0 where
  absent looping returned : Worker

pub record Client : Type 0 where
  pub connected : Bool
  pub running : Bool
  pub has_wsi : Bool
  pub reconnect_count : ℕ
  pub last_ping : ℕ
  pub send_queue : List String
  pub worker : Worker
  pub log : List Effect  -- newest first

abbrev pub heartbeat_interval_s : ℕ
heartbeat_interval_s = 30

abbrev pub max_reconnect : ℕ
max_reconnect = 5

abbrev pub reconnect_base_ms : ℕ
reconnect_base_ms = 1000

-- A new `Impl`.
unfoldable pub create : Client
create = record {
  connected = false;
  running = false;
  has_wsi = false;
  reconnect_count = 0;
  last_ping = 0;
  send_queue = [];
  worker = absent;
  log = [];
}

-- `do_connect`; `made` says whether libwebsockets returned a connection.
unfoldable pub do_connect : Bool → Client → Client
do_connect made c = record c { has_wsi = made; log = dialled ∷ c.log }

-- `connect`, and the start of `loop` on the thread that it makes. `context` says whether
-- libwebsockets made a context.
unfoldable pub connect : Bool → Bool → Client → Client
unfolding do_connect
connect context made c =
    if c.running
    then c
    else if context
    then do_connect made (record c { running = true; worker = looping })
    else record c {
      running = true;
      worker = returned;
      log = told_error "lws_create_context failed" ∷ c.log;
    }

-- `disconnect` from outside the worker: the loop ends and is joined.
unfoldable pub disconnect : Client → Client
disconnect c = record c { running = false; worker = absent }

unfoldable pub send : String → Client → Client
send message c = record c { send_queue = c.send_queue ++ message ∷ [] }

unfoldable pub established : ℕ → Client → Client
established now c = record c {
  connected = true;
  reconnect_count = 0;
  last_ping = now;
  log = told_connected ∷ c.log;
}

unfoldable pub received : String → Client → Client
received msg c = record c { log = told_message msg ∷ c.log }

unfoldable pub ping_if_due : ℕ → Client → Client
ping_if_due now c =
    if leb heartbeat_interval_s (now - c.last_ping)
    then record c { last_ping = now; log = pinged ∷ c.log }
    else c

-- One message of the queue.
unfoldable pub drain : Client → Client
drain c = elim c.send_queue [
  | [] ↦ c
  | msg ∷ rest ↦ record c { send_queue = rest; log = wrote msg ∷ c.log }
]

unfoldable pub writeable : ℕ → Client → Client
unfolding ping_if_due drain
writeable now c = drain (ping_if_due now c)

unfoldable pub closed : Client → Client
closed c = record c { connected = false; has_wsi = false; log = told_disconnected ∷ c.log }

unfoldable pub connection_error : Option String → Client → Client
unfolding closed
connection_error err c =
    let c = closed c in
    record c { log = told_error (elim err [ none ↦ "unknown" | some e ↦ e ]) ∷ c.log }

-- The reconnection at the end of a round of the loop.
unfoldable pub loop_round : Bool → Client → Client
unfolding do_connect
loop_round made c = elim c.worker [
  | looping ↦
      if c.running
      then (if not c.connected && ltb c.reconnect_count max_reconnect
          then do_connect made (record c {
            reconnect_count = suc c.reconnect_count;
            log = slept (reconnect_base_ms * 2 ^ c.reconnect_count) ∷ c.log;
          })
          else c)
      else record c { worker = returned }
  | _ ↦ c
]

pub data Event : Type 0 where
  connects : Bool → Bool → Event
  disconnects : Event
  sends : String → Event
  establishes : ℕ → Event
  receives : String → Event
  writes : ℕ → Event
  closes : Event
  fails : Option String → Event
  rounds : Bool → Event

unfoldable pub step : Event → Client → Client
unfolding connect disconnect send established received writeable closed connection_error loop_round
step (connects context made) c = connect context made c
step disconnects c = disconnect c
step (sends message) c = send message c
step (establishes now) c = established now c
step (receives msg) c = received msg c
step (writes now) c = writeable now c
step closes c = closed c
step (fails err) c = connection_error err c
step (rounds made) c = loop_round made c

unfoldable pub run : List Event → Client → Client
run [] c = c
run (e ∷ es) c = run es (step e c)
