-- ===== src/Connection.antt =====
-- core/src/connection_manager.h and .cpp: the connection state machine. Each handler is a
-- function, as are the parts of the loops of the reconnect thread (`timer_wake`, `timer_check`,
-- `timer_done`) and of the heartbeat thread (`heartbeat_tick`). They run on several threads with no
-- lock around them, only single fields are atomic: a function here is a call that no other call
-- overlaps. Clock readings are arguments. `none` is `std::terminate`, as a thread that joins itself
-- throws `std::system_error`, which nothing catches, or a shift by a negative number.
pub mod Events
pub mod Intent
pub mod Backoff
pub mod Heartbeat
pub mod Recovery
use anychat_sdk.Prelude.{
  ℕ, ◌+◌, ◌-◌, ◌*◌, ◌^◌, min, Bool, true, false, not, ◌&&◌, ◌||◌, List, [], ◌∷◌, Option, none, some,
  ltb, ℤ, pos, negsuc, ltb_ℤ, inc32, if◌then◌else◌,
}
use anychat_sdk.Types.{
  ConnectionState, disconnected, connecting, connected, reconnecting, NetworkStatus, is_reachable,
  ConnectionState-discrete,
}

-- The calls that the manager makes on its collaborators.
pub data Effect : Type 0 where
  state_changed : ConnectionState → Effect
  ready ws_connect ws_disconnect ws_ping monitor_start monitor_stop : Effect

-- Where the reconnect thread stands.
pub data Timer : Type 0 where
  waiting sleeping ended : Timer

-- `heartbeat_thread_`: not joinable, in its loop, or past it and not joined.
pub data Thread : Type 0 where
  absent running finished : Thread

pub record Connection : Type 0 where
  pub has_monitor : Bool
  pub has_state_callback : Bool
  pub has_ready_callback : Bool
  pub state : ConnectionState
  pub want_connected : Bool
  pub network_ok : Bool
  pub super_retry_count : ℤ  -- an `int`
  pub reconnect_pending : Bool
  pub reconnect_cancel : Bool
  pub stopping : Bool
  pub reconnect_delay_ms : ℕ
  pub timer : Timer
  pub heartbeat : Thread
  pub heartbeat_stopping : Bool
  pub last_pong_ms : ℕ
  pub log : List Effect  -- newest first

abbrev pub super_base_delay_ms : ℕ
super_base_delay_ms = 30000

abbrev pub max_super_retries : ℤ
max_super_retries = pos 5

abbrev pub pong_timeout_ms : ℕ
pong_timeout_ms = 60000

infixl 5 ◌>>=◌
abbrev pub ◌>>=◌ {ℓ κ} : {A : Type ℓ} {B : Type κ} → Option A → (A → Option B) → Option B
none >>= f = none
some a >>= f = f a

abbrev pub same_state : ConnectionState → ConnectionState → Bool
same_state s t = elim (ConnectionState-discrete s t) [ yes _ ↦ true | no _ ↦ false ]

-- The constructor: `monitor` is the status that the monitor reports, if there is a monitor.
unfoldable pub create : Option NetworkStatus → Bool → Bool → Connection
create monitor has_state_callback has_ready_callback = record {
  has_monitor = elim monitor [ none ↦ false | some _ ↦ true ];
  has_state_callback = has_state_callback;
  has_ready_callback = has_ready_callback;
  state = disconnected;
  want_connected = false;
  network_ok = elim monitor [ none ↦ true | some s ↦ is_reachable s ];
  super_retry_count = pos 0;
  reconnect_pending = false;
  reconnect_cancel = false;
  stopping = false;
  reconnect_delay_ms = 0;
  timer = waiting;
  heartbeat = absent;
  heartbeat_stopping = false;
  last_pong_ms = 0;
  log = [];
}

abbrev pub emit : Effect → Connection → Connection
emit e c = record c { log = e ∷ c.log }

unfoldable pub set_state : ConnectionState → Connection → Connection
set_state s c =
    if same_state c.state s
    then c
    else if c.has_state_callback
    then record c { state = s; log = state_changed s ∷ c.log }
    else record c { state = s }

unfoldable pub do_connect : Connection → Connection
unfolding set_state
do_connect c = emit ws_connect (set_state connecting c)

unfoldable pub do_disconnect : Connection → Connection
unfolding set_state
do_disconnect c = set_state disconnected (emit ws_disconnect c)

unfoldable pub schedule_reconnect : ℕ → Connection → Connection
schedule_reconnect delay_ms c = record c {
  reconnect_delay_ms = delay_ms;
  reconnect_cancel = false;
  reconnect_pending = true;
}

unfoldable pub cancel_reconnect : Connection → Connection
cancel_reconnect c = record c { reconnect_cancel = true; reconnect_pending = false }

-- The second argument says whether the heartbeat thread itself makes the call.
unfoldable pub stop_heartbeat : Bool → Connection → Option Connection
stop_heartbeat own c = elim c.heartbeat [
  | absent ↦ some (record c { heartbeat_stopping = true })
  | _ ↦ if own then none else some (record c { heartbeat_stopping = true; heartbeat = absent })
]

unfoldable pub start_heartbeat : ℕ → Connection → Option Connection
unfolding stop_heartbeat
start_heartbeat now c = do
  c ← stop_heartbeat false c
  some (record c { heartbeat_stopping = false; last_pong_ms = now; heartbeat = running })

abbrev pub start_monitor : Connection → Connection
start_monitor c = if c.has_monitor then emit monitor_start c else c

abbrev pub stop_monitor : Connection → Connection
stop_monitor c = if c.has_monitor then emit monitor_stop c else c

unfoldable pub connect : Connection → Connection
unfolding cancel_reconnect do_connect
connect c =
    let c = record c { want_connected = true; super_retry_count = pos 0 } in
    let c = start_monitor (cancel_reconnect c) in
    if c.network_ok then do_connect c else set_state disconnected c

unfoldable pub disconnect : Connection → Option Connection
unfolding cancel_reconnect stop_heartbeat do_disconnect
disconnect c = do
  c ← stop_heartbeat false (cancel_reconnect (record c { want_connected = false }))
  some (stop_monitor (do_disconnect c))

unfoldable pub on_pong_received : ℕ → Connection → Connection
on_pong_received now c = record c { last_pong_ms = now }

abbrev pub can_recover : Connection → Bool
can_recover c =
    c.want_connected && (same_state c.state disconnected || same_state c.state reconnecting)

unfoldable pub on_network_recovered : Connection → Option Connection
unfolding cancel_reconnect do_connect
on_network_recovered c =
    if can_recover c
    then some (do_connect (cancel_reconnect (record c { super_retry_count = pos 0 })))
    else some c

unfoldable pub on_network_lost : Connection → Option Connection
unfolding cancel_reconnect stop_heartbeat do_disconnect
on_network_lost c =
    if same_state c.state disconnected
    then some (cancel_reconnect c)
    else (do c ← stop_heartbeat false (cancel_reconnect c); some (do_disconnect c))

unfoldable pub on_network_changed : NetworkStatus → Connection → Option Connection
unfolding on_network_recovered on_network_lost is_reachable
on_network_changed status c =
    let reachable = is_reachable status in
    let c' = record c { network_ok = reachable } in
    if reachable
    then (if c.network_ok then some c' else on_network_recovered c')
    else (if c.network_ok then on_network_lost c' else some c')

unfoldable pub on_ws_connected : ℕ → Connection → Option Connection
unfolding set_state start_heartbeat
on_ws_connected now c = do
  c ← start_heartbeat now (set_state connected (record c { super_retry_count = pos 0 }))
  some (if c.has_ready_callback then emit ready c else c)

-- 30 s × 2ⁿ, with n at most 4. The shift is undefined where n is negative.
unfoldable pub backoff_ms : ℤ → Option ℕ
backoff_ms (pos retries) = some (super_base_delay_ms * 2 ^ min retries 4)
backoff_ms (negsuc n) = none

-- `onWsDisconnected` behind `stopHeartbeat`.
unfoldable pub hand_over : Connection → Option Connection
unfolding set_state schedule_reconnect backoff_ms
hand_over c =
    if c.want_connected && c.network_ok
    then (let retries = c.super_retry_count in
        let c = record c { super_retry_count = inc32 retries } in
        if ltb_ℤ retries max_super_retries
        then (do
          delay ← backoff_ms retries
          some (schedule_reconnect delay (set_state reconnecting c)))
        else some (set_state disconnected c))
    else some (set_state disconnected c)

unfoldable pub on_ws_disconnected : Bool → Connection → Option Connection
unfolding stop_heartbeat hand_over
on_ws_disconnected own c = do c ← stop_heartbeat own c; hand_over c

unfoldable pub on_ws_error : Connection → Connection
unfolding set_state
on_ws_error c = if same_state c.state connected then set_state reconnecting c else c

-- The reconnect thread returns from its first wait.
unfoldable pub timer_wake : Connection → Connection
timer_wake c = elim c.timer [
  | waiting ↦
      if c.stopping
      then record c { timer = ended }
      else if c.reconnect_pending
      then record c { reconnect_cancel = false; timer = sleeping }
      else c
  | _ ↦ c
]

-- It returns from its second wait, by the timeout or by a cancellation, and tests whether to go on
-- to `doConnect`.
unfoldable pub timer_check : Connection → Connection × Bool
timer_check c = elim c.timer [
  | sleeping ↦ (
    record c { reconnect_pending = false; timer = waiting },
    not (c.reconnect_cancel || c.stopping) && (c.want_connected && c.network_ok),
  )
  | _ ↦ (c, false)
]

-- The rest of the round, where no other thread acts behind the test.
unfoldable pub timer_done : Connection → Connection
unfolding timer_check do_connect
timer_done c = let (woken, goes_on) = timer_check c in if goes_on then do_connect woken else woken

-- One round of the heartbeat loop, from the return of its wait.
unfoldable pub heartbeat_tick : ℕ → Connection → Option Connection
unfolding on_ws_disconnected
heartbeat_tick now c = elim c.heartbeat [
  | running ↦
      if c.heartbeat_stopping
      then some (record c { heartbeat = finished })
      else if same_state c.state connected
      then (if ltb pong_timeout_ms (now - c.last_pong_ms)
          then (do c ← on_ws_disconnected true c; some (record c { heartbeat = finished }))
          else some (emit ws_ping c))
      else some c
  | _ ↦ some c
]

-- The destructor, up to the join of the reconnect thread and after it.
unfoldable pub destroy : Connection → Option Connection
unfolding stop_heartbeat
destroy c = do
  c ← stop_heartbeat false c
  some (
      emit ws_disconnect (
        stop_monitor (record c {
          stopping = true;
          reconnect_cancel = true;
          reconnect_pending = true;
          timer = ended;
        })))
