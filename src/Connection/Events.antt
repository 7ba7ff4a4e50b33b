-- ===== src/Connection/Events.antt =====
-- The calls that drive the connection manager.
use anychat_sdk.Prelude.{ℕ, Option, none, some, false}
use anychat_sdk.Types.{NetworkStatus}
use anychat_sdk.Connection.{
  Connection, connect, disconnect, on_pong_received, on_network_changed, on_ws_connected,
  on_ws_disconnected, on_ws_error, timer_wake, timer_done, heartbeat_tick, ◌>>=◌,
}

pub data Event : Type 0 where
  user_connect user_disconnect : Event
  network_changed : NetworkStatus → Event
  ws_connected : ℕ → Event
  ws_disconnected ws_error : Event
  pong : ℕ → Event
  timer_wakes timer_fires : Event
  heartbeat_ticks : ℕ → Event

unfoldable pub step : Event → Connection → Option Connection
unfolding connect disconnect on_pong_received on_network_changed on_ws_connected on_ws_disconnected
    on_ws_error timer_wake timer_done heartbeat_tick
step user_connect c = some (connect c)
step user_disconnect c = disconnect c
step (network_changed s) c = on_network_changed s c
step (ws_connected now) c = on_ws_connected now c
step ws_disconnected c = on_ws_disconnected false c
step ws_error c = some (on_ws_error c)
step (pong now) c = some (on_pong_received now c)
step timer_wakes c = some (timer_wake c)
step timer_fires c = some (timer_done c)
step (heartbeat_ticks now) c = heartbeat_tick now c

-- The call returns, with a value that satisfies `P`.
abbrev pub Returns {ℓ} : {A : Type ℓ} → (A → Type 0) → Option A → Type 0
Returns P none = ⊥
Returns P (some a) = P a

pub >>=-Returns {ℓ κ} :
    {A : Type ℓ} {B : Type κ} (P : A → Type 0) (Q : B → Type 0) (o : Option A) (f : A → Option B)
    → Returns P o
    → ((a : A) → P a → Returns Q (f a))
    → Returns Q (o >>= f)
>>=-Returns P Q none f h k = absurd h
>>=-Returns P Q (some a) f h k = k a h

pub Returns-mono {ℓ} :
    {A : Type ℓ} (P Q : A → Type 0) (o : Option A)
    → ((a : A) → P a → Q a)
    → Returns P o
    → Returns Q o
Returns-mono P Q none h r = r
Returns-mono P Q (some a) h r = h a r
