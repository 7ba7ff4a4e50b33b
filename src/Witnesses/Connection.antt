-- ===== src/Witnesses/Connection.antt =====
-- The theorems on core/src/connection_manager.cpp at concrete inputs.
use anychat_sdk.Prelude.{
  pos, ◌≤◌, ◌+◌, ◌*◌, ◌^◌, ltb, true, false, ◌&&◌, ◌≡◌, ◌⊎◌, refl, arith, [], ◌∷◌, none, some,
  if◌then◌else◌,
}
use anychat_sdk.Types.{
  connected, disconnected, connecting, reconnecting, not_reachable, reachable_via_wifi,
  is_reachable,
}
use anychat_sdk.Connection.{
  Connection, connect, disconnect, on_network_changed, on_ws_connected, on_ws_disconnected,
  heartbeat_tick, timer_check, timer_done, do_connect, state_changed, ready, ws_connect, ◌>>=◌,
  waiting, sleeping, running, absent,
}
use anychat_sdk.Connection.Events.{user_connect, step, Returns}
use anychat_sdk.Connection.Intent.{dials, step-dials, late_dial}
use anychat_sdk.Connection.Backoff.{ws_disconnected_backoff, losses, gives_up_after_five}
use anychat_sdk.Connection.Heartbeat.{pings, ticks, silence_terminates}
use anychat_sdk.Connection.Recovery.{network_lost_and_back}

abbrev fresh : Connection
fresh = record {
  has_monitor = false;
  has_state_callback = true;
  has_ready_callback = true;
  state = disconnected;
  want_connected = false;
  network_ok = true;
  super_retry_count = pos 0;
  reconnect_pending = false;
  reconnect_cancel = false;
  stopping = false;
  reconnect_delay_ms = 0;
  timer = waiting;
  heartbeat = absent;
  heartbeat_stopping = false;
  last_pong_ms = 0;
  log = [];
}

abbrev dialling : Connection
dialling = record fresh {
  state = connecting;
  want_connected = true;
  reconnect_cancel = true;
  log = ws_connect ∷ state_changed connecting ∷ [];
}

abbrev online : Connection
online = record dialling {
  state = connected;
  heartbeat = running;
  last_pong_ms = 7;
  log = ready ∷ state_changed connected ∷ dialling.log;
}

first_step : step user_connect fresh ≡ some dialling
unfolding step connect
first_step = ground arith

step-dials_example :
    (dials dialling.log ≡ dials fresh.log)
    ⊎ ((dials dialling.log ≡ dials fresh.log + 1)
        × (dialling.want_connected ≡ true)
        × (dialling.network_ok ≡ true)
        × (dialling.state ≡ connecting))
step-dials_example = step-dials user_connect fresh first_step

-- The reconnect thread is about to dial.
abbrev expired : Connection
expired = record dialling { reconnect_cancel = false; reconnect_pending = true; timer = sleeping }

expired_passes : (timer_check expired).1 ≡ true
unfolding timer_check
expired_passes = refl

late_dial_example :
    Returns
      (λ d.
        (d.state ≡ disconnected)
        × (d.want_connected ≡ false)
        × (dials d.log ≡ dials expired.log)
        × (let e = do_connect d in
            (e.state ≡ connecting)
            × (e.want_connected ≡ false)
            × (dials e.log ≡ dials expired.log + 1)))
      (disconnect (timer_check expired).0)
    × Returns
        (λ d. let e = timer_done d in (e.state ≡ disconnected) × (dials e.log ≡ dials expired.log))
        (disconnect expired)
late_dial_example = late_dial expired expired_passes

abbrev retried : Connection
retried = record online { state = reconnecting; super_retry_count = pos 3; heartbeat = absent }

ws_disconnected_backoff_example :
    Returns
      (λ c'.
        if retried.want_connected && retried.network_ok && ltb 3 5
        then (c'.state ≡ reconnecting)
          × (c'.reconnect_pending ≡ true)
          × (c'.reconnect_delay_ms ≡ 30000 * 2 ^ 3)
          × (c'.reconnect_delay_ms ≤ 480000)
        else (c'.state ≡ disconnected) × (c'.reconnect_pending ≡ retried.reconnect_pending))
      (on_ws_disconnected false retried)
ws_disconnected_backoff_example = ws_disconnected_backoff 3 retried refl

gives_up_after_five_example :
    Returns (λ c'. (c'.super_retry_count ≡ pos 6) × (c'.state ≡ disconnected)) (losses 3 retried)
gives_up_after_five_example = gives_up_after_five 2 3 retried (omega arith) refl refl refl

network_lost_and_back_example :
    Returns
      (λ d.
        (d.state ≡ disconnected)
        × (d.reconnect_pending ≡ false)
        × (d.want_connected ≡ true)
        × (dials d.log ≡ dials online.log)
        × Returns
            (λ e.
              (e.state ≡ connecting)
              × (e.super_retry_count ≡ pos 0)
              × (dials e.log ≡ dials online.log + 1))
            (on_network_changed reachable_via_wifi d))
      (on_network_changed not_reachable online)
unfolding is_reachable
network_lost_and_back_example =
    network_lost_and_back not_reachable reachable_via_wifi online refl refl refl refl

silence_terminates_example :
    Returns
      (λ c'. (pings c'.log ≡ pings dialling.log + 2) × (heartbeat_tick 70000 c' ≡ none))
      (on_ws_connected 7 dialling >>= ticks (30007 ∷ 60007 ∷ []))
silence_terminates_example =
    silence_terminates 7 70000 (30007 ∷ 60007 ∷ []) dialling (omega arith, (omega arith, tt))
      (omega arith)
