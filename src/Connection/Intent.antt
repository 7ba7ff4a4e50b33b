-- ===== src/Connection/Intent.antt =====
-- When the manager dials, call by call and where `disconnect` overlaps the reconnect thread.
use anychat_sdk.Prelude.{ℕ, suc, ◌+◌, true, false, ◌≡◌, ◌⊎◌, arith, List, [], ◌∷◌, some}
use anychat_sdk.Types.{disconnected, connecting}
use anychat_sdk.Connection.{
  Connection, Effect, ws_connect, disconnect, timer_check, timer_done, do_connect,
}
use anychat_sdk.Connection.Events.{
  Event, user_connect, user_disconnect, network_changed, ws_connected, ws_disconnected, ws_error,
  pong, timer_wakes, timer_fires, heartbeat_ticks, step, Returns,
}

-- How often the WebSocket was told to connect.
abbrev pub dials : List Effect → ℕ
dials [] = 0
dials (ws_connect ∷ l) = suc (dials l)
dials (_ ∷ l) = dials l

-- A step, which no other call overlaps, tells the WebSocket to connect at most once, and only where
-- after it the user wants a connection, the network is up and the state is `Connecting`.
pub step-dials :
    (e : Event) (c : Connection) {c' : Connection}
    → step e c ≡ some c'
    → (dials c'.log ≡ dials c.log)
      ⊎ ((dials c'.log ≡ dials c.log + 1)
          × (c'.want_connected ≡ true)
          × (c'.network_ok ≡ true)
          × (c'.state ≡ connecting))
unfolding step
step-dials user_connect c h = ground arith
step-dials user_disconnect c h = ground arith
step-dials (network_changed s) c h = ground arith
step-dials (ws_connected now) c h = ground arith
step-dials ws_disconnected c h = ground arith
step-dials ws_error c h = ground arith
step-dials (pong now) c h = ground arith
step-dials timer_wakes c h = ground arith
step-dials timer_fires c h = ground arith
step-dials (heartbeat_ticks now) c h = ground arith

-- The reconnect thread tests and dials with no lock around the two. If `disconnect` runs after the
-- test has succeeded and before the dial, it returns `Disconnected`, but the thread then makes the
-- state `Connecting` and tells the WebSocket to connect, though the user wants no connection. If
-- `disconnect` runs before the test, the state stays `Disconnected` and the WebSocket is not told
-- to connect.
pub late_dial :
    (c : Connection)
    → (timer_check c).1 ≡ true
    → Returns
        (λ d.
          (d.state ≡ disconnected)
          × (d.want_connected ≡ false)
          × (dials d.log ≡ dials c.log)
          × (let e = do_connect d in
              (e.state ≡ connecting)
              × (e.want_connected ≡ false)
              × (dials e.log ≡ dials c.log + 1)))
        (disconnect (timer_check c).0)
      × Returns
          (λ d. let e = timer_done d in (e.state ≡ disconnected) × (dials e.log ≡ dials c.log))
          (disconnect c)
unfolding timer_check timer_done do_connect disconnect
late_dial c g = (ground arith, ground arith)
