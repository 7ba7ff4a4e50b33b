-- ===== src/Connection/Heartbeat.antt =====
-- The heartbeat of a connection whose server is silent.
use anychat_sdk.Prelude.{
  ℕ, suc, ◌+◌, ◌≤◌, ◌<◌, false, All, ◌≡◌, arith, List, [], ◌∷◌, Option, none, some, length,
}
use anychat_sdk.Types.{connected}
use anychat_sdk.Connection.{
  Connection, Effect, running, ws_ping, heartbeat_tick, on_ws_connected, ◌>>=◌,
}
use anychat_sdk.Connection.Events.{Returns, >>=-Returns, Returns-mono}

-- How often the server was pinged.
abbrev pub pings : List Effect → ℕ
pings [] = 0
pings (ws_ping ∷ l) = suc (pings l)
pings (_ ∷ l) = pings l

-- Rounds of the heartbeat at the given times.
abbrev pub ticks : List ℕ → Connection → Option Connection
ticks [] c = some c
ticks (t ∷ ts) c = heartbeat_tick t c >>= ticks ts

-- Connected, with the heartbeat running, the last pong at `now` and `n` pings sent.
record IsBeating (now n : ℕ) (c : Connection) : Type 0 where
  up : c.state ≡ connected
  beats : c.heartbeat ≡ running
  unstopped : c.heartbeat_stopping ≡ false
  heard : c.last_pong_ms ≡ now
  pinged : pings c.log ≡ n

connected-IsBeating :
    (now : ℕ) (c : Connection) → Returns (IsBeating now (pings c.log)) (on_ws_connected now c)
unfolding on_ws_connected
connected-IsBeating now c = ground arith

tick-IsBeating :
    (now n t : ℕ) (c : Connection)
    → t ≤ now + 60000
    → IsBeating now n c
    → Returns (IsBeating now (suc n)) (heartbeat_tick t c)
unfolding heartbeat_tick
tick-IsBeating now n t c h b = ground arith

late_tick :
    (now n t : ℕ) (c : Connection) → now + 60000 < t → IsBeating now n c → heartbeat_tick t c ≡ none
unfolding heartbeat_tick
late_tick now n t c h b = ground arith

ticks-IsBeating :
    (now n : ℕ) (ts : List ℕ) (c : Connection)
    → All (λ t. t ≤ now + 60000) ts
    → IsBeating now n c
    → Returns (IsBeating now (n + length ts)) (ticks ts c)
ticks-IsBeating now n [] c a b = ground (arith, b)
ticks-IsBeating now n (t ∷ ts) c a b =
    >>=-Returns (IsBeating now (suc n)) _ (heartbeat_tick t c) (ticks ts)
      (tick-IsBeating now n t c a.0 b)
      λ d q.
        Returns-mono _ _ (ticks ts d) (λ e x. ground (arith, x))
          (ticks-IsBeating now (suc n) ts d a.1 q)

-- A connection is established at `now` and no pong comes, nor any other call. Then each round of
-- the heartbeat within the next 60 s sends one ping and returns, and the first round behind them
-- terminates the process, since the heartbeat thread joins itself.
pub silence_terminates :
    (now late : ℕ) (ts : List ℕ) (c : Connection)
    → All (λ t. t ≤ now + 60000) ts
    → now + 60000 < late
    → Returns
        (λ c'. (pings c'.log ≡ pings c.log + length ts) × (heartbeat_tick late c' ≡ none))
        (on_ws_connected now c >>= ticks ts)
silence_terminates now late ts c a l =
    >>=-Returns (IsBeating now (pings c.log)) _ (on_ws_connected now c) (ticks ts)
      (connected-IsBeating now c)
      λ d b.
        Returns-mono _ _ (ticks ts d) (λ e q. (q.pinged, late_tick now _ late e l q))
          (ticks-IsBeating now (pings c.log) ts d a b)
