-- ===== src/Connection/Backoff.antt =====
-- The outer reconnection: how long it waits, and when it gives up.
use anychat_sdk.Prelude.{
  ℕ, zero, suc, pos, Option, some, ◌+◌, ◌*◌, ◌^◌, ◌≤◌, ◌<◌, true, false, ◌&&◌, ◌≡◌, refl, arith,
  if◌then◌else◌, ltb,
}
use anychat_sdk.Types.{disconnected, reconnecting}
use anychat_sdk.Connection.{Connection, on_ws_disconnected, backoff_ms, ◌>>=◌}
use anychat_sdk.Connection.Events.{Returns, >>=-Returns, Returns-mono}

backoff_table : (n : ℕ) → n < 5 → backoff_ms (pos n) ≡ some (30000 * 2 ^ n)
unfolding backoff_ms
backoff_table zero h = refl
backoff_table (suc zero) h = refl
backoff_table (suc (suc zero)) h = refl
backoff_table (suc (suc (suc zero))) h = refl
backoff_table (suc (suc (suc (suc zero)))) h = refl
backoff_table (suc (suc (suc (suc (suc n))))) h = absurd (omega arith)

backoff_bounded : (n : ℕ) → n < 5 → 30000 * 2 ^ n ≤ 480000
backoff_bounded zero h = omega arith
backoff_bounded (suc zero) h = omega arith
backoff_bounded (suc (suc zero)) h = omega arith
backoff_bounded (suc (suc (suc zero))) h = omega arith
backoff_bounded (suc (suc (suc (suc zero)))) h = omega arith
backoff_bounded (suc (suc (suc (suc (suc n))))) h = absurd (omega arith)

-- What `onWsDisconnected` does on the WebSocket thread, on every branch, where the retry count is
-- not negative. Where the connection is wanted, the network is up and fewer than five retries have
-- been made, it becomes `Reconnecting` and schedules a retry after 30 s doubled once for each retry
-- made, 480 s at most; otherwise it becomes `Disconnected` and schedules nothing. It always returns.
pub ws_disconnected_backoff :
    (n : ℕ) (c : Connection)
    → c.super_retry_count ≡ pos n
    → Returns
        (λ c'.
          if c.want_connected && c.network_ok && ltb n 5
          then (c'.state ≡ reconnecting)
            × (c'.reconnect_pending ≡ true)
            × (c'.reconnect_delay_ms ≡ 30000 * 2 ^ n)
            × (c'.reconnect_delay_ms ≤ 480000)
          else (c'.state ≡ disconnected) × (c'.reconnect_pending ≡ c.reconnect_pending))
        (on_ws_disconnected false c)
unfolding on_ws_disconnected
ws_disconnected_backoff n c h =
    rw (h, on_ws_disconnected) (ground (arith, h, backoff_table n, backoff_bounded n))

-- `n` losses in a row, reported by the WebSocket thread.
abbrev pub losses : ℕ → Connection → Option Connection
losses zero c = some c
losses (suc n) c = on_ws_disconnected false c >>= losses n

-- One more loss of a wanted connection.
record Lost (r : ℕ) (c' : Connection) : Type 0 where
  wanted : c'.want_connected ≡ true
  up : c'.network_ok ≡ true
  counted : c'.super_retry_count ≡ pos (suc r)
  moved : c'.state ≡ (if ltb r 5 then reconnecting else disconnected)

loss-Lost :
    (r : ℕ) (c : Connection)
    → r < 2147483647
    → c.super_retry_count ≡ pos r
    → c.want_connected ≡ true
    → c.network_ok ≡ true
    → Returns (Lost r) (on_ws_disconnected false c)
unfolding on_ws_disconnected
loss-Lost r c b h w k = ground (arith, backoff_table r)

-- `n + 1` losses of a wanted connection in a row, after `r` retries and with no other call between
-- them, all return and leave the retry count `n + 1` higher, while it stays in the range of `int`;
-- the manager is `Reconnecting` after them while the count is at most five, and `Disconnected` from
-- the sixth on.
pub gives_up_after_five :
    (n r : ℕ) (c : Connection)
    → r + n < 2147483647
    → c.super_retry_count ≡ pos r
    → c.want_connected ≡ true
    → c.network_ok ≡ true
    → Returns
        (λ c'.
          (c'.super_retry_count ≡ pos (r + suc n))
          × (c'.state ≡ (if ltb (r + n) 5 then reconnecting else disconnected)))
        (losses (suc n) c)
gives_up_after_five zero r c b h w k =
    >>=-Returns (Lost r) _ (on_ws_disconnected false c) (losses 0)
      (loss-Lost r c (omega arith) h w k) λ d l. ground (arith, l)
gives_up_after_five (suc n) r c b h w k =
    >>=-Returns (Lost r) _ (on_ws_disconnected false c) (losses (suc n))
      (loss-Lost r c (omega arith) h w k)
      λ d l.
        Returns-mono _ _ (losses (suc n) d) (λ e q. ground (arith, q))
          (gives_up_after_five n (suc r) d (omega arith) l.counted l.wanted l.up)
