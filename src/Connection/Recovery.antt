-- ===== src/Connection/Recovery.antt =====
-- Losing the network and getting it back.
use anychat_sdk.Prelude.{◌+◌, pos, true, false, ◌≡◌, arith}
use anychat_sdk.Types.{disconnected, connecting, NetworkStatus, is_reachable}
use anychat_sdk.Connection.{Connection, on_network_changed}
use anychat_sdk.Connection.Intent.{dials}
use anychat_sdk.Connection.Events.{Returns}

-- When the network is lost a manager becomes `Disconnected`, its scheduled reconnection is
-- cancelled and the user's wish is kept; when it comes back, and the user wants a connection, the
-- manager starts anew: no retries counted, `Connecting`, and the WebSocket told to connect once.
pub network_lost_and_back :
    (lost back : NetworkStatus) (c : Connection)
    → is_reachable lost ≡ false
    → is_reachable back ≡ true
    → c.network_ok ≡ true
    → c.want_connected ≡ true
    → Returns
        (λ d.
          (d.state ≡ disconnected)
          × (d.reconnect_pending ≡ false)
          × (d.want_connected ≡ true)
          × (dials d.log ≡ dials c.log)
          × Returns
              (λ e.
                (e.state ≡ connecting)
                × (e.super_retry_count ≡ pos 0)
                × (dials e.log ≡ dials c.log + 1))
              (on_network_changed back d))
        (on_network_changed lost c)
unfolding on_network_changed
network_lost_and_back lost back c l b k w = ground arith
