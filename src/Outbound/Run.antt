-- ===== src/Outbound/Run.antt =====
-- The calls that the outbound queue receives, and runs of them.
use anychat_sdk.Prelude.{ℕ, String, ℤ, List, [], ◌∷◌}
use anychat_sdk.Prelude.Sort.{Sorter}
use anychat_sdk.Types.{MsgSentAck}
use anychat_sdk.Outbound.{
  Outbound, Callback, Codec, created_before, enqueue, on_connected, on_disconnected, send_transient,
  on_message_sent_ack,
}

pub data Call : Type 0 where
  enqueues : ℤ → String → String → ℤ → String → String → Callback → Call
  connects : ℕ → Call
  disconnects : Call
  sends_transient : String → Call
  acks : MsgSentAck → Call

module _ (codec : Codec) (sorter : Sorter created_before) where
  unfoldable pub step : Call → Outbound → Outbound
  step (enqueues now conv_id conv_type content_type content local_id cb) c =
      enqueue codec now conv_id conv_type content_type content local_id cb c
  step (connects f) c = on_connected codec sorter f c
  step disconnects c = on_disconnected c
  step (sends_transient json) c = (send_transient json c).0
  step (acks ack) c = on_message_sent_ack ack c

  unfoldable pub run : List Call → Outbound → Outbound
  run [] c = c
  run (a ∷ as') c = run as' (step a c)
