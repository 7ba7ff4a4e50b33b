-- ===== src/Outbound/Pending.antt =====
-- A queued message stays in the table until its acknowledgement, which removes it.
use anychat_sdk.Prelude.{
  ℕ, ◌≤◌, String, false, ℤ, ◌≡◌, ◌≢◌, refl, inl, inr, arith, List, [], ◌∷◌, ◌++◌, Option, none,
  some, All, text_dec, same_text, is_empty, if◌then◌else◌, Option-cases, to_int32,
}
use anychat_sdk.Prelude.Dict.{lookup, lookup-erase}
use anychat_sdk.Prelude.Sort.{Sorter}
use anychat_sdk.Types.{MsgSentAck}
use anychat_sdk.Outbound.{
  QueueRow, Outbound, Callback, Codec, created_before, find_row, insert_or_ignore, delete_row,
  bump_retry, enqueue, send_row, flush, flush_row, run_success, on_connected, on_message_sent_ack,
  on_disconnected, send_transient,
}
use anychat_sdk.Outbound.Run.{
  Call, enqueues, connects, disconnects, sends_transient, acks, step, run,
}

-- The row holds the message of `r`, tried at least as often.
abbrev pub Held : QueueRow → Option QueueRow → Type 0
Held r none = ⊥
Held r (some r') =
    (r'.local_id ≡ r.local_id)
    × (r'.conv_id ≡ r.conv_id)
    × (r'.conv_type ≡ r.conv_type)
    × (r'.content_type ≡ r.content_type)
    × (r'.content ≡ r.content)
    × (r'.created_at ≡ r.created_at)
    × (r.retry_count ≤ r'.retry_count)

abbrev pub HeldBy : List QueueRow → String → QueueRow → Type 0
HeldBy rs k r = Held r (find_row k rs)

find_row-append :
    (k : String) (rs : List QueueRow) (r q : QueueRow)
    → Held q (find_row k rs)
    → Held q (find_row k (rs ++ r ∷ []))
unfolding find_row
find_row-append k [] r q h = absurd h
find_row-append k (s ∷ rs) r q h = ground (arith, find_row-append k rs r q)

insert-Held :
    (k : String) (rs : List QueueRow) (r q : QueueRow)
    → Held q (find_row k rs)
    → Held q (find_row k (insert_or_ignore r rs))
unfolding insert_or_ignore
insert-Held k rs r q h = elim (Option-cases (find_row r.local_id rs)) [
  | inl e ↦ rw (e, insert_or_ignore) (find_row-append k rs r q h)
  | inr (s, e) ↦ rw (e, insert_or_ignore) h
]

bump-Held :
    (j k : String) (rs : List QueueRow) (q : QueueRow)
    → Held q (find_row k rs)
    → Held q (find_row k (bump_retry j rs))
unfolding find_row bump_retry
bump-Held j k [] q h = absurd h
bump-Held j k (s ∷ rs) q h = ground (arith, bump-Held j k rs q)

find_row-delete :
    (j k : String) (rs : List QueueRow)
    → find_row k (delete_row j rs) ≡ (if same_text j k then none else find_row k rs)
unfolding find_row delete_row
find_row-delete j k [] = ground arith
find_row-delete j k (s ∷ rs) = ground (arith, find_row-delete j k rs)

module _ (codec : Codec) where
  send_row-Held :
      (conv_id conv_type : String) (t : ℤ) (content j k : String) (c : Outbound) (q : QueueRow)
      → Held q (find_row k c.rows)
      → Held q (find_row k (send_row codec conv_id conv_type t content j c).rows)
  unfolding send_row
  send_row-Held conv_id conv_type t content j k c q h = ground (arith, bump-Held j k c.rows q)

  flush_row-Held :
      (k : String) (r : QueueRow) (c : Outbound) (q : QueueRow)
      → Held q (find_row k c.rows)
      → Held q (find_row k (flush_row codec r c).rows)
  unfolding flush_row
  flush_row-Held k r c q h = elim (Option-cases (codec.stoll (codec.column_text r.content_type))) [
    | inl e ↦ rw (e, flush_row) h
    | inr (z, e) ↦
        rw (e, flush_row)
          (send_row-Held r.conv_id r.conv_type (to_int32 z) r.content r.local_id k c q h)
  ]

  flush-Held :
      (k : String) (rs : List QueueRow) (c : Outbound) (q : QueueRow)
      → Held q (find_row k c.rows)
      → Held q (find_row k (flush codec rs c).rows)
  unfolding flush
  flush-Held k [] c q h = h
  flush-Held k (r ∷ rs) c q h = flush-Held k rs (flush_row codec r c) q (flush_row-Held k r c q h)

  pub enqueue-Held :
      (now : ℤ) (conv_id conv_type : String) (t : ℤ) (content j : String) (cb : Callback)
      (k : String) (c : Outbound) (q : QueueRow)
      → Held q (find_row k c.rows)
      → Held q (find_row k (enqueue codec now conv_id conv_type t content j cb c).rows)
  unfolding enqueue
  enqueue-Held now conv_id conv_type t content j cb k c q h =
      send_row-Held conv_id conv_type t content j k _ q (insert-Held k c.rows _ q h)

  connect-Held :
      (sorter : Sorter created_before) (f : ℕ) (k : String) (c : Outbound) (q : QueueRow)
      → Held q (find_row k c.rows)
      → Held q (find_row k (on_connected codec sorter f c).rows)
  unfolding on_connected
  connect-Held sorter f k c q h =
      flush-Held k (sorter.sort c.rows) (record c { send_fn = some f }) q h

transient-Held :
    (json k : String) (c : Outbound) (q : QueueRow)
    → Held q (find_row k c.rows)
    → Held q (find_row k (send_transient json c).0.rows)
unfolding send_transient
transient-Held json k c q h = ground arith

ack-Held :
    (ack : MsgSentAck) (k : String) (c : Outbound) (q : QueueRow)
    → ack.local_id ≢ k
    → Held q (find_row k c.rows)
    → Held q (find_row k (on_message_sent_ack ack c).rows)
unfolding on_message_sent_ack
ack-Held ack k c q s h = ground (arith, find_row-delete ack.local_id k c.rows)

-- The calls that do not acknowledge the message `k`.
abbrev pub Spares : String → Call → Type 0
Spares k (acks ack) = ack.local_id ≢ k
Spares k _ = Unit

module _ (codec : Codec) (sorter : Sorter created_before) where
  step-Held :
      (k : String) (q : QueueRow) (a : Call) (c : Outbound)
      → Spares k a
      → Held q (find_row k c.rows)
      → Held q (find_row k (step codec sorter a c).rows)
  unfolding step
  step-Held k q (enqueues now conv_id conv_type t content j cb) c s h =
      enqueue-Held codec now conv_id conv_type t content j cb k c q h
  step-Held k q (connects f) c s h = connect-Held codec sorter f k c q h
  step-Held k q disconnects c s h = unfold on_disconnected in h
  step-Held k q (sends_transient json) c s h = transient-Held json k c q h
  step-Held k q (acks ack) c s h = ack-Held ack k c q s h

  -- A row that the table holds is still there after any calls, acknowledgements of other
  -- messages among them, with the same message and at least as many tries.
  pub pending_until_ack :
      (k : String) (q : QueueRow) (as' : List Call) (c : Outbound)
      → All (Spares k) as'
      → Held q (find_row k c.rows)
      → Held q (find_row k (run codec sorter as' c).rows)
  unfolding run
  pending_until_ack k q [] c s h = h
  pending_until_ack k q (a ∷ as') c s h =
      pending_until_ack k q as' (step codec sorter a c) s.1 (step-Held k q a c s.0 h)

-- An acknowledgement with an id removes its row and its callback and leaves the others, runs the
-- callback's `on_success` if there is one, and sends nothing.
ack_removes :
    (ack : MsgSentAck) (k : String) (c : Outbound)
    → is_empty ack.local_id ≡ false
    → let c' = on_message_sent_ack ack c in
      (find_row k c'.rows ≡ (if same_text ack.local_id k then none else find_row k c.rows))
      × (lookup text_dec k c'.callbacks
          ≡ (if same_text ack.local_id k then none else lookup text_dec k c.callbacks))
      × (c'.log ≡ run_success (lookup text_dec ack.local_id c.callbacks) c.log)
unfolding on_message_sent_ack
ack_removes ack k c h = rw h (
  find_row-delete ack.local_id k c.rows,
  ground (arith, lookup-erase text_dec ack.local_id k c.callbacks),
  refl,
)
