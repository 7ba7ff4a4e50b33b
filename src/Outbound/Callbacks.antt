-- ===== src/Outbound/Callbacks.antt =====
-- A callback's `on_success` runs at most once for each time it was queued.
use anychat_sdk.Prelude.{
  ℕ, suc, ◌+◌, ◌≤◌, String, Bool, ◌&&◌, ℤ, ◌==◌, ◌≡◌, refl, inl, inr, arith, List, [], ◌∷◌, some,
  text_dec, count_if, if◌then◌else◌, Option-cases,
}
use anychat_sdk.Prelude.Dict.{lookup, erase, emplace}
use anychat_sdk.Prelude.Sort.{Sorter}
use anychat_sdk.Outbound.{
  QueueRow, Outbound, Effect, sent, succeeded, Callback, Codec, created_before, enqueue, send_row,
  flush, flush_row, on_connected, on_disconnected, send_transient, on_message_sent_ack,
}
use anychat_sdk.Outbound.Run.{
  Call, enqueues, connects, disconnects, sends_transient, acks, step, run,
}

abbrev reports : ℕ → Callback → Bool
reports n cb = cb.name == n && cb.has_success

-- How often the callback named `n` has run its `on_success`.
abbrev pub successes : ℕ → List Effect → ℕ
successes n [] = 0
successes n (succeeded m ∷ l) = if m == n then suc (successes n l) else successes n l
successes n (sent f json ∷ l) = successes n l

-- How often it is stored.
abbrev pub stored : ℕ → List (String × Callback) → ℕ
stored n = count_if (λ e. e.1.name == n && e.1.has_success)

-- How often the calls queue it.
abbrev pub queued : ℕ → List Call → ℕ
queued n [] = 0
queued n (enqueues now conv_id conv_type t content j cb ∷ as') =
    (if reports n cb then 1 else 0) + queued n as'
queued n (_ ∷ as') = queued n as'

abbrev pub budget : ℕ → Outbound → ℕ
budget n c = successes n c.log + stored n c.callbacks

queued-cons :
    (n : ℕ) (a : Call) (as' : List Call) → queued n (a ∷ as') ≡ queued n (a ∷ []) + queued n as'
queued-cons n (enqueues now conv_id conv_type t content j cb) as' = omega arith
queued-cons n (connects f) as' = omega arith
queued-cons n disconnects as' = omega arith
queued-cons n (sends_transient json) as' = omega arith
queued-cons n (acks ack) as' = omega arith

stored-erase-le :
    (n : ℕ) (k : String) (m : List (String × Callback)) → stored n (erase text_dec k m) ≤ stored n m
unfolding erase
stored-erase-le n k [] = omega arith
stored-erase-le n k (e ∷ m) = ground (arith, stored-erase-le n k m)

stored-erase :
    (n : ℕ) (k : String) (m : List (String × Callback)) {cb : Callback}
    → lookup text_dec k m ≡ some cb
    → stored n (erase text_dec k m) + (if reports n cb then 1 else 0) ≤ stored n m
unfolding lookup erase
stored-erase n k [] h = cc
stored-erase n k (e ∷ m) {cb} h = elim (text_dec e.0 k) [
  | yes p ↦ ground (arith, stored-erase-le n k m)
  | no p ↦ ground (arith, stored-erase n k m {cb = cb} (ground arith))
]

stored-emplace :
    (n : ℕ) (k : String) (cb : Callback) (m : List (String × Callback))
    → stored n (emplace text_dec k cb m) ≤ stored n m + (if reports n cb then 1 else 0)
unfolding emplace
stored-emplace n k cb m = ground arith

module _ (codec : Codec) where
  budget-send_row :
      (n : ℕ) (conv_id conv_type : String) (t : ℤ) (content j : String) (c : Outbound)
      → budget n (send_row codec conv_id conv_type t content j c) ≡ budget n c
  unfolding send_row
  budget-send_row n conv_id conv_type t content j c = ground arith

  budget-flush_row :
      (n : ℕ) (r : QueueRow) (c : Outbound) → budget n (flush_row codec r c) ≡ budget n c
  unfolding flush_row send_row
  budget-flush_row n r c = ground arith

  budget-flush :
      (n : ℕ) (rs : List QueueRow) (c : Outbound) → budget n (flush codec rs c) ≡ budget n c
  unfolding flush
  budget-flush n [] c = refl
  budget-flush n (r ∷ rs) c =
      omega (arith, budget-flush n rs (flush_row codec r c), budget-flush_row n r c)

  module _ (sorter : Sorter created_before) where
    budget-step :
        (n : ℕ) (a : Call) (c : Outbound)
        → budget n (step codec sorter a c) ≤ budget n c + queued n (a ∷ [])
    unfolding step enqueue on_connected on_disconnected send_transient on_message_sent_ack
    budget-step n (enqueues now conv_id conv_type t content j cb) c =
        ground (
          arith,
          budget-send_row n conv_id conv_type t content j,
          stored-emplace n j cb c.callbacks,
        )
    budget-step n (connects f) c =
        omega (arith, budget-flush n (sorter.sort c.rows) (record c { send_fn = some f }))
    budget-step n disconnects c = omega arith
    budget-step n (sends_transient json) c = ground arith
    budget-step n (acks ack) c = elim (Option-cases (lookup text_dec ack.local_id c.callbacks)) [
      | inl e ↦ ground (arith, e, stored-erase-le n ack.local_id c.callbacks)
      | inr (cb, e) ↦ ground (arith, e, stored-erase n ack.local_id c.callbacks e)
    ]

    -- In a run, a callback's `on_success` is run at most as often as the callback was stored
    -- before the run or queued in it.
    pub success_at_most_once :
        (n : ℕ) (as' : List Call) (c : Outbound)
        → successes n (run codec sorter as' c).log ≤ budget n c + queued n as'
    unfolding run
    success_at_most_once n [] c = omega arith
    success_at_most_once n (a ∷ as') c = omega (
      arith,
      success_at_most_once n as' (step codec sorter a c),
      budget-step n a c,
      queued-cons n a as',
    )
