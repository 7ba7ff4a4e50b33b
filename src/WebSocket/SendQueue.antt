-- ===== src/WebSocket/SendQueue.antt =====
-- Messages leave in the order in which they were given, pings between them.
use mathlib.Core.List.{reverse, reverse-cons, append_assoc, append-nil}
use anychat_sdk.Prelude.{ℕ, String, ◌≡◌, refl, ◌∙◌, sym, ap, arith, List, [], ◌∷◌, ◌++◌}
use anychat_sdk.WebSocket.{
  Client, Effect, wrote, Event, connects, disconnects, sends, establishes, receives, writes, closes,
  fails, rounds, step, run, ping_if_due, drain, create,
}

-- The messages that events give to `send`, oldest first.
abbrev pub given : List Event → List String
given [] = []
given (sends m ∷ es) = m ∷ given es
given (_ ∷ es) = given es

-- The messages of the queue that were written, newest first.
abbrev pub written : List Effect → List String
written [] = []
written (wrote m ∷ l) = m ∷ written l
written (_ ∷ l) = written l

-- What was written, and then what still waits.
abbrev passed : Client → List String
passed c = reverse (written c.log) ++ c.send_queue

passed-drain : (c : Client) → passed (drain c) ≡ passed c
unfolding drain
passed-drain c = go c.send_queue
  where
    go :
        (q : List String)
        → passed (drain (record c { send_queue = q })) ≡ passed (record c { send_queue = q })
    go [] = refl
    go (m ∷ q) = rw (reverse-cons m (written c.log), append_assoc)

passed-ping : (now : ℕ) (c : Client) → passed (ping_if_due now c) ≡ passed c
unfolding ping_if_due
passed-ping now c = ground arith

passed-step : (e : Event) (c : Client) → passed (step e c) ≡ passed c ++ given (e ∷ [])
unfolding step
passed-step (connects context made) c = rw append-nil (ground arith)
passed-step disconnects c = rw append-nil
passed-step (sends m) c = sym (append_assoc (reverse (written c.log)) c.send_queue (m ∷ []))
passed-step (establishes now) c = rw append-nil
passed-step (receives m) c = rw append-nil
passed-step (writes now) c = rw append-nil (passed-drain (ping_if_due now c) ∙ passed-ping now c)
passed-step closes c = rw append-nil
passed-step (fails err) c = rw append-nil
passed-step (rounds made) c = rw append-nil (ground arith)

given-cons : (e : Event) (es : List Event) → given (e ∷ es) ≡ given (e ∷ []) ++ given es
given-cons (connects context made) es = refl
given-cons disconnects es = refl
given-cons (sends m) es = refl
given-cons (establishes now) es = refl
given-cons (receives m) es = refl
given-cons (writes now) es = refl
given-cons closes es = refl
given-cons (fails err) es = refl
given-cons (rounds made) es = refl

passed-run : (es : List Event) (c : Client) → passed (run es c) ≡ passed c ++ given es
unfolding run
passed-run [] c = sym (append-nil (passed c))
passed-run (e ∷ es) c =
    passed-run es (step e c)
    ∙ ap (λ l. l ++ given es) (passed-step e c)
    ∙ append_assoc (passed c) (given (e ∷ [])) (given es)
    ∙ ap (λ l. passed c ++ l) (sym (given-cons e es))

-- After any events the messages that a new client has written, in the order in which it wrote
-- them, followed by those still in its queue, are the messages given to `send`, in order.
pub sends_in_order :
    (es : List Event)
    → reverse (written (run es create).log) ++ (run es create).send_queue ≡ given es
unfolding create
sends_in_order es = passed-run es create
