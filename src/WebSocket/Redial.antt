-- ===== src/WebSocket/Redial.antt =====
-- The client's own reconnections: how many there are, how long they wait, and what is left when
-- they are used up.
use anychat_sdk.Prelude.{
  ℕ, zero, suc, ◌+◌, ◌-◌, ◌*◌, ◌^◌, ◌≤◌, ◌<◌, true, false, ◌≡◌, refl, arith, List, [], ◌∷◌, All,
}
use anychat_sdk.WebSocket.{
  Client, Effect, dialled, slept, Event, connects, disconnects, sends, establishes, receives,
  writes, closes, fails, rounds, step, run, create, max_reconnect,
}

-- How often libwebsockets was told to connect.
abbrev pub dials : List Effect → ℕ
dials [] = 0
dials (dialled ∷ l) = suc (dials l)
dials (_ ∷ l) = dials l

-- The attempts that events allow: one for each call of `connect`, and five retries after each
-- connection established.
abbrev pub allowed : List Event → ℕ
allowed [] = 0
allowed (establishes now ∷ es) = 5 + allowed es
allowed (connects context made ∷ es) = 1 + allowed es
allowed (_ ∷ es) = allowed es

-- The longest wait before a connection attempt.
abbrev pub Waits≤ : ℕ → List Effect → Type 0
Waits≤ n [] = Unit
Waits≤ n (slept ms ∷ l) = (ms ≤ n) × Waits≤ n l
Waits≤ n (_ ∷ l) = Waits≤ n l

-- The retries stay within five, and no wait is over 16 s.
pub record IsBounded (c : Client) : Type 0 where
  pub retries : c.reconnect_count ≤ max_reconnect
  pub waits : Waits≤ 16000 c.log

wait_table : (n : ℕ) → n < 5 → 1000 * 2 ^ n ≤ 16000
wait_table zero h = omega arith
wait_table (suc zero) h = omega arith
wait_table (suc (suc zero)) h = omega arith
wait_table (suc (suc (suc zero))) h = omega arith
wait_table (suc (suc (suc (suc zero)))) h = omega arith
wait_table (suc (suc (suc (suc (suc n))))) h = absurd (omega arith)

step-IsBounded : (e : Event) (c : Client) → IsBounded c → IsBounded (step e c)
unfolding step
step-IsBounded (connects context made) c v = ground arith
step-IsBounded disconnects c v = ground arith
step-IsBounded (sends m) c v = ground arith
step-IsBounded (establishes now) c v = ground arith
step-IsBounded (receives m) c v = ground arith
step-IsBounded (writes now) c v = ground arith
step-IsBounded closes c v = ground arith
step-IsBounded (fails err) c v = ground arith
step-IsBounded (rounds made) c v = ground (arith, wait_table c.reconnect_count)

run-IsBounded_from : (es : List Event) (c : Client) → IsBounded c → IsBounded (run es c)
unfolding run
run-IsBounded_from [] c v = v
run-IsBounded_from (e ∷ es) c v = run-IsBounded_from es (step e c) (step-IsBounded e c v)

-- After any events a new client counts at most five retries, and has never waited for more than
-- 16 s before one.
run-IsBounded : (es : List Event) → IsBounded (run es create)
unfolding create
run-IsBounded es = run-IsBounded_from es _ (record { retries = omega arith; waits = tt })

-- The attempts made, and the retries that are left.
abbrev spent : Client → ℕ
spent c = dials c.log + (max_reconnect - c.reconnect_count)

dials-step :
    (e : Event) (c : Client) (es : List Event)
    → spent (step e c) + allowed es ≤ spent c + allowed (e ∷ es)
unfolding step
dials-step (connects context made) c es = ground arith
dials-step disconnects c es = ground arith
dials-step (sends m) c es = ground arith
dials-step (establishes now) c es = ground arith
dials-step (receives m) c es = ground arith
dials-step (writes now) c es = ground arith
dials-step closes c es = ground arith
dials-step (fails err) c es = ground arith
dials-step (rounds made) c es = ground arith

dials-run : (es : List Event) (c : Client) → dials (run es c).log ≤ spent c + allowed es
unfolding run
dials-run [] c = omega arith
dials-run (e ∷ es) c = omega (arith, dials-run es (step e c), dials-step e c es)

-- After any events a new client has tried to connect at most once for each call of `connect`,
-- five times for each connection that was established, and five times more.
pub dials_bounded : (es : List Event) → dials (run es create).log ≤ 5 + allowed es
unfolding create
dials_bounded es = omega (arith, dials-run es create)

-- A client in its loop that has used up its retries without a connection.
record IsExhausted (n : ℕ) (c : Client) : Type 0 where
  started : c.running ≡ true
  used_up : max_reconnect ≤ c.reconnect_count
  down : c.connected ≡ false
  tried : dials c.log ≡ n

-- What can happen to a client that libwebsockets makes no connection for and that nobody
-- disconnects.
abbrev pub Unconnected : Event → Type 0
Unconnected disconnects = ⊥
Unconnected (establishes now) = ⊥
Unconnected _ = Unit

step-IsExhausted :
    (n : ℕ) (e : Event) (c : Client) → Unconnected e → IsExhausted n c → IsExhausted n (step e c)
unfolding step
step-IsExhausted n (connects context made) c u x = ground arith
step-IsExhausted n disconnects c u x = absurd u
step-IsExhausted n (sends m) c u x = ground arith
step-IsExhausted n (establishes now) c u x = absurd u
step-IsExhausted n (receives m) c u x = ground arith
step-IsExhausted n (writes now) c u x = ground arith
step-IsExhausted n closes c u x = ground arith
step-IsExhausted n (fails err) c u x = ground arith
step-IsExhausted n (rounds made) c u x = ground arith

run-IsExhausted :
    (n : ℕ) (es : List Event) (c : Client)
    → All Unconnected es
    → IsExhausted n c
    → IsExhausted n (run es c)
unfolding run
run-IsExhausted n [] c u x = x
run-IsExhausted n (e ∷ es) c u x =
    run-IsExhausted n es (step e c) u.1 (step-IsExhausted n e c u.0 x)

-- Once a running client has counted five retries and has no connection, no call of `connect` makes
-- it dial again: no events lead to another attempt, unless the client is disconnected first or the
-- attempt that is under way is established.
pub exhausted_never_dials :
    (c : Client) (es : List Event)
    → c.running ≡ true
    → c.connected ≡ false
    → c.reconnect_count ≡ max_reconnect
    → All Unconnected es
    → dials (run es c).log ≡ dials c.log
exhausted_never_dials c es r d k u =
    (run-IsExhausted (dials c.log) es c u
      (record { started = r; used_up = omega arith; down = d; tried = refl })).tried
