-- ===== src/MessageManager/Ids.antt =====
-- The ids of the messages that a client sends, within a process and after a restart.
use mathlib.Core.List.{append_assoc, append-nil}
use Prim.Native.String.{◌∷◌ as cons}
use Prim.Native.Char.{code}
use anychat_sdk.Prelude.{
  ℕ, zero, suc, ◌≤◌, ◌+◌, ◌/◌, ◌%◌, ◌<◌, String, ◌≡◌, ◌≢◌, ℤ, pos, refl, sym, ◌∙◌, ap, inl, inr,
  arith, List, [], ◌∷◌, ◌++◌, Option, none, some, ltb, Bool-cases, length, All, is_empty,
  if◌then◌else◌,
}
use anychat_sdk.Json.Digits.{codes, digits_onto, to_string, stoll}
use anychat_sdk.Json.RoundTrip.{stoll-to_string}
use anychat_sdk.Outbound.{
  Outbound, QueueRow, Callback, Effect, sent, build_send_frame, find_row, enqueue, send_row,
  insert_or_ignore, bump_retry,
}
use anychat_sdk.Outbound.Pending.{HeldBy, enqueue-Held}
use anychat_sdk.MessageManager.{Manager, Api}
use anychat_sdk.MessageManager.Requests.{send_text_message}
use anychat_sdk.MessageManager.LocalIds.{digit_char, text_onto, local_id}

code-digit_char : (d : ℕ) → d < 10 → code (digit_char d) ≡ b'0' + d
code-digit_char zero h = refl
code-digit_char (suc zero) h = refl
code-digit_char (suc (suc zero)) h = refl
code-digit_char (suc (suc (suc zero))) h = refl
code-digit_char (suc (suc (suc (suc zero)))) h = refl
code-digit_char (suc (suc (suc (suc (suc zero))))) h = refl
code-digit_char (suc (suc (suc (suc (suc (suc zero)))))) h = refl
code-digit_char (suc (suc (suc (suc (suc (suc (suc zero))))))) h = refl
code-digit_char (suc (suc (suc (suc (suc (suc (suc (suc zero)))))))) h = refl
code-digit_char (suc (suc (suc (suc (suc (suc (suc (suc (suc zero))))))))) h = refl
code-digit_char (suc (suc (suc (suc (suc (suc (suc (suc (suc (suc d)))))))))) h =
    absurd (omega arith)

codes-text_onto : (f n : ℕ) (s : String) → codes (text_onto f n s) ≡ digits_onto f n (codes s)
unfolding text_onto digits_onto
codes-text_onto zero n s = refl
codes-text_onto (suc f) n s = elim (Bool-cases (ltb n 10)) [
  | inl e ↦ ground (arith, e, code-digit_char n)
  | inr e ↦ ground (
    arith,
    e,
    code-digit_char (n % 10),
    codes-text_onto f (n / 10) (cons (digit_char (n % 10)) s),
  )
]

-- The characters of an id are `local_` and those that `std::to_string` writes.
codes-local_id : (n : ℕ) → codes (local_id n) ≡ codes "local_" ++ to_string (pos n)
unfolding local_id to_string
codes-local_id n = ap (λ t. codes "local_" ++ t) (codes-text_onto (suc n) n "")

-- What follows `local_`.
abbrev number_of : List ℕ → List ℕ
number_of (a ∷ b ∷ c ∷ d ∷ e ∷ f ∷ s) = s
number_of _ = []

local_id_distinct :
    (m n : ℕ) → m < 9223372036854775808 → n < 9223372036854775808 → m ≢ n → local_id m ≢ local_id n
local_id_distinct m n hm hn d e =
    let same : to_string (pos m) ≡ to_string (pos n) =
      ap number_of (sym (codes-local_id m) ∙ ap codes e ∙ codes-local_id n) in
    ground (arith, d, ap stoll same, stoll-to_string m hm, stoll-to_string n hn)

-- What the queue has stored: the local id and the content of each row.
abbrev pub entries : List QueueRow → List (String × String)
entries [] = []
entries (r ∷ rs) = (r.local_id, r.content) ∷ entries rs

entries-append : (rs qs : List QueueRow) → entries (rs ++ qs) ≡ entries rs ++ entries qs
entries-append [] qs = refl
entries-append (r ∷ rs) qs = ap (◌∷◌ (r.local_id, r.content)) (entries-append rs qs)

entries-bump_retry : (k : String) (rs : List QueueRow) → entries (bump_retry k rs) ≡ entries rs
unfolding bump_retry
entries-bump_retry k [] = refl
entries-bump_retry k (r ∷ rs) = ground (arith, entries-bump_retry k rs)

-- No entry has the id.
abbrev pub Lacks : String → List (String × String) → Type 0
Lacks k = All (λ e. e.0 ≢ k)

append-Lacks :
    (k : String) (es : List (String × String)) (e : String × String)
    → Lacks k es
    → e.0 ≢ k
    → Lacks k (es ++ e ∷ [])
append-Lacks k [] e h n = (n, tt)
append-Lacks k (d ∷ es) e h n = (h.0, append-Lacks k es e h.1 n)

find_row-none : (k : String) (rs : List QueueRow) → Lacks k (entries rs) → find_row k rs ≡ none
unfolding find_row
find_row-none k [] h = refl
find_row-none k (r ∷ rs) h = ground (arith, find_row-none k rs h.1)

insert-present :
    (new r : QueueRow) (rs : List QueueRow)
    → find_row new.local_id rs ≡ some r
    → insert_or_ignore new rs ≡ rs
unfolding insert_or_ignore
insert-present new r rs h = rw (h, insert_or_ignore) refl

insert-absent :
    (new : QueueRow) (rs : List QueueRow)
    → Lacks new.local_id (entries rs)
    → entries (insert_or_ignore new rs) ≡ entries rs ++ (new.local_id, new.content) ∷ []
unfolding insert_or_ignore
insert-absent new rs h =
    rw (find_row-none new.local_id rs h, insert_or_ignore) (entries-append rs (new ∷ []))

-- A call of `sendTextMessage`.
pub record Outgoing : Type 0 where
  pub now_s : ℤ
  pub conv_id : String
  pub content : String
  pub callback : Callback

-- What calls of it are to store, from the number `k` on.
abbrev pub numbered : ℕ → List Outgoing → List (String × String)
numbered k [] = []
numbered k (m ∷ ms) = (local_id k, m.content) ∷ numbered (suc k) ms

-- What the send function, if there is one, is given of a frame.
abbrev pub given : Option ℕ → String → List Effect → List Effect
given none frame l = l
given (some f) frame l = if is_empty frame then l else sent f frame ∷ l

module _ (api : Api) where
  abbrev pub send_texts : List Outgoing → Manager → Manager
  send_texts [] s = s
  send_texts (m ∷ ms) s =
      send_texts ms (send_text_message api m.now_s m.conv_id m.content m.callback s)

  send_row-entries :
      (conv_id conv_type : String) (t : ℤ) (content j : String) (c : Outbound)
      → entries (send_row api.codec conv_id conv_type t content j c).rows ≡ entries c.rows
  unfolding send_row
  send_row-entries conv_id conv_type t content j c = ground (arith, entries-bump_retry j c.rows)

  -- One message more is stored, under the counter's number, which grows by one.
  record Stored (m : Outgoing) (s t : Manager) : Type 0 where
    counted : t.counter ≡ suc s.counter
    kept : entries t.outbound.rows ≡ entries s.outbound.rows ++ (local_id s.counter, m.content) ∷ []

  send-Stored :
      (m : Outgoing) (s : Manager)
      → Lacks (local_id s.counter) (entries s.outbound.rows)
      → Stored m s (send_text_message api m.now_s m.conv_id m.content m.callback s)
  unfolding send_text_message enqueue
  send-Stored m s h = record {
    counted = refl;
    kept =
        send_row-entries m.conv_id "private" (pos 1) m.content (local_id s.counter) _
        ∙ insert-absent _ s.outbound.rows h;
  }

  -- The messages that one process sends are all stored, in the order of the calls and each under
  -- an id of its own, `local_` and the number of a counter that grows by one with each call, if no
  -- row has an id from the counter's number on before them and the numbers stay in the range of
  -- `int64_t`.
  pub all_sent_stored :
      (ms : List Outgoing) (s : Manager)
      → ((k : ℕ)
          → s.counter ≤ k
          → k < 9223372036854775808
          → Lacks (local_id k) (entries s.outbound.rows))
      → s.counter + length ms < 9223372036854775808
      → let t = send_texts ms s in
        (t.counter ≡ s.counter + length ms)
        × (entries t.outbound.rows ≡ entries s.outbound.rows ++ numbered s.counter ms)
  all_sent_stored [] s h b = ground (arith, append-nil (entries s.outbound.rows))
  all_sent_stored (m ∷ ms) s h b =
      let t = send_text_message api m.now_s m.conv_id m.content m.callback s in
      let first = send-Stored m s (h s.counter (omega arith) (omega arith)) in
      let rest =
        all_sent_stored ms t
          (λ k l u. rw first.kept (
            append-Lacks (local_id k) (entries s.outbound.rows) _
              (h k (omega (arith, l, first.counted)) u)
              (local_id_distinct s.counter k (omega (arith, b)) u
                (λ e. omega (arith, e, l, first.counted)))))
          (omega (arith, first.counted)) in
      (
        omega (arith, rest.0, first.counted),
        rest.1
            ∙ rw (first.kept, first.counted)
                (append_assoc (entries s.outbound.rows) ((local_id s.counter, m.content) ∷ []) _),
      )

  enqueue-log :
      (now : ℤ) (conv_id content : String) (cb : Callback) (s : Manager)
      → (send_text_message api now conv_id content cb s).outbound.log
        ≡ given s.outbound.send_fn
            (build_send_frame api.codec conv_id "private" (pos 1) content (local_id s.counter))
            s.outbound.log
  unfolding send_text_message enqueue send_row
  enqueue-log now conv_id content cb s = ground arith

  -- A process whose counter reaches a local id that a row of the queue still has, from before the
  -- last start, stores nothing of the message: the row keeps the content that it had, and all rows
  -- have the ids and the contents that they had. The message's frame, if it could be written, is
  -- given to the send function once; where there is none, nothing is sent either.
  pub colliding_message_not_stored :
      (now : ℤ) (conv_id content : String) (cb : Callback) (s : Manager) (r : QueueRow)
      → find_row (local_id s.counter) s.outbound.rows ≡ some r
      → let t = send_text_message api now conv_id content cb s in
        HeldBy t.outbound.rows (local_id s.counter) r
        × (entries t.outbound.rows ≡ entries s.outbound.rows)
        × (t.outbound.log
            ≡ given s.outbound.send_fn
                (build_send_frame api.codec conv_id "private" (pos 1) content (local_id s.counter))
                s.outbound.log)
  unfolding send_text_message enqueue
  colliding_message_not_stored now conv_id content cb s r h = (
    enqueue-Held api.codec now conv_id "private" (pos 1) content (local_id s.counter) cb
        (local_id s.counter) s.outbound r (rw h (refl, refl, refl, refl, refl, refl, omega arith)),
    send_row-entries conv_id "private" (pos 1) content (local_id s.counter) _
        ∙ ap entries (insert-present _ r s.outbound.rows h),
    enqueue-log now conv_id content cb s,
  )
