-- ===== src/Outbound/Flush.antt =====
-- What a new connection sends, and how the tries are counted.
use mathlib.Core.List.{reverse, reverse-cons, append_assoc}
use anychat_sdk.Prelude.{
  ℕ, ◌+◌, String, Bool, ◌&&◌, to_int32, ◌≡◌, refl, ◌∙◌, ap, inl, inr, arith, List, [], ◌∷◌, ◌++◌,
  Option, none, some, same_text, is_empty, is_some, count_if, if◌then◌else◌, Option-cases,
}
use anychat_sdk.Prelude.Sort.{Sorter}
use anychat_sdk.Outbound.{
  QueueRow, Outbound, Effect, sent, Codec, created_before, find_row, bump_retry, build_send_frame,
  send_row, flush_row, flush, on_connected, has_id,
}

abbrev pub with_frame : ℕ → Option String → List Effect → List Effect
with_frame f none l = l
with_frame f (some json) l = sent f json ∷ l

reverse-with_frame :
    (f : ℕ) (o : Option String) (l l' : List Effect)
    → reverse l ++ with_frame f o l' ≡ reverse (with_frame f o l) ++ l'
reverse-with_frame f none l l' = refl
reverse-with_frame f (some json) l l' = rw (reverse-cons (sent f json) l, append_assoc)

module _ (codec : Codec) where
  -- The frame of a row, if the row can be read and the frame be written.
  unfoldable pub frame_of : QueueRow → Option String
  frame_of r = elim (codec.stoll (codec.column_text r.content_type)) [
    | none ↦ none
    | some z ↦
        let json = build_send_frame codec r.conv_id r.conv_type (to_int32 z) r.content r.local_id in
        if is_empty json then none else some json
  ]

  -- The frames of rows, in the rows' order, given to a send function.
  abbrev pub frames : ℕ → List QueueRow → List Effect
  frames f [] = []
  frames f (r ∷ rs) = with_frame f (frame_of r) (frames f rs)

  -- One row of the loop.
  record Flushed (f : ℕ) (r : QueueRow) (c c' : Outbound) : Type 0 where
    still_open : c'.send_fn ≡ some f
    logged : c'.log ≡ with_frame f (frame_of r) c.log
    bumped_rows : c'.rows ≡ (if is_some (frame_of r) then bump_retry r.local_id c.rows else c.rows)

  flush_row-Flushed :
      (f : ℕ) (r : QueueRow) (c : Outbound)
      → c.send_fn ≡ some f
      → Flushed f r c (flush_row codec r c)
  unfolding flush_row frame_of send_row
  flush_row-Flushed f r c h = record {
    still_open = ground (arith, h);
    logged = ground (arith, h);
    bumped_rows = ground (arith, h);
  }

  flush-log :
      (f : ℕ) (rs : List QueueRow) (c : Outbound)
      → c.send_fn ≡ some f
      → (flush codec rs c).log ≡ reverse (frames f rs) ++ c.log
  unfolding flush
  flush-log f [] c h = refl
  flush-log f (r ∷ rs) c h =
      let one = flush_row-Flushed f r c h in
      flush-log f rs (flush_row codec r c) one.still_open
      ∙ ap (λ l. reverse (frames f rs) ++ l) one.logged
      ∙ reverse-with_frame f (frame_of r) (frames f rs) c.log

  -- `onConnected` gives the new send function the frame of every row of the table that has one,
  -- once each and oldest first, and nothing else.
  pub on_connected-log :
      (sorter : Sorter created_before) (f : ℕ) (c : Outbound)
      → (on_connected codec sorter f c).log ≡ reverse (frames f (sorter.sort c.rows)) ++ c.log
  unfolding on_connected
  on_connected-log sorter f c =
      flush-log f (sorter.sort c.rows) (record c { send_fn = some f }) refl

  -- The rows with an id that have a frame.
  abbrev pub is_sent : String → QueueRow → Bool
  is_sent k r = has_id k r && is_some (frame_of r)

  abbrev pub tried : ℕ → Option QueueRow → Option QueueRow
  tried n none = none
  tried n (some r) = some (record r { retry_count = r.retry_count + n })

  find_row-bump :
      (j k : String) (rs : List QueueRow)
      → find_row k (bump_retry j rs)
        ≡ (if same_text j k then tried 1 (find_row k rs) else find_row k rs)
  unfolding find_row bump_retry
  find_row-bump j k [] = ground arith
  find_row-bump j k (s ∷ rs) = ground (arith, find_row-bump j k rs)

  find_row-flush :
      (k : String) (f : ℕ) (rs : List QueueRow) (c : Outbound)
      → c.send_fn ≡ some f
      → find_row k (flush codec rs c).rows ≡ tried (count_if (is_sent k) rs) (find_row k c.rows)
  unfolding flush
  find_row-flush k f [] c h = elim (Option-cases (find_row k c.rows)) [
    | inl e ↦ rw e refl
    | inr (r, e) ↦ ground (arith, e)
  ]
  find_row-flush k f (r ∷ rs) c h =
      let one = flush_row-Flushed f r c h in
      find_row-flush k f rs (flush_row codec r c) one.still_open
      ∙ ap (λ rows. tried (count_if (is_sent k) rs) (find_row k rows)) one.bumped_rows
      ∙ ground (arith, find_row-bump r.local_id k c.rows)

  -- `onConnected` leaves every row in the table and adds to the retry count of each the number of
  -- rows with its id that were sent.
  find_row-on_connected :
      (sorter : Sorter created_before) (f : ℕ) (k : String) (c : Outbound)
      → find_row k (on_connected codec sorter f c).rows
        ≡ tried (count_if (is_sent k) c.rows) (find_row k c.rows)
  unfolding on_connected
  find_row-on_connected sorter f k c =
      find_row-flush k f (sorter.sort c.rows) (record c { send_fn = some f }) refl
      ∙ ap (λ (n : ℕ). tried n (find_row k c.rows)) (sorter.same_items (is_sent k) c.rows)
