-- ===== src/Sync/Stored.antt =====
-- Which of the synced messages the table keeps.
use anychat_sdk.Prelude.{
  String, Bool, true, ℤ, pos, ◌≡◌, ◌∙◌, ap, refl, inl, inr, arith, List, [], ◌∷◌, is_empty,
  Bool-cases, Option-cases, count_if, ◌<◌,
}
use anychat_sdk.Prelude.Sort.{Sorter}
use anychat_sdk.Cache.MessageCache.{seq_less}
use anychat_sdk.Sync.Merge.{
  Stores, Readers, merge_message, merge_messages, raise_seq, merge_conv, merge_conv_messages,
  synced_row,
}
use anychat_sdk.Sync.Payloads.{MessageDelta, ConversationMessages}
use anychat_sdk.Sync.Tables.{MessageRow, Tables, insert_message, conflicting}

abbrev pub has_blank_local_id : MessageRow → Bool
has_blank_local_id r = is_empty r.local_id

conflict_blank :
    (row : MessageRow) (rs : List MessageRow)
    → row.local_id ≡ ""
    → 0 < count_if has_blank_local_id rs
    → conflicting row rs ≡ true
unfolding conflicting
conflict_blank row [] e h = absurd (omega arith)
conflict_blank row (r ∷ rs) e h = ground (arith, conflict_blank row rs e)

module _ (readers : Readers) (sorter : Sorter seq_less) where
  insert_synced :
      (k : String) (p : MessageDelta) (t : Tables)
      → 0 < count_if has_blank_local_id t.messages
      → insert_message (synced_row readers k p) t ≡ t
  unfolding insert_message synced_row
  insert_synced k p t h = rw (conflict_blank (synced_row readers k p) t.messages refl h)

  db-merge_message :
      (k : String) (p : MessageDelta) (seen : ℤ) (s : Stores)
      → 0 < count_if has_blank_local_id s.db.messages
      → (merge_message readers sorter k p seen s).1.db ≡ s.db
  unfolding merge_message
  db-merge_message k p seen s h = elim (Bool-cases (is_empty p.message_id)) [
    | inl e ↦ rw e refl
    | inr e ↦ rw e (insert_synced k p s.db h)
  ]

  db-merge_messages :
      (k : String) (ps : List MessageDelta) (seen : ℤ) (s : Stores)
      → 0 < count_if has_blank_local_id s.db.messages
      → (merge_messages readers sorter k ps seen s).1.db ≡ s.db
  unfolding merge_messages
  db-merge_messages k [] seen s h = refl
  db-merge_messages k (p ∷ ps) seen s h =
      let r = merge_message readers sorter k p seen s in
      let one = db-merge_message k p seen s h in db-merge_messages k ps r.0 r.1 (rw one h) ∙ one

  messages-raise_seq :
      (k : String) (seen : ℤ) (s : Stores)
      → (raise_seq readers sorter k seen s).db.messages ≡ s.db.messages
  unfolding raise_seq
  messages-raise_seq k seen s = ground arith

  messages-merge_conv :
      (c : ConversationMessages) (s : Stores)
      → 0 < count_if has_blank_local_id s.db.messages
      → (merge_conv readers sorter c s).db.messages ≡ s.db.messages
  unfolding merge_conv
  messages-merge_conv c s h = elim (Bool-cases (is_empty c.conversation_id)) [
    | inl e ↦ rw e refl
    | inr e ↦ elim (Option-cases c.messages) [
      | inl n ↦ rw (e, n) refl
      | inr (ms, n) ↦
          let r = merge_messages readers sorter c.conversation_id ms (pos 0) s in
          rw (e, n)
            (messages-raise_seq c.conversation_id r.0 r.1
              ∙ ap (λ d. d.messages) (db-merge_messages c.conversation_id ms (pos 0) s h))
    ]
  ]

  -- Once the table of messages holds a row with an empty `local_id`, as every synced message has,
  -- merging messages, however many, adds none to it: the column is UNIQUE, and each insertion is
  -- ignored.
  pub synced_messages_not_stored :
      (cs : List ConversationMessages) (s : Stores)
      → 0 < count_if has_blank_local_id s.db.messages
      → (merge_conv_messages readers sorter cs s).db.messages ≡ s.db.messages
  unfolding merge_conv_messages
  synced_messages_not_stored [] s h = refl
  synced_messages_not_stored (c ∷ cs) s h =
      let one = messages-merge_conv c s h in
      synced_messages_not_stored cs (merge_conv readers sorter c s) (rw one h) ∙ one
