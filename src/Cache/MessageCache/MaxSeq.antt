-- ===== src/Cache/MessageCache/MaxSeq.antt =====
-- Which messages a bucket keeps, its highest `seq`, and the detection of gaps.
use anychat_sdk.Prelude.{
  ℕ, suc, ◌+◌, ◌<◌, Bool, true, false, not, ◌&&◌, ℤ, inc64, max_ℤ, ◌≤ℤ◌, ltb_ℤ, ltb, eq_of_le_le,
  ◌≡◌, ◌≢◌, ◌⊎◌, refl, sym, ◌∙◌, ap, inl, inr, arith, List, [], ◌∷◌, ◌++◌, Option, none, some, All,
  length, length-append, count_if, count_if-append, Bool-cases, Option-cases, if◌then◌else◌,
}
use anychat_sdk.Prelude.Sort.{Sorter, Sorted}
use anychat_sdk.Types.{Message}
use anychat_sdk.Cache.MessageCache.{
  MessageCache, seq_less, contains_id, evict, bucket, back_seq, insert_in, insert, max_seq,
  has_gap_before,
}
use anychat_sdk.Cache.MessageCache.Invariant.{IsValid, length-sort, bucket-insert_self}

abbrev seq_above : ℤ → Message → Bool
seq_above v m = ltb_ℤ v m.seq

abbrev seq_at : ℤ → Message → Bool
seq_at v m = not (ltb_ℤ v m.seq) && not (ltb_ℤ m.seq v)

-- `v` is the highest `seq` of the bucket.
record IsHighest (v : ℤ) (b : List Message) : Type 0 where
  none_above : count_if (seq_above v) b ≡ 0
  attained : 0 < count_if (seq_at v) b

highest-le :
    (v w : ℤ) (b : List Message) → 0 < count_if (seq_at v) b → count_if (seq_above w) b ≡ 0 → v ≤ℤ w
highest-le v w [] h k = absurd (omega arith)
highest-le v w (m ∷ b) h k = ground (arith, highest-le v w b)

highest_unique : (v w : ℤ) (b : List Message) → IsHighest v b → IsHighest w b → v ≡ w
highest_unique v w b h k =
    eq_of_le_le v w (highest-le v w b h.attained k.none_above)
      (highest-le w v b k.attained h.none_above)

none_above-head :
    (m : Message) (b : List Message) (v : ℤ)
    → All (λ y. seq_less y m ≡ false) b
    → 0 < count_if (seq_at v) b
    → m.seq ≤ℤ v
none_above-head m [] v a h = absurd (omega arith)
none_above-head m (x ∷ b) v a h = ground (arith, none_above-head m b v a.1)

back_seq-IsHighest :
    (b : List Message) {v : ℤ} → Sorted seq_less b → back_seq b ≡ some v → IsHighest v b
back_seq-IsHighest [] s h = cc
back_seq-IsHighest (m ∷ []) s h = record { none_above = ground arith; attained = ground arith }
back_seq-IsHighest (m ∷ x ∷ b) {v} s h =
    let rest = back_seq-IsHighest (x ∷ b) {v = v} s.1 h in
    record {
      none_above = ground (arith, rest, none_above-head m (x ∷ b) v s.0 rest.attained);
      attained = ground (arith, rest);
    }

back_seq-some : (m : Message) (b : List Message) → (v : ℤ) × (back_seq (m ∷ b) ≡ some v)
back_seq-some m [] = (m.seq, refl)
back_seq-some m (x ∷ b) = back_seq-some x b

no_back : (v : ℤ) (b : List Message) → 0 < count_if (seq_at v) b → back_seq b ≢ none
no_back v [] h = λ _. absurd (omega arith)
no_back v (m ∷ b) h = λ e. cc (sym e ∙ (back_seq-some m b).1)

first-IsHighest :
    (m : Message) (b : List Message) → back_seq b ≡ none → IsHighest m.seq (b ++ m ∷ [])
first-IsHighest m [] h = record { none_above = ground arith; attained = ground arith }
first-IsHighest m (x ∷ b) h = absurd (cc (sym h ∙ (back_seq-some x b).1))

-- The highest `seq` with one more message.
abbrev pub highest_with : Option ℤ → ℤ → ℤ
highest_with none s = s
highest_with (some v) s = max_ℤ v s

none_above-max :
    (v s : ℤ) (b : List Message)
    → count_if (seq_above v) b ≡ 0
    → count_if (seq_above (max_ℤ v s)) b ≡ 0
none_above-max v s [] h = refl
none_above-max v s (m ∷ b) h = ground (arith, none_above-max v s b)

highest_of_larger :
    (v s : ℤ) (b : List Message) → IsHighest v b → ltb_ℤ v s ≡ true → count_if (seq_above s) b ≡ 0
highest_of_larger v s b h l = ground (arith, none_above-max v s b h.none_above)

append-IsHighest :
    (v : ℤ) (m : Message) (b : List Message)
    → IsHighest v b
    → IsHighest (max_ℤ v m.seq) (b ++ m ∷ [])
append-IsHighest v m b h = record {
  none_above = ground (
    arith,
    none_above-max v m.seq b h.none_above,
    count_if-append (seq_above (max_ℤ v m.seq)) b (m ∷ []),
  );
  attained = ground (arith, h, count_if-append (seq_at (max_ℤ v m.seq)) b (m ∷ []));
}

-- Evicting from a bucket with room for one keeps its back.
back_seq-evict : (size : ℕ) (b : List Message) → 0 < size → back_seq (evict size b) ≡ back_seq b
back_seq-evict size [] h = ground arith
back_seq-evict size (m ∷ []) h = ground arith
back_seq-evict size (m ∷ x ∷ b) h = ground arith

-- The message that `evict` drops, if it drops one.
abbrev dropped : ℕ → List Message → List Message
dropped size [] = []
dropped size (m ∷ b) = if ltb size (length (m ∷ b)) then m ∷ [] else []

count_if-evict :
    (p : Message → Bool) (size : ℕ) (b : List Message)
    → count_if p (evict size b) + count_if p (dropped size b) ≡ count_if p b
count_if-evict p size [] = ground arith
count_if-evict p size (m ∷ b) = ground arith

dropped_lowest :
    (size : ℕ) (b : List Message)
    → Sorted seq_less b
    → All (λ d. All (λ y. seq_less y d ≡ false) (evict size b)) (dropped size b)
dropped_lowest size [] s = tt
dropped_lowest size (m ∷ b) s = elim (Bool-cases (ltb size (length (m ∷ b)))) [
  | inl e ↦ rw e (s.0, tt)
  | inr e ↦ rw e tt
]

length-dropped :
    (size n : ℕ) (b : List Message)
    → length b ≡ suc n
    → length (dropped size b) ≡ (if ltb n size then 0 else 1)
length-dropped size n [] h = absurd (omega arith)
length-dropped size n (m ∷ b) h = ground arith

module _ (sorter : Sorter seq_less) where
  open sorter use {sort, sorted, same_items}

  sort-IsHighest : (v : ℤ) (b : List Message) → IsHighest v b → IsHighest v (sort b)
  sort-IsHighest v b h = record {
    none_above = same_items (seq_above v) b ∙ h.none_above;
    attained = omega (arith, same_items (seq_at v) b, h.attained);
  }

  back_seq-sort : (v : ℤ) (b : List Message) → IsHighest v b → back_seq (sort b) ≡ some v
  back_seq-sort v b h = elim (Option-cases (back_seq (sort b))) [
    | inl e ↦ absurd (no_back v (sort b) (sort-IsHighest v b h).attained e)
    | inr (w, e) ↦
        e
        ∙ ap some (
            highest_unique w v (sort b) (back_seq-IsHighest (sort b) (sorted b) e)
              (sort-IsHighest v b h))
  ]

  back_seq-insert_in :
      (size : ℕ) (m : Message) (b : List Message)
      → 0 < size
      → Sorted seq_less b
      → contains_id m.message_id b ≡ false
      → back_seq (insert_in sorter size m b) ≡ some (highest_with (back_seq b) m.seq)
  unfolding insert_in
  back_seq-insert_in size m b room s new =
      rw new (back_seq-evict size (sort (b ++ m ∷ [])) room ∙ back (Option-cases (back_seq b)))
    where
      back :
          (back_seq b ≡ none) ⊎ ((v : ℤ) × (back_seq b ≡ some v))
          → back_seq (sort (b ++ m ∷ [])) ≡ some (highest_with (back_seq b) m.seq)
      back (inl e) = rw e (back_seq-sort m.seq (b ++ m ∷ []) (first-IsHighest m b e))
      back (inr (v, e)) = rw e (
          back_seq-sort (max_ℤ v m.seq) (b ++ m ∷ [])
            (append-IsHighest v m b (back_seq-IsHighest b s e)))

  -- After `insert` of a message that is new to a valid cache with room, the conversation's
  -- `maxSeq` is the greater of the old one and the message's `seq` (the message's, if nothing was
  -- cached), and `hasGapBefore` reports a gap exactly for what lies beyond the next number.
  max_seq-insert :
      (m : Message) (c : MessageCache) (seq : ℤ)
      → IsValid c
      → 0 < c.bucket_size
      → contains_id m.message_id (bucket c m.conv_id) ≡ false
      → let highest = highest_with (back_seq (bucket c m.conv_id)) m.seq in
        (max_seq (insert sorter m c) m.conv_id ≡ highest)
        × (has_gap_before (insert sorter m c) m.conv_id seq ≡ ltb_ℤ (inc64 highest) seq)
  unfolding max_seq has_gap_before
  max_seq-insert m c seq v room new =
      let old = bucket c m.conv_id in
      let back = back_seq-insert_in c.bucket_size m old room (v m.conv_id).ordered new in
      let there = bucket-insert_self sorter m c in
      (rw (there, back, max_seq), rw (there, back, has_gap_before))

  -- After `insert` of a message that is new to its bucket, the bucket holds the old messages and
  -- the new one, but for one if it was full; the dropped message's `seq` is above none of those
  -- kept.
  pub insert_drops_lowest :
      (m : Message) (c : MessageCache)
      → contains_id m.message_id (bucket c m.conv_id) ≡ false
      → let old = bucket c m.conv_id in
        let new = bucket (insert sorter m c) m.conv_id in
        (out : List Message) × ((p : Message → Bool)
          → count_if p new + count_if p out ≡ count_if p (old ++ m ∷ []))
        × (length out ≡ (if ltb (length old) c.bucket_size then 0 else 1))
        × All (λ d. All (λ y. seq_less y d ≡ false) new) out
  unfolding insert_in
  insert_drops_lowest m c new =
      let all = bucket c m.conv_id ++ m ∷ [] in
      let there = bucket-insert_self sorter m c in
      rw (there, new)
        (
          dropped c.bucket_size (sort all),
          (λ p. count_if-evict p c.bucket_size (sort all) ∙ same_items p all),
          length-dropped c.bucket_size (length (bucket c m.conv_id)) (sort all)
              (omega (arith, length-sort sorter all, length-append (bucket c m.conv_id) (m ∷ []))),
          dropped_lowest c.bucket_size (sort all) (sorted all),
        )
