-- ===== src/Cache/MessageCache/Invariant.antt =====
-- Every bucket of the message cache stays sorted, within its size, and free of duplicates.
use anychat_sdk.Prelude.{
  ℕ, ◌+◌, ◌≤◌, String, Bool, true, false, ◌≡◌, refl, sym, ◌∙◌, ite, inl, inr, arith, List, [], ◌∷◌,
  ◌++◌, length, length-append, count_if, count_if_all, count_if-le-length, if_pos, if_neg, subst,
  count_if-append, text_dec, same_text, Bool-cases, ltb,
}
use anychat_sdk.Prelude.Dict.{lookup, lookup-assign, lookup-erase}
use anychat_sdk.Prelude.Sort.{IsStrictWeak, Sorter, Sorted}
use anychat_sdk.Types.{Message}
use anychat_sdk.Cache.MessageCache.{
  MessageCache, seq_less, has_id, contains_id, tail, evict, bucket, insert_in, insert,
  remove_conversation, clear, new_cache,
}

-- `std::sort` may be called with the comparator.
pub seq_less-IsStrictWeak : IsStrictWeak seq_less
seq_less-IsStrictWeak = record {
  asym = λ a b h. ground (arith, h);
  not_less_trans = λ a b c h k. ground (arith, h, k);
}

abbrev pub filed_under : String → Message → Bool
filed_under k m = same_text m.conv_id k

-- What holds of the bucket of a conversation.
pub record BucketOk (size : ℕ) (k : String) (b : List Message) : Type 0 where
  pub ordered : Sorted seq_less b
  pub bounded : length b ≤ size
  pub distinct : (i : String) → count_if (has_id i) b ≤ 1
  pub filed : count_if (filed_under k) b ≡ length b

abbrev pub IsValid : MessageCache → Type 0
IsValid c = (k : String) → BucketOk c.bucket_size k (bucket c k)

empty-BucketOk : (size : ℕ) (k : String) → BucketOk size k []
empty-BucketOk size k = record {
  ordered = tt;
  bounded = omega arith;
  distinct = λ i. omega arith;
  filed = refl;
}

pub new_cache-IsValid : (size : ℕ) → IsValid (new_cache size)
unfolding new_cache lookup
new_cache-IsValid size k = empty-BucketOk size k

count_absent : (i : String) (b : List Message) → contains_id i b ≡ false → count_if (has_id i) b ≡ 0
unfolding contains_id
count_absent i [] h = refl
count_absent i (m ∷ b) h = ground (arith, count_absent i b)

tail-Sorted : (b : List Message) → Sorted seq_less b → Sorted seq_less (tail b)
tail-Sorted [] s = tt
tail-Sorted (m ∷ b) s = s.1

count_if-tail-le : (p : Message → Bool) (b : List Message) → count_if p (tail b) ≤ count_if p b
count_if-tail-le p [] = omega arith
count_if-tail-le p (m ∷ b) = ground arith

filed-tail :
    (k : String) (b : List Message)
    → count_if (filed_under k) b ≡ length b
    → count_if (filed_under k) (tail b) ≡ length (tail b)
filed-tail k [] h = h
filed-tail k (m ∷ b) h = ground (arith, count_if-le-length (filed_under k) b)

tail-bounded : (size : ℕ) (b : List Message) → length b ≤ size + 1 → length (tail b) ≤ size
tail-bounded size [] h = omega arith
tail-bounded size (m ∷ b) h = omega arith

-- A sorted bucket with one message too many is in order once `evict` has run.
evict-BucketOk :
    (size : ℕ) (k : String) (b : List Message)
    → Sorted seq_less b
    → length b ≤ size + 1
    → ((i : String) → count_if (has_id i) b ≤ 1)
    → count_if (filed_under k) b ≡ length b
    → BucketOk size k (evict size b)
evict-BucketOk size k b s l d f = elim (Bool-cases (ltb size (length b))) [
  | inl e ↦ rw e (record {
    ordered = tail-Sorted b s;
    bounded = tail-bounded size b l;
    distinct = λ i. omega (arith, count_if-tail-le (has_id i) b, d i);
    filed = filed-tail k b f;
  })
  | inr e ↦ rw e (record { ordered = s; bounded = ground arith; distinct = d; filed = f })
]

module _ (sorter : Sorter seq_less) where
  open sorter use {sort, sorted, same_items}

  -- Sorting keeps the number of messages.
  pub length-sort : (b : List Message) → length (sort b) ≡ length b
  length-sort b = sym (count_if_all (sort b)) ∙ same_items (λ _. true) b ∙ count_if_all b

  insert_in-BucketOk :
      (size : ℕ) (m : Message) (b : List Message)
      → BucketOk size m.conv_id b
      → BucketOk size m.conv_id (insert_in sorter size m b)
  unfolding insert_in
  insert_in-BucketOk size m b v = elim (Bool-cases (contains_id m.message_id b)) [
    | inl e ↦ rw e v
    | inr e ↦
        let b' = b ++ m ∷ [] in
        rw e (
          evict-BucketOk size m.conv_id (sort b') (sorted b')
            (omega (arith, length-sort b', length-append b (m ∷ []), v.bounded))
            (λ i. ground (
              arith,
              same_items (has_id i) b',
              count_if-append (has_id i) b (m ∷ []),
              count_absent m.message_id b e,
              v.distinct i,
            ))
            (ground (
              arith,
              same_items (filed_under m.conv_id) b',
              count_if-append (filed_under m.conv_id) b (m ∷ []),
              length-sort b',
              length-append b (m ∷ []),
              v.filed,
            )))
  ]

  -- The bucket of each conversation after `insert`.
  bucket-insert :
      (m : Message) (c : MessageCache) (k : String)
      → bucket (insert sorter m c) k
        ≡ ite
            (text_dec m.conv_id k)
            (insert_in sorter c.bucket_size m (bucket c m.conv_id))
            (bucket c k)
  unfolding insert
  bucket-insert m c k =
      let new = insert_in sorter c.bucket_size m (bucket c m.conv_id) in
      ground (arith, lookup-assign text_dec m.conv_id k new c.buckets)

  pub bucket-insert_self :
      (m : Message) (c : MessageCache)
      → bucket (insert sorter m c) m.conv_id ≡ insert_in sorter c.bucket_size m (bucket c m.conv_id)
  bucket-insert_self m c = rw (bucket-insert m c m.conv_id) (if_pos (text_dec _ _) refl _ _)

  -- `insert` keeps every bucket of a valid cache sorted by `seq`, within its size, free of
  -- duplicate message ids, and filed under its messages' conversation.
  pub insert-IsValid : (m : Message) (c : MessageCache) → IsValid c → IsValid (insert sorter m c)
  unfolding insert
  insert-IsValid m c v k = elim (text_dec m.conv_id k) [
    | yes e ↦
        rw (bucket-insert m c k, if_pos _ e)
          (subst
            (λ q. BucketOk c.bucket_size q (insert_in sorter c.bucket_size m (bucket c m.conv_id)))
            e (insert_in-BucketOk c.bucket_size m (bucket c m.conv_id) (v m.conv_id)))
    | no e ↦ rw (bucket-insert m c k, if_neg _ e) (v k)
  ]

remove_conversation-IsValid :
    (q : String) (c : MessageCache) → IsValid c → IsValid (remove_conversation q c)
unfolding remove_conversation
remove_conversation-IsValid q c v k = elim (text_dec q k) [
  | yes e ↦ rw (lookup-erase text_dec q k c.buckets, if_pos _ e) (empty-BucketOk c.bucket_size k)
  | no e ↦ rw (lookup-erase text_dec q k c.buckets, if_neg _ e) (v k)
]

pub clear-IsValid : (c : MessageCache) → IsValid (clear c)
unfolding clear lookup
clear-IsValid c k = empty-BucketOk c.bucket_size k
