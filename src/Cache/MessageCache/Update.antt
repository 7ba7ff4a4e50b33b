-- ===== src/Cache/MessageCache/Update.antt =====
-- `updateMessageById`.
use anychat_sdk.Prelude.{
  ℕ, ◌+◌, String, Bool, true, false, ◌≡◌, refl, inl, inr, arith, List, [], ◌∷◌, none, some, All,
  length, count_if, text_dec, Option-cases, ltb, ◌<◌, ◌⊎◌,
}
use anychat_sdk.Prelude.Dict.{lookup}
use anychat_sdk.Prelude.Sort.{Sorted}
use anychat_sdk.Types.{Message}
use anychat_sdk.Cache.MessageCache.{
  MessageCache, seq_less, has_id, update_bucket, update_buckets, update_message_by_id,
}
use anychat_sdk.Cache.MessageCache.Invariant.{BucketOk, IsValid, filed_under}

-- The messages with an id in all buckets.
abbrev pub count_id : String → List (String × List Message) → ℕ
count_id i [] = 0
count_id i ((k, b) ∷ bs) = count_if (has_id i) b + count_id i bs

-- The fields of a message that the cache reads.
abbrev pub SameKeys : Message → Message → Type 0
SameKeys m n = (m.message_id ≡ n.message_id) × (m.conv_id ≡ n.conv_id) × (m.seq ≡ n.seq)

not_less_same :
    (d m : Message)
    → SameKeys d m
    → (b : List Message) → All (λ y. seq_less y m ≡ false) b
    → All (λ y. seq_less y d ≡ false) b
not_less_same d m same [] a = tt
not_less_same d m same (y ∷ ys) a = (ground (arith, same, a.0), not_less_same d m same ys a.1)

module _ (i : String) (updater : Message → Message) where
  update_bucket_absent :
      (b : List Message) → update_bucket i updater b ≡ none → count_if (has_id i) b ≡ 0
  unfolding update_bucket
  update_bucket_absent [] h = refl
  update_bucket_absent (m ∷ b) h = elim (Option-cases (update_bucket i updater b)) [
    | inl e ↦ ground (arith, e, update_bucket_absent b e)
    | inr (r, e) ↦ ground (arith, e)
  ]

  -- The loop finds no bucket exactly when none holds the id.
  update_buckets_absent :
      (bs : List (String × List Message)) → update_buckets i updater bs ≡ none → count_id i bs ≡ 0
  unfolding update_buckets
  update_buckets_absent [] h = refl
  update_buckets_absent ((k, b) ∷ bs) h = elim (Option-cases (update_bucket i updater b)) [
    | inr (r, e) ↦ ground (arith, e)
    | inl e ↦ elim (Option-cases (update_buckets i updater bs)) [
      | inr (r, q) ↦ ground (arith, e, q)
      | inl q ↦ ground (arith, update_bucket_absent b e, update_buckets_absent bs q)
    ]
  ]

  update_bucket_found :
      (b : List Message) {b' : List Message}
      → update_bucket i updater b ≡ some b'
      → 0 < count_if (has_id i) b
  unfolding update_bucket
  update_bucket_found [] h = cc
  update_bucket_found (m ∷ b) h = elim (Option-cases (update_bucket i updater b)) [
    | inl e ↦ ground (arith, e)
    | inr (r, e) ↦ ground (arith, e, update_bucket_found b e)
  ]

  update_buckets_found :
      (bs : List (String × List Message)) {bs' : List (String × List Message)}
      → update_buckets i updater bs ≡ some bs'
      → 0 < count_id i bs
  unfolding update_buckets
  update_buckets_found [] h = cc
  update_buckets_found ((k, b) ∷ bs) h = elim (Option-cases (update_bucket i updater b)) [
    | inr (r, e) ↦ omega (arith, update_bucket_found b e)
    | inl e ↦ elim (Option-cases (update_buckets i updater bs)) [
      | inr (r, q) ↦ omega (arith, update_buckets_found bs q)
      | inl q ↦ ground (arith, e, q)
    ]
  ]

  -- `updateMessageById` returns true exactly when some bucket holds the id, and a call that
  -- returns false leaves the cache as it was.
  update_message_by_id_result :
      (c : MessageCache)
      → let (c', found) = update_message_by_id i updater c in
        (found ≡ ltb 0 (count_id i c.buckets)) × ((found ≡ true) ⊎ (c' ≡ c))
  unfolding update_message_by_id
  update_message_by_id_result c = elim (Option-cases (update_buckets i updater c.buckets)) [
    | inl e ↦ ground (arith, e, update_buckets_absent c.buckets e)
    | inr (r, e) ↦ ground (arith, e, update_buckets_found c.buckets e)
  ]

  -- A bucket after the loop is the one before it, or that one with one message changed.
  pub lookup-update_buckets :
      (q : String) (bs : List (String × List Message)) {bs' : List (String × List Message)}
      → update_buckets i updater bs ≡ some bs'
      → (lookup text_dec q bs' ≡ lookup text_dec q bs)
        ⊎ ((b b' : List Message) × (lookup text_dec q bs ≡ some b)
            × (lookup text_dec q bs' ≡ some b')
            × (update_bucket i updater b ≡ some b'))
  unfolding update_buckets lookup
  lookup-update_buckets q [] h = cc
  lookup-update_buckets q ((k, b) ∷ bs) h = elim (Option-cases (update_bucket i updater b)) [
    | inr (r, e) ↦ elim (text_dec k q) [
      | yes p ↦ inr (b, r, ground arith, ground (arith, e), e)
      | no p ↦ inl (ground (arith, e))
    ]
    | inl e ↦ elim (Option-cases (update_buckets i updater bs)) [
      | inl none_left ↦ absurd (ground (arith, e, none_left))
      | inr (r, u) ↦ elim (lookup-update_buckets q bs u) [
        | inl same ↦ inl (ground (arith, e, u, same))
        | inr (x, x', before, after, changed) ↦ elim (text_dec k q) [
          | yes p ↦ inl (ground (arith, e, u))
          | no p ↦ inr (x, x', ground (arith, before), ground (arith, e, u, after), changed)
        ]
      ]
    ]
  ]

  module _ (same : (m : Message) → SameKeys (updater m) m) where
    count_if-update_bucket :
        (p : Message → Bool)
        → ((m : Message) → p (updater m) ≡ p m)
        → (b : List Message) {b' : List Message} → update_bucket i updater b ≡ some b'
        → count_if p b' ≡ count_if p b
    unfolding update_bucket
    count_if-update_bucket p h [] e = cc
    count_if-update_bucket p h (m ∷ b) e = elim (Option-cases (update_bucket i updater b)) [
      | inl q ↦ ground (arith, q, h m)
      | inr (r, q) ↦ ground (arith, q, h m, count_if-update_bucket p h b q)
    ]

    length-update_bucket :
        (b : List Message) {b' : List Message}
        → update_bucket i updater b ≡ some b'
        → length b' ≡ length b
    unfolding update_bucket
    length-update_bucket [] e = cc
    length-update_bucket (m ∷ b) e = elim (Option-cases (update_bucket i updater b)) [
      | inl q ↦ ground (arith, q)
      | inr (r, q) ↦ ground (arith, q, length-update_bucket b q)
    ]

    not_less-update_bucket :
        (x : Message) (b : List Message) {b' : List Message}
        → update_bucket i updater b ≡ some b'
        → All (λ y. seq_less y x ≡ false) b
        → All (λ y. seq_less y x ≡ false) b'
    unfolding update_bucket
    not_less-update_bucket x [] e a = cc
    not_less-update_bucket x (m ∷ b) e a = elim (Option-cases (update_bucket i updater b)) [
      | inl q ↦ ground (arith, q, same m)
      | inr (r, q) ↦ ground (arith, q, same m, not_less-update_bucket x b q a.1)
    ]

    Sorted-update_bucket :
        (b : List Message) {b' : List Message}
        → update_bucket i updater b ≡ some b'
        → Sorted seq_less b
        → Sorted seq_less b'
    unfolding update_bucket
    Sorted-update_bucket [] e s = cc
    Sorted-update_bucket (m ∷ b) e s = elim (Option-cases (update_bucket i updater b)) [
      | inl q ↦ ground (arith, q, same m, not_less_same (updater m) m (same m) b s.0)
      | inr (r, q) ↦ ground (
        arith,
        q,
        not_less_same (updater m) m (same m) b s.0,
        not_less-update_bucket m b q s.0,
        Sorted-update_bucket b q s.1,
      )
    ]

    update_bucket-BucketOk :
        (size : ℕ) (k : String) (b : List Message) {b' : List Message}
        → update_bucket i updater b ≡ some b'
        → BucketOk size k b
        → BucketOk size k b'
    update_bucket-BucketOk size k b e v = record {
      ordered = Sorted-update_bucket b e v.ordered;
      bounded = omega (arith, length-update_bucket b e, v.bounded);
      distinct = λ j.
          rw (count_if-update_bucket (has_id j) (λ m. ground (arith, same m)) b e) (v.distinct j);
      filed = ground (
        arith,
        count_if-update_bucket (filed_under k) (λ m. ground (arith, same m)) b e,
        v.filed,
        length-update_bucket b e,
      );
    }

    -- A change of a message that leaves its id, its conversation and its `seq` keeps the cache
    -- valid.
    pub update_message_by_id-IsValid :
        (c : MessageCache) → IsValid c → IsValid (update_message_by_id i updater c).0
    unfolding update_message_by_id
    update_message_by_id-IsValid c v k = elim (Option-cases (update_buckets i updater c.buckets)) [
      | inl e ↦ rw (e, update_message_by_id) (v k)
      | inr (bs, e) ↦ elim (lookup-update_buckets k c.buckets e) [
        | inl q ↦ rw (e, update_message_by_id, q) (v k)
        | inr (b, b', q, q', u) ↦
            rw (e, update_message_by_id, q')
              (update_bucket-BucketOk c.bucket_size k b u (rw q at (v k)))
      ]
    ]
