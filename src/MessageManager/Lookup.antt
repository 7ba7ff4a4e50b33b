-- ===== src/MessageManager/Lookup.antt =====
-- What the methods of the message manager find in the cache and in the table after a change.
use anychat_sdk.Prelude.{
  String, true, ℤ, ◌≡◌, ◌≢◌, refl, inl, inr, arith, List, [], ◌∷◌, Option, none, some, same_text,
  text_dec, if◌then◌else◌, Option-cases,
}
use anychat_sdk.Types.{Message}
use anychat_sdk.Cache.MessageCache.{
  MessageCache, has_id, update_bucket, update_buckets, update_message_by_id,
}
use anychat_sdk.Cache.MessageCache
use anychat_sdk.Cache.MessageCache.Update.{lookup-update_buckets}
use anychat_sdk.MessageManager.{first_with_id, find_message}
use anychat_sdk.MessageManager.Rows.{Row, find_row, update_rows, update_message_db, with_status}

abbrev pub mapped {ℓ} : {A : Type ℓ} → (A → A) → Option A → Option A
mapped f none = none
mapped f (some a) = some (f a)

-- The ids of a bucket's messages.
unfoldable pub ids : List Message → List String
ids [] = []
ids (m ∷ ms) = m.message_id ∷ ids ms

first_with_id-id :
    (i : String) (b : List Message) (m : Message) → first_with_id i b ≡ some m → m.message_id ≡ i
unfolding first_with_id
first_with_id-id i [] m h = cc
first_with_id-id i (x ∷ b) m h = ground (arith, first_with_id-id i b m)

-- The message that is found has the id.
pub find_message-id :
    (i : String) (bs : List (String × List Message)) (m : Message)
    → find_message i bs ≡ some m
    → m.message_id ≡ i
unfolding find_message
find_message-id i [] m h = cc
find_message-id i ((k, b) ∷ bs) m h = elim (Option-cases (first_with_id i b)) [
  | inl e ↦ ground (arith, e, find_message-id i bs m)
  | inr (x, e) ↦ ground (arith, e, first_with_id-id i b x e)
]

module _ (i : String) (f : Message → Message) where
  first-update_none : (b : List Message) → update_bucket i f b ≡ none → first_with_id i b ≡ none
  unfolding update_bucket first_with_id
  first-update_none [] h = refl
  first-update_none (m ∷ b) h = elim (Option-cases (update_bucket i f b)) [
    | inl e ↦ ground (arith, e, first-update_none b e)
    | inr (r, e) ↦ ground (arith, e)
  ]

  module _ (keeps : (m : Message) → (f m).message_id ≡ m.message_id) where
    first-update_some :
        (b : List Message) {b' : List Message}
        → update_bucket i f b ≡ some b'
        → (m : Message) × (first_with_id i b ≡ some m) × (first_with_id i b' ≡ some (f m))
    unfolding update_bucket first_with_id
    first-update_some [] h = cc
    first-update_some (m ∷ b) h = elim (Option-cases (update_bucket i f b)) [
      | inl e ↦ (m, ground (arith, e, keeps m), ground (arith, e, keeps m))
      | inr (r, e) ↦
          let (x, p, q) = first-update_some b e in
          elim (text_dec m.message_id i) [
            | yes y ↦ (m, ground (arith, e, y), ground (arith, e, y, keeps m))
            | no y ↦ (x, ground (arith, e, y, p), ground (arith, e, y, q))
          ]
    ]

    find-update_buckets :
        (bs : List (String × List Message)) {bs' : List (String × List Message)}
        → update_buckets i f bs ≡ some bs'
        → find_message i bs' ≡ mapped f (find_message i bs)
    unfolding update_buckets find_message
    find-update_buckets [] h = cc
    find-update_buckets ((k, b) ∷ bs) h = elim (Option-cases (update_bucket i f b)) [
      | inr (r, e) ↦ let (x, p, q) = first-update_some b e in ground (arith, e, p, q)
      | inl e ↦ elim (Option-cases (update_buckets i f bs)) [
        | inl u ↦ absurd (ground (arith, e, u))
        | inr (r, u) ↦ ground (arith, e, u, first-update_none b e, find-update_buckets bs u)
      ]
    ]

    find-unchanged :
        (bs : List (String × List Message))
        → update_buckets i f bs ≡ none
        → find_message i bs ≡ none
    unfolding update_buckets find_message
    find-unchanged [] h = refl
    find-unchanged ((k, b) ∷ bs) h = elim (Option-cases (update_bucket i f b)) [
      | inr (r, e) ↦ ground (arith, e)
      | inl e ↦ elim (Option-cases (update_buckets i f bs)) [
        | inl u ↦ ground (arith, e, u, first-update_none b e, find-unchanged bs u)
        | inr (r, u) ↦ ground (arith, e, u)
      ]
    ]

    -- The message that is found after `updateMessageById` is the changed one.
    pub find_message-update :
        (c : MessageCache)
        → find_message i (update_message_by_id i f c).0.buckets
          ≡ mapped f (find_message i c.buckets)
    unfolding update_message_by_id
    find_message-update c = elim (Option-cases (update_buckets i f c.buckets)) [
      | inl e ↦ ground (arith, e, find-unchanged c.buckets e)
      | inr (r, e) ↦ ground (arith, e, find-update_buckets c.buckets e)
    ]

module _ (i : String) (f : Message → Message)
    (keeps : (m : Message) → (f m).message_id ≡ m.message_id) where
  -- The change is made where a message is found.
  pub found-update :
      (c : MessageCache) (m : Message)
      → find_message i c.buckets ≡ some m
      → (update_message_by_id i f c).1 ≡ true
  unfolding update_message_by_id
  found-update c m h = elim (Option-cases (update_buckets i f c.buckets)) [
    | inl e ↦ ground (arith, e, h, find-unchanged i f keeps c.buckets e)
    | inr (r, e) ↦ ground (arith, e)
  ]

  ids-update_bucket :
      (b : List Message) {b' : List Message} → update_bucket i f b ≡ some b' → ids b' ≡ ids b
  unfolding update_bucket ids
  ids-update_bucket [] h = cc
  ids-update_bucket (m ∷ b) h = elim (Option-cases (update_bucket i f b)) [
    | inl e ↦ ground (arith, e, keeps m)
    | inr (r, e) ↦ ground (arith, e, keeps m, ids-update_bucket b e)
  ]

  -- `updateMessageById` leaves each message in its bucket.
  pub ids-update :
      (c : MessageCache) (k : String)
      → ids (MessageCache.get (update_message_by_id i f c).0 k) ≡ ids (MessageCache.get c k)
  unfolding update_message_by_id MessageCache.get
  ids-update c k = elim (Option-cases (update_buckets i f c.buckets)) [
    | inl e ↦ ground (arith, e)
    | inr (bs, e) ↦ elim (lookup-update_buckets i f k c.buckets e) [
      | inl q ↦ ground (arith, e, q)
      | inr (b, b', q, q', u) ↦ ground (arith, e, q, q', ids-update_bucket b u)
    ]
  ]

-- Two changes that agree on the message that is found are the same change.
module _ (i : String) (f g : Message → Message) where
  update_bucket_agree :
      (b : List Message)
      → ((m : Message) → first_with_id i b ≡ some m → f m ≡ g m)
      → update_bucket i f b ≡ update_bucket i g b
  unfolding update_bucket first_with_id
  update_bucket_agree [] h = refl
  update_bucket_agree (m ∷ b) h = elim (text_dec m.message_id i) [
    | yes y ↦ ground (arith, y, h m)
    | no y ↦ ground (arith, y, update_bucket_agree b (λ x p. h x (ground (arith, y, p))))
  ]

  update_buckets_agree :
      (bs : List (String × List Message))
      → ((m : Message) → find_message i bs ≡ some m → f m ≡ g m)
      → update_buckets i f bs ≡ update_buckets i g bs
  unfolding update_buckets find_message
  update_buckets_agree [] h = refl
  update_buckets_agree ((k, b) ∷ bs) h =
      let same = update_bucket_agree b (λ m p. h m (ground (arith, p))) in
      elim (Option-cases (update_bucket i f b)) [
        | inr (r, e) ↦ ground (arith, e, same)
        | inl e ↦ ground (
          arith,
          e,
          same,
          update_buckets_agree bs (λ m p. h m (ground (arith, first-update_none i f b e, p))),
        )
      ]

  pub update_message_agree :
      (c : MessageCache)
      → ((m : Message) → find_message i c.buckets ≡ some m → f m ≡ g m)
      → update_message_by_id i f c ≡ update_message_by_id i g c
  unfolding update_message_by_id
  update_message_agree c h = rw (update_buckets_agree c.buckets h, update_message_by_id) refl

pub find_row-update_rows :
    (i j : String) (change : Row → Row)
    → ((r : Row) → (change r).message_id ≡ r.message_id)
    → (rows : List Row)
    → find_row j (update_rows i change rows)
      ≡ (if same_text i j then mapped change (find_row j rows) else find_row j rows)
unfolding find_row update_rows
find_row-update_rows i j change keeps [] = ground arith
find_row-update_rows i j change keeps (r ∷ rows) =
    ground (arith, keeps r, find_row-update_rows i j change keeps rows)

-- The rows after `updateMessageDbStatusAndContent`.
pub find_row-update_message_db :
    (i j : String) (status : ℤ) (content : Option String) (rows : List Row)
    → i ≢ ""
    → find_row j (update_message_db i status content rows) ≡ (
        if same_text i j
        then mapped (with_status status content) (find_row j rows)
        else find_row j rows)
unfolding update_message_db
find_row-update_message_db i j status content rows n = ground (
  arith,
  find_row-update_rows i j (with_status status content) (with_status_id status content) rows,
)
  where
    with_status_id :
        (status : ℤ) (content : Option String) (r : Row)
        → (with_status status content r).message_id ≡ r.message_id
    with_status_id status none r = refl
    with_status_id status (some s) r = refl
