-- ===== src/Sync/Sequence.antt =====
-- The sequence numbers and the time that a sync remembers.
use anychat_sdk.Prelude.{
  ℕ, ◌<◌, String, ℤ, pos, ◌≡◌, ◌≢◌, ◌⊎◌, ◌∙◌, refl, inl, inr, arith, List, [], ◌∷◌, ◌++◌, Option,
  some, text_dec, All, Bool-cases, Option-cases, is_empty, ltb_ℤ,
}
use anychat_sdk.Prelude.Dict.{lookup-assign}
use anychat_sdk.Prelude.Sort.{Sorter}
use anychat_sdk.Cache.ConversationCache
use anychat_sdk.Cache.ConversationCache.{ConversationCache}
use anychat_sdk.Types.{Conversation}
use anychat_sdk.Cache.ConversationCache.Invariant
use anychat_sdk.Cache.ConversationCache.Lookup
use anychat_sdk.Cache.MessageCache.{seq_less}
use anychat_sdk.Json.Digits.{to_string, codes}
use anychat_sdk.Json.Envelope.{ApiEnvelope}
use anychat_sdk.Json.RoundTrip.{stoll-to_string}
use anychat_sdk.Json.Values.{parse_int64_value}
use anychat_sdk.Sync.{
  handle_sync_response, merge_response, sync_request, request_seq, last_sync_key, friends_part,
  groups_part, sessions_part, messages_part,
}
use anychat_sdk.Sync.Merge.{
  Stores, Readers, merge_session, merge_sessions, session_conversation, merge_message,
  merge_messages, raise_seq, merge_conv, merge_conv_messages,
}
use anychat_sdk.Sync.Payloads.{
  SyncResponse, ConversationDelta, MessageDelta, ConversationMessages, payload_list,
}
use anychat_sdk.Sync.Tables.{Tables, ConversationRow, get_meta, set_meta}

get_meta-set_meta :
    (key : String) (value d : List ℕ) (t : Tables) → get_meta key d (set_meta key value t) ≡ value
unfolding get_meta set_meta
get_meta-set_meta key value d t = ground (arith, lookup-assign text_dec key key value t.metadata)

-- After a reply with code 0 whose `sync_time` is a positive `int64_t`, the next request asks for
-- what has changed since that time.
pub sync_time_remembered :
    (readers : Readers) (sorter : Sorter seq_less)
    (read_response : String → Option (ApiEnvelope SyncResponse)) (now : ℤ) (body : String)
    (root : ApiEnvelope SyncResponse) (n : ℕ) (s : Stores)
    → read_response body ≡ some root
    → root.code ≡ pos 0
    → parse_int64_value root.payload.sync_time (pos 0) ≡ pos n
    → 0 < n
    → n < 9223372036854775808
    → (sync_request (handle_sync_response readers sorter read_response now body s)).last_sync_time
      ≡ pos n
unfolding handle_sync_response sync_request
sync_time_remembered readers sorter read_response now body root n s r c t l h = ground (
  arith,
  r,
  c,
  t,
  get_meta-set_meta last_sync_key (to_string (pos n)) (codes "0")
      (merge_response readers sorter now root.payload s).db,
  stoll-to_string n h,
)

get-found_id :
    (k : String) (cs : ConversationCache) (c : Conversation)
    → ConversationCache.get k cs ≡ some c
    → c.conv_id ≡ k
unfolding ConversationCache.get
get-found_id k [] c h = cc
get-found_id k (d ∷ cs) c h = ground (arith, h, get-found_id k cs c)

-- The cache is valid, and has the conversation `k` with the sequence number 0.
record IsReset (k : String) (s : Stores) : Type 0 where
  valid : Invariant.IsValid s.conv_cache
  cached :
      (c : Conversation) × (ConversationCache.get k s.conv_cache ≡ some c) × (c.local_seq ≡ pos 0)

upsert-IsReset :
    (k : String) (new : Conversation) (s t : Stores)
    → t.conv_cache ≡ ConversationCache.upsert new s.conv_cache
    → Invariant.IsValid s.conv_cache
    → ((new.conv_id ≡ k) × (new.local_seq ≡ pos 0)) ⊎ ((new.conv_id ≢ k) × IsReset k s)
    → IsReset k t
upsert-IsReset k new s t e v (inl (n, z)) = record {
  valid = rw e (Invariant.upsert-IsValid new s.conv_cache v);
  cached = (new, ground (arith, e, n, Lookup.get-upsert new s.conv_cache k v), z);
}
upsert-IsReset k new s t e v (inr (n, x)) = record {
  valid = rw e (Invariant.upsert-IsValid new s.conv_cache v);
  cached =
      let (c, g, z) = x.cached in
      (c, ground (arith, e, n, g, Lookup.get-upsert new s.conv_cache k v), z);
}

module _ (readers : Readers) (now : ℤ) (k : String) where
  new_session-IsReset :
      (p : ConversationDelta) (s : Stores)
      → Invariant.IsValid s.conv_cache
      → p.conversation_id ≢ ""
      → p.conversation_id ≡ k
      → IsReset k (merge_session readers now p s)
  unfolding merge_session session_conversation
  new_session-IsReset p s v n e =
      upsert-IsReset k (session_conversation readers now p) s _ (ground (arith, n)) v
        (inl (e, refl))

  merge_session-IsReset :
      (p : ConversationDelta) (s : Stores) → IsReset k s → IsReset k (merge_session readers now p s)
  unfolding merge_session session_conversation
  merge_session-IsReset p s x = elim (Bool-cases (is_empty p.conversation_id)) [
    | inl e ↦ rw (e, merge_session) x
    | inr e ↦ elim (text_dec p.conversation_id k) [
      | yes o ↦ new_session-IsReset p s x.valid (ground (arith, e)) o
      | no o ↦
          upsert-IsReset k (session_conversation readers now p) s _ (ground (arith, e)) x.valid
            (inr (o, x))
    ]
  ]

  merge_session-IsValid :
      (p : ConversationDelta) (s : Stores)
      → Invariant.IsValid s.conv_cache
      → Invariant.IsValid (merge_session readers now p s).conv_cache
  unfolding merge_session
  merge_session-IsValid p s v = elim (Bool-cases (is_empty p.conversation_id)) [
    | inl e ↦ rw (e, merge_session) v
    | inr e ↦ rw (e, merge_session) (Invariant.upsert-IsValid _ s.conv_cache v)
  ]

  merge_sessions-IsReset :
      (ps : List ConversationDelta) (s : Stores)
      → IsReset k s
      → IsReset k (merge_sessions readers now ps s)
  unfolding merge_sessions
  merge_sessions-IsReset [] s x = x
  merge_sessions-IsReset (p ∷ ps) s x =
      merge_sessions-IsReset ps (merge_session readers now p s) (merge_session-IsReset p s x)

  sessions-IsReset :
      (before after : List ConversationDelta) (p : ConversationDelta) (s : Stores)
      → Invariant.IsValid s.conv_cache
      → p.conversation_id ≢ ""
      → p.conversation_id ≡ k
      → IsReset k (merge_sessions readers now (before ++ p ∷ after) s)
  unfolding merge_sessions
  sessions-IsReset [] after p s v n e =
      merge_sessions-IsReset after _ (new_session-IsReset p s v n e)
  sessions-IsReset (q ∷ before) after p s v n e =
      sessions-IsReset before after p (merge_session readers now q s) (merge_session-IsValid q s v)
        n e

  module _ (sorter : Sorter seq_less) where
    messages-conv_cache :
        (j : String) (ms : List MessageDelta) (seen : ℤ) (s : Stores)
        → (merge_messages readers sorter j ms seen s).1.conv_cache ≡ s.conv_cache
    unfolding merge_messages merge_message
    messages-conv_cache j [] seen s = refl
    messages-conv_cache j (m ∷ ms) seen s =
        let r = merge_message readers sorter j m seen s in
        messages-conv_cache j ms r.0 r.1 ∙ ground arith

    raise_seq-IsReset :
        (j : String) (seen : ℤ) (s : Stores)
        → j ≢ k
        → IsReset k s
        → IsReset k (raise_seq readers sorter j seen s)
    unfolding raise_seq
    raise_seq-IsReset j seen s n x = elim (Bool-cases (ltb_ℤ (pos 0) seen)) [
      | inr e ↦ rw (e, raise_seq) x
      | inl e ↦ elim (Option-cases (ConversationCache.get j s.conv_cache)) [
        | inl g ↦ rw (e, raise_seq, g) (record { valid = x.valid; cached = x.cached })
        | inr (c, g) ↦ elim (Bool-cases (ltb_ℤ c.local_seq seen)) [
          | inr l ↦ rw (e, raise_seq, g, l) (record { valid = x.valid; cached = x.cached })
          | inl l ↦
              rw (e, raise_seq, g, l)
                (upsert-IsReset k (record c { local_seq = seen }) s _ refl x.valid
                  (inr (ground (arith, n, get-found_id j s.conv_cache c g), x)))
        ]
      ]
    ]

    merge_conv-IsReset :
        (g : ConversationMessages) (s : Stores)
        → g.conversation_id ≢ k
        → IsReset k s
        → IsReset k (merge_conv readers sorter g s)
    unfolding merge_conv
    merge_conv-IsReset g s n x = elim (Bool-cases (is_empty g.conversation_id)) [
      | inl e ↦ rw (e, merge_conv) x
      | inr e ↦ elim (Option-cases g.messages) [
        | inl o ↦ rw (e, merge_conv, o) x
        | inr (ms, o) ↦
            let same = messages-conv_cache g.conversation_id ms (pos 0) s in
            rw (e, merge_conv, o)
              (raise_seq-IsReset g.conversation_id _ _ n
                (record { valid = rw same x.valid; cached = rw same x.cached }))
      ]
    ]

    merge_conv_messages-IsReset :
        (gs : List ConversationMessages) (s : Stores)
        → All (λ g. g.conversation_id ≢ k) gs
        → IsReset k s
        → IsReset k (merge_conv_messages readers sorter gs s)
    unfolding merge_conv_messages
    merge_conv_messages-IsReset [] s n x = x
    merge_conv_messages-IsReset (g ∷ gs) s n x =
        merge_conv_messages-IsReset gs (merge_conv readers sorter g s) n.1
          (merge_conv-IsReset g s n.0 x)

-- A reply of the sync that brings a conversation, and no group of messages of it, makes a valid
-- cache forget the sequence number of the conversation: whatever its row in the table says, the
-- next request asks for its messages from 0.
pub session_forgets_seq :
    (readers : Readers) (sorter : Sorter seq_less) (now : ℤ) (r : SyncResponse)
    (before after : List ConversationDelta) (p : ConversationDelta)
    (groups : List ConversationMessages) (s : Stores) (row : ConversationRow)
    → Invariant.IsValid s.conv_cache
    → payload_list r.conversation_data ≡ some (before ++ p ∷ after)
    → p.conversation_id ≢ ""
    → r.conversations ≡ some groups
    → All (λ g. g.conversation_id ≢ p.conversation_id) groups
    → row.conv_id ≡ p.conversation_id
    → request_seq (merge_response readers sorter now r s).conv_cache row ≡ pos 0
unfolding request_seq merge_response sessions_part messages_part friends_part groups_part
session_forgets_seq readers sorter now r before after p groups s row v d n m a e =
    let s' =
      groups_part readers sorter (payload_list r.groups)
        (friends_part readers sorter (payload_list r.friends) s) in
    let same : s'.conv_cache ≡ s.conv_cache = ground arith in
    let reset =
      sessions-IsReset readers now p.conversation_id before after p s' (rw same v) n refl in
    let (c, g, z) =
      (merge_conv_messages-IsReset readers now p.conversation_id sorter groups _ a reset).cached in
    ground (arith, d, m, e, g, z)
