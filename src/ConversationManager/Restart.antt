-- ===== src/ConversationManager/Restart.antt =====
-- What a new process finds in the table.
use anychat_sdk.Prelude.{
  ℕ, ◌≤◌, ◌<◌, String, Bool, true, false, ℤ, pos, ◌≡◌, ap, ◌∙◌, refl, arith, List, [], ◌∷◌, some,
  count_if, same_text, if◌then◌else◌, ℤ-discrete, IsInt32, to_int32, to_int32_of_IsInt32,
}
use anychat_sdk.Prelude.Text.{text_dec}
use anychat_sdk.Prelude.Sort.{Sorter}
use anychat_sdk.Types.{Conversation, ConversationType, private, group}
use anychat_sdk.Cache.ConversationCache
use anychat_sdk.Cache.ConversationCache.{has_id}
use anychat_sdk.Cache.ConversationCache.Lookup.{get-set_all}
use anychat_sdk.Json.Digits.{stoll}
use anychat_sdk.Json.RoundTrip.{IsInt64}
use anychat_sdk.ConversationManager.{Manager, Api}
use anychat_sdk.ConversationManager.Mirror.{IsMirrored}
use anychat_sdk.ConversationManager.Requests.{conversations_of, get_conversation_list}
use anychat_sdk.ConversationManager.Rows.{
  Row, row_of, type_text, find_row, listed_before, get_i, get_time, row_to_conversation,
}

-- SQLite's text of an `int64_t` is one that `std::stoll` reads.
abbrev pub Readable : (ℤ → List ℕ) → Type 0
Readable column_text = (z : ℤ) → IsInt64 z → stoll (column_text z) ≡ some z

-- The numbers of a conversation are in the ranges of their types.
pub record InRange (c : Conversation) : Type 0 where
  pub last_msg_time : IsInt64 c.last_msg_time_ms
  pub unread : IsInt32 c.unread_count
  pub burn : IsInt32 c.burn_after_reading
  pub auto_delete : IsInt32 c.auto_delete_duration
  pub pin_time : IsInt64 c.pin_time_ms
  pub seq : IsInt64 c.local_seq
  pub updated_at : IsInt64 c.updated_at_ms

abbrev pub key_is : String → Row → Bool
key_is k r = same_text r.conv_id k

read_type :
    (t : ConversationType) → (if same_text (type_text t) "group" then group else private) ≡ t
unfolding text_dec
read_type private = refl
read_type group = refl

module _ (column_text : ℤ → List ℕ) (readable : Readable column_text) where
  get_i_lem : (z : ℤ) → IsInt64 z → get_i column_text z ≡ z
  unfolding get_i
  get_i_lem z h = rw (readable z h, get_i) refl

  get_time_lem : (z : ℤ) → IsInt64 z → get_time column_text z ≡ z
  unfolding get_time
  get_time_lem z h = ground (arith, get_i_lem z h)

  get_int32 : (z : ℤ) → IsInt32 z → to_int32 (get_i column_text z) ≡ z
  get_int32 z h = rw (get_i_lem z (omega arith)) (to_int32_of_IsInt32 z h)

  -- A row that `upsertDb` wrote is read as the conversation that was written.
  row_to_conversation-row_of :
      (c : Conversation) → InRange c → row_to_conversation column_text (row_of c) ≡ c
  unfolding row_to_conversation row_of
  row_to_conversation-row_of c r = ground (
    arith,
    read_type c.conv_type,
    get_time_lem c.last_msg_time_ms r.last_msg_time,
    get_int32 c.unread_count r.unread,
    get_int32 c.burn_after_reading r.burn,
    get_int32 c.auto_delete_duration r.auto_delete,
    get_time_lem c.pin_time_ms r.pin_time,
    get_i_lem c.local_seq r.seq,
    get_time_lem c.updated_at_ms r.updated_at,
    get_i_lem (pos 0) (omega arith),
    get_i_lem (pos 1) (omega arith),
  )

Row-discrete : Discrete Row
Row-discrete = hlevel (text_dec, ℤ-discrete)

abbrev is_row : Row → Row → Bool
is_row r x = elim (Row-discrete x r) [ yes _ ↦ true | no _ ↦ false ]

count_is_row-le :
    (k : String) (r : Row) (rs : List Row)
    → key_is k r ≡ true
    → count_if (is_row r) rs ≤ count_if (key_is k) rs
count_is_row-le k r [] h = omega arith
count_is_row-le k r (x ∷ rs) h = ground (arith, count_is_row-le k r rs)

find_row-counts :
    (k : String) (r : Row) (rs : List Row)
    → find_row k rs ≡ some r
    → (0 < count_if (is_row r) rs) × (key_is k r ≡ true)
unfolding find_row
find_row-counts k r [] h = absurd (ground arith)
find_row-counts k r (x ∷ rs) h = ground (arith, find_row-counts k r rs)

find_row_of_counts :
    (k : String) (r : Row) (rs : List Row)
    → 0 < count_if (is_row r) rs
    → key_is k r ≡ true
    → count_if (key_is k) rs ≤ 1
    → find_row k rs ≡ some r
unfolding find_row
find_row_of_counts k r [] h i u = absurd (omega arith)
find_row_of_counts k r (x ∷ rs) h i u =
    ground (arith, find_row_of_counts k r rs, count_is_row-le k r rs)

-- Where keys are unique, a sort of the rows changes no row that is found.
find_row-sort :
    (sorter : Sorter listed_before) (k : String) (r : Row) (rs : List Row)
    → count_if (key_is k) rs ≤ 1
    → find_row k rs ≡ some r
    → find_row k (sorter.sort rs) ≡ some r
find_row-sort sorter k r rs u h =
    let (c, i) = find_row-counts k r rs h in
    find_row_of_counts k r (sorter.sort rs) (omega (arith, c, sorter.same_items (is_row r) rs)) i
      (omega (arith, u, sorter.same_items (key_is k) rs))

module _ (column_text : ℤ → List ℕ) where
  get-conversations_of :
      (k : String) (r : Row) (rs : List Row)
      → find_row k rs ≡ some r
      → ConversationCache.get k (conversations_of column_text rs)
        ≡ some (row_to_conversation column_text r)
  unfolding find_row ConversationCache.get row_to_conversation
  get-conversations_of k r [] h = absurd (ground arith)
  get-conversations_of k r (x ∷ rs) h = ground (arith, get-conversations_of k r rs)

  count_if-conversations_of :
      (k : String) (rs : List Row)
      → count_if (has_id k) (conversations_of column_text rs) ≡ count_if (key_is k) rs
  unfolding row_to_conversation
  count_if-conversations_of k [] = refl
  count_if-conversations_of k (x ∷ rs) = ground (arith, count_if-conversations_of k rs)

module _ (api : Api) (sorter : Sorter listed_before) (readable : Readable api.column_text) where
  loaded :
      (k : String) (r : Row) (rs : List Row) (s : Manager)
      → count_if (key_is k) rs ≤ 1
      → find_row k rs ≡ some r
      → sorter.sort s.rows ≡ rs
      → s.cache ≡ []
      → ConversationCache.get k (get_conversation_list api sorter s).0.cache
        ≡ some (row_to_conversation api.column_text r)
  unfolding get_conversation_list find_row
  loaded k r [] s u h e n = absurd (ground arith)
  loaded k r (x ∷ rs) s u h e n = ground (
    arith,
    e,
    n,
    get-set_all k (conversations_of api.column_text (x ∷ rs)),
    get-conversations_of api.column_text k r (x ∷ rs) h,
    count_if-conversations_of api.column_text k (x ∷ rs),
  )

  -- A new process, whose cache is empty, gets from the table each conversation as it was cached
  -- before, if the table has followed the cache, its keys are unique, and the numbers of the
  -- conversation are in the ranges of their types.
  pub restart_recovers :
      (k : String) (c : Conversation) (s : Manager)
      → IsMirrored s
      → count_if (key_is k) s.rows ≤ 1
      → InRange c
      → ConversationCache.get k s.cache ≡ some c
      → ConversationCache.get k (get_conversation_list api sorter (record s { cache = [] })).0.cache
        ≡ some c
  restart_recovers k c s m u r h =
      loaded k (row_of c) (sorter.sort s.rows) (record s { cache = [] })
        (omega (arith, u, sorter.same_items (key_is k) s.rows))
        (find_row-sort sorter k (row_of c) s.rows u (m.mirrored k c h)) refl refl
      ∙ ap some (row_to_conversation-row_of api.column_text readable c r)
