-- ===== src/Cache/MessageCache.antt =====
-- core/src/cache/message_cache.h: the most recent messages of each conversation. Each method runs
-- under the mutex, so it is one step. `std::sort` is any sort by `seq`.
pub mod Invariant
pub mod MaxSeq
pub mod Update
use anychat_sdk.Prelude.{
  ℕ, ◌<◌, String, Bool, true, false, ◌&&◌, ℤ, pos, inc64, ltb_ℤ, ltb, if◌then◌else◌, List, [], ◌∷◌,
  ◌++◌, Option, none, some, same_text, text_dec, length, last?,
}
use anychat_sdk.Prelude.Dict.{lookup, assign, erase}
use anychat_sdk.Prelude.Sort.{Sorter}
use anychat_sdk.Types.{Message}

-- `kDefaultBucketSize`
abbrev pub default_bucket_size : ℕ
default_bucket_size = 100

pub record MessageCache : Type 0 where
  pub bucket_size : ℕ
  pub buckets : List (String × List Message)

-- The comparator of `std::sort`.
abbrev pub seq_less : Message → Message → Bool
seq_less a b = ltb_ℤ a.seq b.seq

abbrev pub has_id : String → Message → Bool
has_id i m = same_text m.message_id i

-- `buckets_[conv_id]`, which is empty where there is none.
abbrev pub or_empty : Option (List Message) → List Message
or_empty none = []
or_empty (some b) = b

-- The dedup loop.
unfoldable pub contains_id : String → List Message → Bool
contains_id i [] = false
contains_id i (m ∷ ms) = if has_id i m then true else contains_id i ms

-- `bucket.erase(bucket.begin())`
abbrev pub tail : List Message → List Message
tail [] = []
tail (m ∷ ms) = ms

abbrev pub evict : ℕ → List Message → List Message
evict size ms = if ltb size (length ms) then tail ms else ms

unfoldable pub new_cache : ℕ → MessageCache
new_cache size = record { bucket_size = size; buckets = [] }

abbrev pub bucket : MessageCache → String → List Message
bucket c k = or_empty (lookup text_dec k c.buckets)

module _ (sorter : Sorter seq_less) where
  -- The bucket after `insert`.
  unfoldable pub insert_in : ℕ → Message → List Message → List Message
  unfolding contains_id
  insert_in size m b =
      if contains_id m.message_id b then b else evict size (sorter.sort (b ++ m ∷ []))

  unfoldable pub insert : Message → MessageCache → MessageCache
  insert m c = record c {
    buckets = assign text_dec m.conv_id (insert_in c.bucket_size m (bucket c m.conv_id)) c.buckets;
  }

unfoldable pub get : MessageCache → String → List Message
get c k = bucket c k

-- `bucket.back().seq`
abbrev pub back_seq : List Message → Option ℤ
back_seq b = elim (last? b) [ none ↦ none | some m ↦ some m.seq ]

unfoldable pub max_seq : MessageCache → String → ℤ
max_seq c k = elim (back_seq (bucket c k)) [ none ↦ pos 0 | some s ↦ s ]

unfoldable pub has_gap_before : MessageCache → String → ℤ → Bool
has_gap_before c k seq = elim (back_seq (bucket c k)) [
  | none ↦ ltb_ℤ (pos 1) seq
  | some highest ↦ ltb_ℤ (inc64 highest) seq
]

unfoldable pub remove_conversation : String → MessageCache → MessageCache
remove_conversation k c = record c { buckets = erase text_dec k c.buckets }

-- The inner loop of `updateMessageById`; `none` if the bucket lacks the id.
unfoldable pub update_bucket : String → (Message → Message) → List Message → Option (List Message)
update_bucket i updater [] = none
update_bucket i updater (m ∷ ms) =
    if has_id i m
    then some (updater m ∷ ms)
    else elim (update_bucket i updater ms) [ none ↦ none | some ms' ↦ some (m ∷ ms') ]

-- The outer loop. The map's order of iteration is that of the list.
unfoldable pub update_buckets :
    String
    → (Message → Message)
    → List (String × List Message)
    → Option (List (String × List Message))
unfolding update_bucket
update_buckets i updater [] = none
update_buckets i updater ((k, b) ∷ bs) = elim (update_bucket i updater b) [
  | some b' ↦ some ((k, b') ∷ bs)
  | none ↦ elim (update_buckets i updater bs) [ none ↦ none | some bs' ↦ some ((k, b) ∷ bs') ]
]

unfoldable pub update_message_by_id :
    String → (Message → Message) → MessageCache → MessageCache × Bool
unfolding update_buckets
update_message_by_id i updater c = elim (update_buckets i updater c.buckets) [
  | some bs ↦ (record c { buckets = bs }, true)
  | none ↦ (c, false)
]

unfoldable pub clear : MessageCache → MessageCache
clear c = record c { buckets = [] }
