-- ===== src/Sync/Tables.antt =====
-- The tables that a sync writes, after core/src/db/migrations.cpp, and the SQL statements of
-- core/src/sync_engine.cpp and of `getMeta` and `setMeta` in core/src/db/database.cpp on them. A
-- column that no statement of a sync names is left out. Text values that hold a number are the
-- codes of their characters.
use anychat_sdk.Prelude.{
  ℕ, String, Bool, true, false, ◌||◌, ℤ, max_ℤ, pos, List, [], ◌∷◌, ◌++◌, none, some, same_text,
  text_dec, if◌then◌else◌,
}
use anychat_sdk.Prelude.Dict.{lookup, assign}

pub record FriendRow : Type 0 where
  pub user_id : String
  pub remark : String
  pub updated_at_ms : ℤ
  pub is_deleted : Bool

pub record GroupRow : Type 0 where
  pub group_id : String
  pub name : String
  pub avatar_url : String
  pub member_count : ℤ
  pub updated_at_ms : ℤ

pub record ConversationRow : Type 0 where
  pub conv_id : String
  pub conv_type : String
  pub target_id : String
  pub last_msg_text : String
  pub last_msg_time_ms : ℤ
  pub unread_count : ℤ
  pub is_pinned : Bool
  pub is_muted : Bool
  pub local_seq : ℤ
  pub updated_at_ms : ℤ

pub record MessageRow : Type 0 where
  pub message_id : String
  pub conv_id : String
  pub sender_id : String
  pub content_type : ℤ
  pub content : String
  pub seq : ℤ
  pub reply_to : String
  pub status : ℤ
  pub send_state : ℤ
  pub timestamp_ms : ℤ
  pub local_id : String

pub record Tables : Type 0 where
  pub friends : List FriendRow
  pub groups : List GroupRow
  pub conversations : List ConversationRow
  pub messages : List MessageRow
  pub metadata : List (String × List ℕ)

-- `INSERT … ON CONFLICT(key) DO UPDATE`: the row that conflicts is updated, and where there is
-- none the new one is added.
unfoldable pub upsert : {A : Type 0} → (A → Bool) → (A → A) → A → List A → List A
upsert conflicts update row [] = row ∷ []
upsert conflicts update row (r ∷ rs) =
    if conflicts r then update r ∷ rs else r ∷ upsert conflicts update row rs

unfoldable pub upsert_friend : FriendRow → List FriendRow → List FriendRow
unfolding upsert
upsert_friend row = upsert (λ r. same_text r.user_id row.user_id) (λ _. row) row

unfoldable pub upsert_group : GroupRow → List GroupRow → List GroupRow
unfolding upsert
upsert_group row = upsert (λ r. same_text r.group_id row.group_id) (λ _. row) row

-- The statement does not name `local_seq`: an old row keeps it, a new one has the default.
unfoldable pub upsert_conversation : ConversationRow → List ConversationRow → List ConversationRow
unfolding upsert
upsert_conversation row =
    upsert (λ r. same_text r.conv_id row.conv_id) (λ r. record row { local_seq = r.local_seq })
      (record row { local_seq = pos 0 })

unfoldable pub has_conversation : String → List ConversationRow → Bool
has_conversation k [] = false
has_conversation k (r ∷ rs) = if same_text r.conv_id k then true else has_conversation k rs

-- `message_id` is the primary key and `local_id` is UNIQUE.
abbrev pub same_keys : MessageRow → MessageRow → Bool
same_keys row r = same_text r.message_id row.message_id || same_text r.local_id row.local_id

unfoldable pub conflicting : MessageRow → List MessageRow → Bool
conflicting row [] = false
conflicting row (r ∷ rs) = if same_keys row r then true else conflicting row rs

-- `INSERT OR IGNORE INTO messages`: a row that conflicts is ignored, and one whose conversation is
-- missing violates the foreign key.
unfoldable pub insert_message : MessageRow → Tables → Tables
unfolding has_conversation conflicting
insert_message row t =
    if conflicting row t.messages
    then t
    else if has_conversation row.conv_id t.conversations
    then record t { messages = t.messages ++ row ∷ [] }
    else t

-- `UPDATE conversations SET local_seq = MAX(local_seq, ?) WHERE conv_id = ?`
unfoldable pub raise_local_seq : ℤ → String → List ConversationRow → List ConversationRow
raise_local_seq seq k [] = []
raise_local_seq seq k (r ∷ rs) =
    (if same_text r.conv_id k then record r { local_seq = max_ℤ r.local_seq seq } else r)
    ∷ raise_local_seq seq k rs

unfoldable pub get_meta : String → List ℕ → Tables → List ℕ
get_meta key default_val t = elim (lookup text_dec key t.metadata) [
  | none ↦ default_val
  | some v ↦ v
]

unfoldable pub set_meta : String → List ℕ → Tables → Tables
set_meta key value t = record t { metadata = assign text_dec key value t.metadata }
