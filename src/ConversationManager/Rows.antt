-- ===== src/ConversationManager/Rows.antt =====
-- The rows of the `conversations` table as core/src/conversation_manager.cpp writes and reads them.
use anychat_sdk.Prelude.{
  ℕ, String, Bool, true, false, not, ℤ, pos, ltb_ℤ, to_int32, List, [], ◌∷◌, Option, none, some,
  same_text, if◌then◌else◌,
}
use anychat_sdk.Types.{Conversation, ConversationType, private, group}
use anychat_sdk.Json.Digits.{stoll}
use anychat_sdk.Json.Envelope.{same_int}
use anychat_sdk.Json.Timestamps.{normalize_unix_epoch_ms}
use anychat_sdk.Sync.Tables.{upsert}

pub record Row : Type 0 where
  pub conv_id : String
  pub conv_type : String
  pub target_id : String
  pub last_msg_id : String
  pub last_msg_text : String
  pub last_msg_time_ms : ℤ
  pub unread_count : ℤ
  pub is_pinned : ℤ
  pub is_muted : ℤ
  pub burn_after_reading : ℤ
  pub auto_delete_duration : ℤ
  pub pin_time_ms : ℤ
  pub local_seq : ℤ
  pub updated_at_ms : ℤ

abbrev pub type_text : ConversationType → String
type_text group = "group"
type_text private = "private"

abbrev pub flag : Bool → ℤ
flag true = pos 1
flag false = pos 0

-- The values that `upsertDb` binds.
unfoldable pub row_of : Conversation → Row
row_of c = record {
  conv_id = c.conv_id;
  conv_type = type_text c.conv_type;
  target_id = c.target_id;
  last_msg_id = c.last_msg_id;
  last_msg_text = c.last_msg_text;
  last_msg_time_ms = c.last_msg_time_ms;
  unread_count = c.unread_count;
  is_pinned = flag c.is_pinned;
  is_muted = flag c.is_muted;
  burn_after_reading = c.burn_after_reading;
  auto_delete_duration = c.auto_delete_duration;
  pin_time_ms = c.pin_time_ms;
  local_seq = c.local_seq;
  updated_at_ms = c.updated_at_ms;
}

-- `upsertDb`: the row with the key takes all columns of the new one.
unfoldable pub upsert_db : Conversation → List Row → List Row
unfolding upsert row_of
upsert_db c = upsert (λ r. same_text r.conv_id c.conv_id) (λ _. row_of c) (row_of c)

unfoldable pub find_row : String → List Row → Option Row
find_row k [] = none
find_row k (r ∷ rs) = if same_text r.conv_id k then some r else find_row k rs

-- The deletion of the rows with a key.
unfoldable pub delete_row : String → List Row → List Row
delete_row k [] = []
delete_row k (r ∷ rs) = if same_text r.conv_id k then delete_row k rs else r ∷ delete_row k rs

abbrev pub contains : String → List String → Bool
contains k [] = false
contains k (j ∷ js) = if same_text j k then true else contains k js

-- `DELETE FROM conversations WHERE conv_id=?`: the messages refer to the conversations and
-- `PRAGMA foreign_keys` is on, so the statement fails where a message has the key.
unfoldable pub delete_db : String → List String → List Row → List Row
unfolding delete_row
delete_db k message_convs rows = if contains k message_convs then rows else delete_row k rows

-- An UPDATE of the rows with a key.
unfoldable pub update_rows : String → (Row → Row) → List Row → List Row
update_rows k change [] = []
update_rows k change (r ∷ rs) =
    (if same_text r.conv_id k then change r else r) ∷ update_rows k change rs

-- `ORDER BY is_pinned DESC, pin_time_ms DESC, last_msg_time_ms DESC`
unfoldable pub listed_before : Row → Row → Bool
listed_before a b =
    if same_int a.is_pinned b.is_pinned
    then (if same_int a.pin_time_ms b.pin_time_ms
        then ltb_ℤ b.last_msg_time_ms a.last_msg_time_ms
        else ltb_ℤ b.pin_time_ms a.pin_time_ms)
    else ltb_ℤ b.is_pinned a.is_pinned

-- SQLite's text of an INTEGER column.
module _ (column_text : ℤ → List ℕ) where
  -- `getI`
  unfoldable pub get_i : ℤ → ℤ
  get_i z = elim (stoll (column_text z)) [ none ↦ pos 0 | some v ↦ v ]

  -- A time whose column holds 0 is looked for in a column of an older name, which no query selects.
  unfoldable pub get_time : ℤ → ℤ
  unfolding get_i normalize_unix_epoch_ms
  get_time z = if same_int (get_i z) (pos 0) then normalize_unix_epoch_ms (pos 0) else get_i z

  unfoldable pub row_to_conversation : Row → Conversation
  unfolding get_i get_time
  row_to_conversation r = record {
    conv_id = r.conv_id;
    conv_type = (if same_text r.conv_type "group" then group else private);
    target_id = r.target_id;
    last_msg_id = r.last_msg_id;
    last_msg_text = r.last_msg_text;
    last_msg_time_ms = get_time r.last_msg_time_ms;
    unread_count = to_int32 (get_i r.unread_count);
    is_pinned = not (same_int (get_i r.is_pinned) (pos 0));
    is_muted = not (same_int (get_i r.is_muted) (pos 0));
    burn_after_reading = to_int32 (get_i r.burn_after_reading);
    auto_delete_duration = to_int32 (get_i r.auto_delete_duration);
    pin_time_ms = get_time r.pin_time_ms;
    local_seq = get_i r.local_seq;
    updated_at_ms = get_time r.updated_at_ms;
  }
