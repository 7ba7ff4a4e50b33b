-- ===== src/MessageManager/Rows.antt =====
-- The rows of the `messages` table as core/src/message_manager.cpp writes them. A statement that
-- would break a constraint of core/src/db/migrations.cpp fails and changes nothing; nobody reads
-- its error.
use anychat_sdk.Prelude.{
  String, Bool, true, false, not, ◌&&◌, ◌||◌, ℤ, List, [], ◌∷◌, Option, none, some, is_empty,
  same_text, if◌then◌else◌,
}
use anychat_sdk.Types.{Message}
use anychat_sdk.ConversationManager.Rows.{flag, contains}

pub record Row : Type 0 where
  pub message_id : String
  pub local_id : String
  pub conv_id : String
  pub sender_id : String
  pub content_type : ℤ
  pub content : String
  pub seq : ℤ
  pub reply_to : String
  pub status : ℤ
  pub send_state : ℤ
  pub is_read : ℤ
  pub timestamp_ms : ℤ

unfoldable pub row_of : Message → Row
row_of m = record {
  message_id = m.message_id;
  local_id = m.local_id;
  conv_id = m.conv_id;
  sender_id = m.sender_id;
  content_type = m.content_type;
  content = m.content;
  seq = m.seq;
  reply_to = m.reply_to;
  status = m.status;
  send_state = m.send_state;
  is_read = flag m.is_read;
  timestamp_ms = m.timestamp_ms;
}

unfoldable pub find_row : String → List Row → Option Row
find_row i [] = none
find_row i (r ∷ rs) = if same_text r.message_id i then some r else find_row i rs

-- The UNIQUE `local_id` is held by the row of another message.
unfoldable pub local_id_taken : Row → List Row → Bool
local_id_taken row [] = false
local_id_taken row (r ∷ rs) =
    if same_text r.local_id row.local_id && not (same_text r.message_id row.message_id)
    then true
    else local_id_taken row rs

unfoldable pub replace_row : Row → List Row → List Row
replace_row row [] = row ∷ []
replace_row row (r ∷ rs) =
    if same_text r.message_id row.message_id then row ∷ rs else r ∷ replace_row row rs

-- `upsertMessageDb`, over the keys of the table of conversations, to which `conv_id` refers.
unfoldable pub upsert_message_db : List String → Message → List Row → List Row
unfolding replace_row local_id_taken row_of
upsert_message_db convs m rows =
    if is_empty m.message_id || is_empty m.conv_id
    then rows
    else if local_id_taken (row_of m) rows || not (contains m.conv_id convs)
    then rows
    else replace_row (row_of m) rows

unfoldable pub update_rows : String → (Row → Row) → List Row → List Row
update_rows i change [] = []
update_rows i change (r ∷ rs) =
    (if same_text r.message_id i then change r else r) ∷ update_rows i change rs

abbrev pub with_status : ℤ → Option String → Row → Row
with_status status none r = record r { status = status }
with_status status (some content) r = record r { status = status; content = content }

-- `updateMessageDbStatusAndContent`; the content is none for a null pointer.
unfoldable pub update_message_db : String → ℤ → Option String → List Row → List Row
unfolding update_rows
update_message_db i status content rows =
    if is_empty i then rows else update_rows i (with_status status content) rows
