-- ===== src/Outbound.antt =====
-- core/src/outbound_queue.h and .cpp: messages on their way out, kept in the `outbound_queue`
-- table until the server acknowledges them. The SQL statements act on the table's rows: the
-- database worker runs them in the order in which they were posted, so each is one step. The JSON
-- writer and the conversions between numbers and texts are parameters.
pub mod Run
pub mod Pending
pub mod Flush
pub mod Callbacks
use anychat_sdk.Prelude.{
  ℕ, suc, ◌+◌, String, Bool, true, false, ◌||◌, ℤ, ltb_ℤ, to_int32, List, [], ◌∷◌, ◌++◌, Option,
  none, some, text_dec, same_text, is_empty, if◌then◌else◌,
}
use anychat_sdk.Prelude.Dict.{lookup, erase, emplace}
use anychat_sdk.Prelude.Sort.{Sorter}
use anychat_sdk.Types.{MsgSentAck}

-- A row of the table, whose primary key is `local_id`.
pub record QueueRow : Type 0 where
  pub local_id : String
  pub conv_id : String
  pub conv_type : String
  pub content_type : ℤ
  pub content : String
  pub retry_count : ℕ
  pub created_at : ℤ

-- `SendMessagePayload`; the frame around it has the type `message.send`.
pub record SendPayload : Type 0 where
  pub conversation_id : String
  pub conversation_type : String
  pub content_type : ℤ
  pub content : String
  pub local_id : String

pub record SendFrame : Type 0 where
  pub type : String
  pub payload : SendPayload

-- `AnyChatCallback`: which of its two functions are set, and a name for it.
pub record Callback : Type 0 where
  pub name : ℕ
  pub has_success : Bool
  pub has_error : Bool

-- A frame given to a send function, and a call of a callback's `on_success`.
pub data Effect : Type 0 where
  sent : ℕ → String → Effect
  succeeded : ℕ → Effect

-- A send function is named by a number; `send_fn` is none while disconnected.
pub record Outbound : Type 0 where
  pub rows : List QueueRow
  pub send_fn : Option ℕ
  pub callbacks : List (String × Callback)
  pub log : List Effect  -- newest first

-- What the queue calls and does not implement: glaze's JSON writer, SQLite's text of an INTEGER
-- column, and `std::stoll`.
pub record Codec : Type 0 where
  pub write_json : SendFrame → Option String
  pub column_text : ℤ → String
  pub stoll : String → Option ℤ

-- The constructor, over the rows that the table holds.
unfoldable pub create : List QueueRow → Outbound
create rows = record { rows = rows; send_fn = none; callbacks = []; log = [] }

abbrev pub has_id : String → QueueRow → Bool
has_id k r = same_text r.local_id k

-- `WHERE local_id = ?`
unfoldable pub find_row : String → List QueueRow → Option QueueRow
find_row k [] = none
find_row k (r ∷ rs) = if has_id k r then some r else find_row k rs

-- `INSERT OR IGNORE`
unfoldable pub insert_or_ignore : QueueRow → List QueueRow → List QueueRow
unfolding find_row
insert_or_ignore r rs = elim (find_row r.local_id rs) [ none ↦ rs ++ r ∷ [] | some _ ↦ rs ]

-- `DELETE`
unfoldable pub delete_row : String → List QueueRow → List QueueRow
delete_row k [] = []
delete_row k (r ∷ rs) = if has_id k r then delete_row k rs else r ∷ delete_row k rs

abbrev pub bumped : QueueRow → QueueRow
bumped r = record r { retry_count = r.retry_count + 1 }

-- `UPDATE … SET retry_count = retry_count + 1`
unfoldable pub bump_retry : String → List QueueRow → List QueueRow
bump_retry k [] = []
bump_retry k (r ∷ rs) = (if has_id k r then bumped r else r) ∷ bump_retry k rs

-- `ORDER BY created_at ASC`
abbrev pub created_before : QueueRow → QueueRow → Bool
created_before a b = ltb_ℤ a.created_at b.created_at

unfoldable pub on_disconnected : Outbound → Outbound
on_disconnected c = record c { send_fn = none }

unfoldable pub send_transient : String → Outbound → Outbound × Bool
send_transient json c = elim c.send_fn [
  | none ↦ (c, false)
  | some f ↦ (record c { log = sent f json ∷ c.log }, true)
]

abbrev pub run_success : Option Callback → List Effect → List Effect
run_success none l = l
run_success (some cb) l = if cb.has_success then succeeded cb.name ∷ l else l

unfoldable pub on_message_sent_ack : MsgSentAck → Outbound → Outbound
on_message_sent_ack ack c = if is_empty ack.local_id then c else record c {
  rows = delete_row ack.local_id c.rows;
  callbacks = erase text_dec ack.local_id c.callbacks;
  log = run_success (lookup text_dec ack.local_id c.callbacks) c.log;
}

module _ (codec : Codec) where
  -- The empty text stands for a failure.
  unfoldable pub build_send_frame : String → String → ℤ → String → String → String
  build_send_frame conv_id conv_type content_type content local_id =
      elim (codec.write_json (record { type = "message.send"; payload = payload })) [
        | none ↦ ""
        | some json ↦ json
      ]
    where
      payload : SendPayload
      payload = record {
        conversation_id = conv_id;
        conversation_type = conv_type;
        content_type = content_type;
        content = content;
        local_id = local_id;
      }

  unfoldable pub send_row : String → String → ℤ → String → String → Outbound → Outbound
  send_row conv_id conv_type content_type content local_id c = elim c.send_fn [
    | none ↦ c
    | some f ↦
        let payload = build_send_frame conv_id conv_type content_type content local_id in
        if is_empty payload
        then c
        else record c { rows = bump_retry local_id c.rows; log = sent f payload ∷ c.log }
  ]

  unfoldable pub enqueue :
      ℤ → String → String → ℤ → String → String → Callback → Outbound → Outbound
  unfolding send_row
  enqueue now_s conv_id conv_type content_type content local_id cb c =
      let row : QueueRow = record {
        local_id = local_id;
        conv_id = conv_id;
        conv_type = conv_type;
        content_type = content_type;
        content = content;
        retry_count = 0;
        created_at = now_s;
      } in
      let stored = record c {
        rows = insert_or_ignore row c.rows;
        callbacks =
            if cb.has_success || cb.has_error
            then emplace text_dec local_id cb c.callbacks
            else c.callbacks;
      } in
      send_row conv_id conv_type content_type content local_id stored

  -- The body of the loop of `onConnected`.
  unfoldable pub flush_row : QueueRow → Outbound → Outbound
  flush_row r c = elim (codec.stoll (codec.column_text r.content_type)) [
    | none ↦ c
    | some z ↦ send_row r.conv_id r.conv_type (to_int32 z) r.content r.local_id c
  ]

  -- The loop, over the rows that the query returned.
  unfoldable pub flush : List QueueRow → Outbound → Outbound
  flush [] c = c
  flush (r ∷ rs) c = flush rs (flush_row r c)

  unfoldable pub on_connected : Sorter created_before → ℕ → Outbound → Outbound
  on_connected sorter f c = flush (sorter.sort c.rows) (record c { send_fn = some f })
