-- ===== src/ConversationManager/Mirror.antt =====
-- The table follows the cache: what is cached stands in the table.
use anychat_sdk.Prelude.{
  ◌≤◌, String, Bool, true, false, ℤ, pos, ltb_ℤ, ◌≡◌, sym, ◌∙◌, refl, inl, inr, arith, List, [],
  ◌∷◌, Option, none, some, count_if, same_text, if◌then◌else◌, Option-cases, Bool-cases,
}
use anychat_sdk.Types.{Conversation}
use anychat_sdk.Cache.ConversationCache
use anychat_sdk.Cache.ConversationCache.{has_id}
use anychat_sdk.Cache.ConversationCache.Invariant.{
  IsValid, upsert-IsValid, remove-IsValid, clear_unread-IsValid, set_all-IsValid,
}
use anychat_sdk.Cache.ConversationCache.Lookup.{
  get-upsert, get-remove, get-clear_unread, get-set_all,
}
use anychat_sdk.ConversationManager.{Manager, store, erase, edit, tell}
use anychat_sdk.ConversationManager.Rows.{Row, row_of, upsert_db, find_row, delete_row, update_rows}
use anychat_sdk.ConversationManager.Replies

-- Each cached conversation is, column by column, the row with its key.
pub record IsMirrored (s : Manager) : Type 0 where
  pub valid : IsValid s.cache
  pub mirrored :
      (k : String) (c : Conversation)
      → ConversationCache.get k s.cache ≡ some c
      → find_row k s.rows ≡ some (row_of c)

get-conv_id :
    (k : String) (cs : List Conversation) (c : Conversation)
    → ConversationCache.get k cs ≡ some c
    → c.conv_id ≡ k
unfolding ConversationCache.get
get-conv_id k [] c h = absurd (ground arith)
get-conv_id k (d ∷ cs) c h = ground (arith, get-conv_id k cs c)

pub find_row-upsert_db :
    (c : Conversation) (k : String) (rows : List Row)
    → find_row k (upsert_db c rows)
      ≡ (if same_text c.conv_id k then some (row_of c) else find_row k rows)
unfolding find_row upsert_db
find_row-upsert_db c k [] = ground arith
find_row-upsert_db c k (r ∷ rs) = ground (arith, find_row-upsert_db c k rs)

pub find_row-delete_row :
    (j k : String) (rows : List Row)
    → find_row k (delete_row j rows) ≡ (if same_text j k then none else find_row k rows)
unfolding find_row delete_row
find_row-delete_row j k [] = ground arith
find_row-delete_row j k (r ∷ rs) = ground (arith, find_row-delete_row j k rs)

abbrev changed_row : Bool → (Row → Row) → Option Row → Option Row
changed_row true change (some r) = some (change r)
changed_row true change none = none
changed_row false change o = o

find_row-update_rows :
    (j k : String) (change : Row → Row) (rows : List Row)
    → ((r : Row) → (change r).conv_id ≡ r.conv_id)
    → find_row k (update_rows j change rows) ≡ changed_row (same_text j k) change (find_row k rows)
unfolding find_row update_rows
find_row-update_rows j k change [] same = ground arith
find_row-update_rows j k change (r ∷ rs) same =
    ground (arith, same r, find_row-update_rows j k change rs same)

pub store-IsMirrored : (c : Conversation) (s : Manager) → IsMirrored s → IsMirrored (store c s)
unfolding store
store-IsMirrored c s m = record {
  valid = upsert-IsValid c s.cache m.valid;
  mirrored = λ k d h.
      ground (arith, get-upsert c s.cache k m.valid, find_row-upsert_db c k s.rows, m.mirrored k d);
}

pub erase-IsMirrored : (j : String) (s : Manager) → IsMirrored s → IsMirrored (erase j s)
unfolding erase
erase-IsMirrored j s m = record {
  valid = remove-IsValid j s.cache m.valid;
  mirrored = λ k d h.
      ground (arith, get-remove j k s.cache, find_row-delete_row j k s.rows, m.mirrored k d);
}

pub edit-IsMirrored :
    (j : String) (change : Conversation → Conversation) (s : Manager)
    → IsMirrored s
    → IsMirrored (edit j change s)
unfolding edit
edit-IsMirrored j change s m = elim (Option-cases (ConversationCache.get j s.cache)) [
  | inl e ↦ rw (e, edit) m
  | inr (c, e) ↦ rw (e, edit) (store-IsMirrored (change c) s m)
]

pub advance_seq-IsMirrored :
    (j : String) (seq : ℤ) (s : Manager) → IsMirrored s → IsMirrored (Replies.advance_seq j seq s)
unfolding Replies.advance_seq
advance_seq-IsMirrored j seq s m = elim (Option-cases (ConversationCache.get j s.cache)) [
  | inl e ↦ record {
    valid = ground (arith, e, m.valid);
    mirrored = λ k d h. ground (
      arith,
      e,
      find_row-update_rows j k (Replies.raise_seq seq) s.rows (λ r. refl),
      m.mirrored k d,
    );
  }
  | inr (c, e) ↦ elim (Bool-cases (ltb_ℤ c.local_seq seq)) [
    | inl t ↦ rw (e, Replies.advance_seq, t) (store-IsMirrored (record c { local_seq = seq }) s m)
    | inr t ↦ rw (e, Replies.advance_seq, t) m
  ]
]

pub read_all-IsMirrored :
    (j : String) (s : Manager)
    → IsMirrored s
    → IsMirrored (record s {
      cache = ConversationCache.clear_unread j s.cache;
      rows = update_rows j (λ r. record r { unread_count = pos 0 }) s.rows;
    })
unfolding row_of
read_all-IsMirrored j s m = record {
  valid = clear_unread-IsValid j s.cache m.valid;
  mirrored = λ k d h. elim (Option-cases (ConversationCache.get k s.cache)) [
    | inl e ↦ absurd (ground (arith, get-clear_unread j k s.cache, e))
    | inr (c, e) ↦ ground (
      arith,
      get-clear_unread j k s.cache,
      e,
      m.mirrored k c e,
      find_row-update_rows j k (λ r. record r { unread_count = pos 0 }) s.rows (λ r. refl),
    )
  ];
}

find_row-upsert_all_absent :
    (k : String) (cs : List Conversation) (rows : List Row)
    → count_if (has_id k) cs ≡ 0
    → find_row k (Replies.upsert_all cs rows) ≡ find_row k rows
find_row-upsert_all_absent k [] rows h = refl
find_row-upsert_all_absent k (c ∷ cs) rows h =
    ground (arith, find_row-upsert_all_absent k cs (upsert_db c rows), find_row-upsert_db c k rows)

find_row-upsert_all :
    (k : String) (cs : List Conversation) (rows : List Row) (c : Conversation)
    → count_if (has_id k) cs ≤ 1
    → ConversationCache.get k cs ≡ some c
    → find_row k (Replies.upsert_all cs rows) ≡ some (row_of c)
unfolding ConversationCache.get
find_row-upsert_all k [] rows c h e = absurd (ground arith)
find_row-upsert_all k (d ∷ cs) rows c h e = ground (
  arith,
  find_row-upsert_all k cs (upsert_db d rows) c,
  find_row-upsert_all_absent k cs (upsert_db d rows),
  find_row-upsert_db d k rows,
)

pub list-IsMirrored :
    (cs : List Conversation) (s : Manager)
    → ((k : String) → count_if (has_id k) cs ≤ 1)
    → IsMirrored
        (record s { cache = ConversationCache.set_all cs; rows = Replies.upsert_all cs s.rows })
list-IsMirrored cs s distinct = record {
  valid = set_all-IsValid cs distinct;
  mirrored = λ k c h.
      find_row-upsert_all k cs s.rows c (distinct k) (sym (get-set_all k cs (distinct k)) ∙ h);
}

pub tell-IsMirrored : (c : Conversation) (s : Manager) → IsMirrored s → IsMirrored (tell c s)
unfolding tell
tell-IsMirrored c s m = record {
  valid = ground (arith, m.valid);
  mirrored = λ k d h. ground (arith, m.mirrored k d);
}
