-- ===== src/MessageManager/Cached.antt =====
-- What each operation of the message manager does to the cache's invariant.
use anychat_sdk.Prelude.{
  String, Bool, true, false, ℤ, ◌≡◌, ◌⊎◌, refl, inl, inr, arith, List, [], ◌∷◌, some, is_empty, ap,
  if◌then◌else◌, Bool-cases, not, ◌&&◌,
}
use anychat_sdk.Types.{Message}
use anychat_sdk.Cache.MessageCache.{update_message_by_id}
use anychat_sdk.Cache.MessageCache.Invariant.{IsValid, insert-IsValid}
use anychat_sdk.Cache.MessageCache.Update.{SameKeys, update_message_by_id-IsValid}
use anychat_sdk.Http.{lacks_route}
use anychat_sdk.Json.Envelope.{HttpResponse, ApiEnvelope}
use anychat_sdk.MessageManager.{
  Manager, Api, Told, Frame, tell, find_message, update_cached, update_db, upsert_db, store,
  insert_cached, send_frame,
}
use anychat_sdk.MessageManager.Lookup.{update_message_agree}
use anychat_sdk.MessageManager.Notifications.{
  patch_cached, handle_incoming, handle_mentioned, handle_recalled, handle_deleted, handle_edited,
  take_recall, take_deletion, take_changes, timed, insert_if_new,
}
use anychat_sdk.MessageManager.Payloads.{
  MessagePayload, EditMessageData, NotificationMessagePayload, parse_message_from_notification,
}
use anychat_sdk.MessageManager.Replies.{
  store_listed, mark_ids_read, marked_read, change_replied, set_status, apply_edit,
}

abbrev pub CacheIsValid : Manager → Type 0
CacheIsValid s = IsValid s.cache

pub tell-IsValid : (t : Told) (s : Manager) → CacheIsValid s → CacheIsValid (tell t s)
unfolding tell
tell-IsValid t s v = elim (Bool-cases s.has_listener) [
  | inl e ↦ rw (e, tell) v
  | inr e ↦ rw (e, tell) v
]

timed-keeps :
    (t : ℤ) (m : Message)
    → ((timed t m).message_id ≡ m.message_id) × ((timed t m).conv_id ≡ m.conv_id)
timed-keeps t m = ground arith

pub update_cached-IsValid :
    (i : String) (f : Message → Message) (s : Manager)
    → ((m : Message) → SameKeys (f m) m)
    → CacheIsValid s
    → CacheIsValid (update_cached i f s)
unfolding update_cached
update_cached-IsValid i f s same v = update_message_by_id-IsValid i f same s.cache v

pub mark_ids_read-IsValid :
    (ids : List String) (s : Manager) → CacheIsValid s → CacheIsValid (mark_ids_read ids s)
unfolding mark_ids_read
mark_ids_read-IsValid [] s v = v
mark_ids_read-IsValid (i ∷ ids) s v = elim (Bool-cases (is_empty i)) [
  | inl e ↦ rw (e, mark_ids_read) (mark_ids_read-IsValid ids s v)
  | inr e ↦
      rw (e, mark_ids_read)
        (mark_ids_read-IsValid ids (update_cached i marked_read s)
          (update_cached-IsValid i marked_read s (λ m. (refl, refl, refl)) v))
]

pub set_status-IsValid :
    (i : String) (status : ℤ) (s : Manager) → CacheIsValid s → CacheIsValid (set_status i status s)
unfolding set_status update_db
set_status-IsValid i status s v = update_cached-IsValid i _ s (λ m. (refl, refl, refl)) v

-- A notification names the conversation that the cached message is in, or none.
abbrev pub Agrees : NotificationMessagePayload → Manager → Type 0
Agrees p s =
    (m : Message)
    → find_message p.message_id s.cache.buckets ≡ some m
    → (p.conversation_id ≡ "") ⊎ (p.conversation_id ≡ m.conv_id)

-- A test keeps what both of its branches keep.
pub if-IsValid :
    (b : Bool) (x y : Manager)
    → (b ≡ true → CacheIsValid x)
    → CacheIsValid y
    → CacheIsValid (if b then x else y)
if-IsValid true x y h k = h refl
if-IsValid false x y h k = k

module _ (api : Api) where
  pub store-IsValid : (m : Message) (s : Manager) → CacheIsValid s → CacheIsValid (store api m s)
  unfolding store insert_cached upsert_db
  store-IsValid m s v = insert-IsValid api.sorter m s.cache v

  pub store_listed-IsValid :
      (conv_id : String) (ps : List MessagePayload) (s : Manager)
      → CacheIsValid s
      → CacheIsValid (store_listed api conv_id ps s).1
  unfolding store_listed
  store_listed-IsValid conv_id [] s v = v
  store_listed-IsValid conv_id (p ∷ ps) s v = elim (Bool-cases (is_empty p.message_id)) [
    | inl e ↦ rw (e, store_listed) (store_listed-IsValid conv_id ps s v)
    | inr e ↦ rw (e, store_listed) (store_listed-IsValid conv_id ps _ (store-IsValid _ s v))
  ]

  pub apply_edit-IsValid :
      (i content : String) (d : EditMessageData) (s : Manager)
      → CacheIsValid s
      → CacheIsValid (apply_edit api i content d s)
  unfolding apply_edit update_db
  apply_edit-IsValid i content d s v = update_cached-IsValid i _ s (λ m. (refl, refl, refl)) v

  send_frame-cache : (frame : Frame) (s : Manager) → (send_frame api frame s).0.cache ≡ s.cache
  unfolding send_frame
  send_frame-cache frame s = ground arith

  pub change_replied-IsValid :
      {A : Type 0} (frame : Frame) (resp : HttpResponse) (accept : A → Manager → Manager)
      (r : Bool × ApiEnvelope A) (s : Manager)
      → CacheIsValid s
      → ((a : A) → CacheIsValid (accept a s))
      → CacheIsValid (change_replied api frame resp accept r s).0
  unfolding change_replied
  change_replied-IsValid frame resp accept (true, root) s v keeps = keeps root.payload
  change_replied-IsValid frame resp accept (false, root) s v keeps =
      elim (Bool-cases (lacks_route resp.status_code)) [
        | inl e ↦ rw (e, change_replied, send_frame-cache frame s) v
        | inr e ↦ rw (e, change_replied) v
      ]

  pub insert_if_new-IsValid :
      (found : Bool) (m : Message) (s : Manager)
      → CacheIsValid s
      → CacheIsValid (insert_if_new api found m s)
  unfolding insert_if_new insert_cached
  insert_if_new-IsValid found m s v = elim (Bool-cases (not found && not (is_empty m.conv_id))) [
    | inl e ↦ rw (e, insert_if_new) (insert-IsValid api.sorter m s.cache v)
    | inr e ↦ rw (e, insert_if_new) v
  ]

  pub patch_cached-IsValid :
      (take : Message → Message → Message) (msg : Message) (s : Manager)
      → ((m : Message) → ((take msg m).message_id ≡ m.message_id) × ((take msg m).seq ≡ m.seq))
      → ((m : Message)
          → find_message msg.message_id s.cache.buckets ≡ some m
          → (take msg m).conv_id ≡ m.conv_id)
      → CacheIsValid s
      → CacheIsValid (patch_cached api take msg s).1
  unfolding patch_cached
  patch_cached-IsValid take msg s keeps agrees v = insert_if_new-IsValid _ _ _ patched
    where
      keep_place : Message → Message
      keep_place m = record (take msg m) { conv_id = m.conv_id }

      patched : IsValid (update_message_by_id msg.message_id (take msg) s.cache).0
      patched =
          rw
            (update_message_agree msg.message_id (take msg) keep_place s.cache
              (λ m h. ap (λ k. record (take msg m) { conv_id = k }) (agrees m h)))
            (update_message_by_id-IsValid msg.message_id keep_place
              (λ m. ((keeps m).0, refl, (keeps m).1)) s.cache v)

  pub handle_recalled-IsValid :
      (t : ℤ) (p : NotificationMessagePayload) (s : Manager)
      → Agrees p s
      → CacheIsValid s
      → CacheIsValid (handle_recalled api t p s)
  unfolding handle_recalled update_db parse_message_from_notification
  handle_recalled-IsValid t p s agrees v = elim (Bool-cases (is_empty p.message_id)) [
    | inl e ↦ rw (e, handle_recalled) v
    | inr e ↦
        rw (e, handle_recalled)
          (tell-IsValid _ _ (
            patch_cached-IsValid take_recall _ s (λ m. (refl, refl))
              (λ m h. ground (arith, agrees m, h, e)) v))
  ]

  pub handle_deleted-IsValid :
      (t : ℤ) (p : NotificationMessagePayload) (s : Manager)
      → Agrees p s
      → CacheIsValid s
      → CacheIsValid (handle_deleted api t p s)
  unfolding handle_deleted update_db parse_message_from_notification
  handle_deleted-IsValid t p s agrees v = elim (Bool-cases (is_empty p.message_id)) [
    | inl e ↦ rw (e, handle_deleted) v
    | inr e ↦
        rw (e, handle_deleted)
          (tell-IsValid _ _ (
            patch_cached-IsValid take_deletion _ s (λ m. (refl, refl))
              (λ m h. ground (arith, agrees m, h, e)) v))
  ]

  pub handle_edited-IsValid :
      (p : NotificationMessagePayload) (s : Manager)
      → CacheIsValid s
      → CacheIsValid (handle_edited api p s)
  unfolding handle_edited update_db parse_message_from_notification
  handle_edited-IsValid p s v = elim (Bool-cases (is_empty p.message_id)) [
    | inl e ↦ rw (e, handle_edited) v
    | inr e ↦
        rw (e, handle_edited)
          (tell-IsValid _ _
            (patch_cached-IsValid take_changes _ s (λ m. (refl, refl)) (λ m h. refl) v))
  ]

  pub handle_incoming-IsValid :
      (t : ℤ) (p : NotificationMessagePayload) (s : Manager)
      → CacheIsValid s
      → CacheIsValid (handle_incoming api t p s)
  unfolding handle_incoming parse_message_from_notification
  handle_incoming-IsValid t p s v = elim (Bool-cases (is_empty p.message_id)) [
    | inl e ↦ rw (e, handle_incoming) v
    | inr e ↦ rw (e, handle_incoming) (tell-IsValid _ _ (store-IsValid _ s v))
  ]

  pub handle_mentioned-IsValid :
      (t : ℤ) (p : NotificationMessagePayload) (s : Manager)
      → CacheIsValid s
      → CacheIsValid (handle_mentioned api t p s)
  unfolding handle_mentioned parse_message_from_notification
  handle_mentioned-IsValid t p s v = elim (Bool-cases (is_empty p.message_id)) [
    | inl e ↦ rw (e, handle_mentioned) v
    | inr e ↦ rw (e, handle_mentioned) (tell-IsValid _ _ (store-IsValid _ s v))
  ]
