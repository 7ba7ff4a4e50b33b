-- ===== src/MessageManager/Run.antt =====
-- The replies and notifications that the message manager receives, and runs of them.
use anychat_sdk.Prelude.{
  String, Bool, true, false, ℤ, pos, ◌≡◌, ◌⊎◌, inl, inr, arith, List, [], ◌∷◌, Option, some,
  same_text, Option-cases, Bool-cases,
}
use anychat_sdk.Types.{NotificationEvent}
use anychat_sdk.Cache.MessageCache.Invariant.{IsValid}
use anychat_sdk.Http.{with_reply_keeps, lacks_route}
use anychat_sdk.Json.Envelope.{HttpResponse, ApiEnvelope}
use anychat_sdk.MessageManager.{Manager, Api, recall_frame, delete_frame, edit_frame, set_listener}
use anychat_sdk.MessageManager.Notifications.{
  handle_incoming, handle_mentioned, handle_recalled, handle_deleted, handle_edited,
  handle_read_receipt, handle_typing, on_notification, parse_object, on_payload,
}
use anychat_sdk.MessageManager.Payloads.{EditMessageData, NotificationMessagePayload}
use anychat_sdk.MessageManager.Replies.{
  check, parse_and_return, on_history_reply, on_offline_reply, on_search_reply,
  on_group_state_reply, ack_replied, on_ack_reply, on_ack_fallback_reply, set_status,
  on_recall_reply, on_delete_reply, apply_edit, on_edit_reply,
}
use anychat_sdk.MessageManager.Cached.{
  if-IsValid, CacheIsValid, Agrees, tell-IsValid, mark_ids_read-IsValid, set_status-IsValid,
  store_listed-IsValid, apply_edit-IsValid, change_replied-IsValid, handle_recalled-IsValid,
  handle_deleted-IsValid, handle_edited-IsValid, handle_incoming-IsValid, handle_mentioned-IsValid,
}

module _ (api : Api) where
  -- The reply to each request, with what its closure holds, or a notification, or a call of
  -- `setListener`.
  pub data Event : Type 0 where
    history : String → ℤ → ℤ → HttpResponse → Event
    history_again : String → HttpResponse → Event
    offline searched group_state : HttpResponse → Event
    acked : String → List String → HttpResponse → Event
    acked_again : List String → HttpResponse → Event
    recalls deletes : String → HttpResponse → Event
    edits : String → String → HttpResponse → Event
    notifies : NotificationEvent → Event
    listens : Bool → Event

  unfoldable pub step : Event → Manager → Manager
  step (history k before limit resp) s = (on_history_reply api k before limit resp s).0
  step (history_again k resp) s = (parse_and_return api k resp s).0
  step (offline resp) s = (on_offline_reply api resp s).0
  step (searched resp) s = (on_search_reply api resp s).0
  step (group_state resp) s = (on_group_state_reply api resp s).0
  step (acked k ids resp) s = (on_ack_reply api k ids resp s).0
  step (acked_again ids resp) s = (on_ack_fallback_reply api ids resp s).0
  step (recalls i resp) s = (on_recall_reply api i resp s).0
  step (deletes i resp) s = (on_delete_reply api i resp s).0
  step (edits i content resp) s = (on_edit_reply api i content resp s).0
  step (notifies event) s = on_notification api event s
  step (listens present) s = set_listener present s

  unfoldable pub run : List Event → Manager → Manager
  run [] s = s
  run (e ∷ es) s = run es (step e s)

  -- What a recall or a deletion that is notified has to name.
  abbrev pub Fits : Event → Manager → Type 0
  Fits (notifies event) s =
      (p : NotificationMessagePayload)
      → parse_object api.read_message_notification event.payload ≡ some p
      → (event.notification_type ≡ "message.recalled")
        ⊎ (event.notification_type ≡ "message.deleted")
      → Agrees p s
  Fits _ s = Unit {0}

  abbrev pub AllFit : List Event → Manager → Type 0
  AllFit [] s = Unit {0}
  AllFit (e ∷ es) s = Fits e s × AllFit es (step e s)

  on_payload-IsValid :
      {A : Type 0} (read : String → Option A) (raw : String) (handle : A → Manager → Manager)
      (s : Manager)
      → CacheIsValid s
      → ((p : A) → parse_object read raw ≡ some p → CacheIsValid (handle p s))
      → CacheIsValid (on_payload read raw handle s)
  on_payload-IsValid read raw handle s v h = elim (Option-cases (parse_object read raw)) [
    | inl e ↦ rw (e, on_payload) v
    | inr (p, e) ↦ rw (e, on_payload) (h p e)
  ]

  notification-IsValid :
      (event : NotificationEvent) (s : Manager)
      → Fits (notifies event) s
      → CacheIsValid s
      → CacheIsValid (on_notification api event s)
  unfolding on_notification handle_read_receipt handle_typing
  notification-IsValid event s fits v =
      let type = event.notification_type in
      let t = event.timestamp in
      let raw = event.payload in
      let on_message = on_payload-IsValid api.read_message_notification raw in
      if-IsValid (same_text type "message.new") _ _
        (λ _. on_message (handle_incoming api t) s v (λ p e. handle_incoming-IsValid api t p s v))
        (if-IsValid (same_text type "message.read_receipt") _ _
          (λ _.
            on_payload-IsValid api.read_receipt_notification raw (handle_read_receipt api t) s v
              (λ p e. tell-IsValid _ s v))
          (if-IsValid (same_text type "message.recalled") _ _
            (λ a.
              on_message (handle_recalled api t) s v
                (λ p e. handle_recalled-IsValid api t p s (fits p e (inl (ground (arith, a)))) v))
            (if-IsValid (same_text type "message.deleted") _ _
              (λ a.
                on_message (handle_deleted api t) s v
                  (λ p e. handle_deleted-IsValid api t p s (fits p e (inr (ground (arith, a)))) v))
              (if-IsValid (same_text type "message.edited") _ _
                (λ _. on_message (handle_edited api) s v (λ p e. handle_edited-IsValid api p s v))
                (if-IsValid (same_text type "message.typing") _ _
                  (λ _.
                    on_payload-IsValid api.read_typing_notification raw (handle_typing api t) s v
                      (λ p e. tell-IsValid _ s v))
                  (if-IsValid (same_text type "message.mentioned") _ _
                    (λ _.
                      on_message (handle_mentioned api t) s v
                        (λ p e. handle_mentioned-IsValid api t p s v))
                    v))))))

  acked-IsValid :
      (conv_id : String) (ids : List String) (status : ℤ) (r : Bool × ApiEnvelope (Unit {0}))
      (s : Manager)
      → CacheIsValid s
      → CacheIsValid (ack_replied api conv_id ids status r s).0
  unfolding ack_replied
  acked-IsValid conv_id ids status (true, root) s v = mark_ids_read-IsValid ids s v
  acked-IsValid conv_id ids status (false, root) s v = v

  step-IsValid : (e : Event) (s : Manager) → Fits e s → CacheIsValid s → CacheIsValid (step e s)
  unfolding step on_history_reply parse_and_return on_offline_reply on_search_reply
      on_group_state_reply on_ack_reply on_ack_fallback_reply on_recall_reply on_delete_reply
      on_edit_reply set_listener
  step-IsValid (history k before limit resp) s fits v =
      elim (Bool-cases (lacks_route resp.status_code)) [
        | inl e ↦ rw (e, step) v
        | inr e ↦
            rw (e, step)
              (with_reply_keeps CacheIsValid _ s _ v (λ _. store_listed-IsValid api k _ s v))
      ]
  step-IsValid (history_again k resp) s fits v =
      with_reply_keeps CacheIsValid _ s _ v (λ _. store_listed-IsValid api k _ s v)
  step-IsValid (offline resp) s fits v =
      with_reply_keeps CacheIsValid _ s _ v (λ _. store_listed-IsValid api "" _ s v)
  step-IsValid (searched resp) s fits v =
      with_reply_keeps CacheIsValid _ s _ v (λ _. store_listed-IsValid api "" _ s v)
  step-IsValid (group_state resp) s fits v = with_reply_keeps CacheIsValid _ s _ v (λ _. v)
  step-IsValid (acked k ids resp) s fits v = acked-IsValid k ids resp.status_code _ s v
  step-IsValid (acked_again [] resp) s fits v = with_reply_keeps CacheIsValid _ s _ v (λ _. v)
  step-IsValid (acked_again (i ∷ ids) resp) s fits v =
      with_reply_keeps CacheIsValid _ s _ v (λ _. mark_ids_read-IsValid (i ∷ ids) s v)
  step-IsValid (recalls i resp) s fits v =
      change_replied-IsValid api (recall_frame i) resp (λ _. set_status i (pos 1))
        (check api tt api.read_none "recall message failed" resp) s v
        (λ _. set_status-IsValid i (pos 1) s v)
  step-IsValid (deletes i resp) s fits v =
      change_replied-IsValid api (delete_frame i) resp (λ _. set_status i (pos 2))
        (check api tt api.read_none "delete message failed" resp) s v
        (λ _. set_status-IsValid i (pos 2) s v)
  step-IsValid (edits i content resp) s fits v =
      change_replied-IsValid api (edit_frame i content) resp (apply_edit api i content)
        (check api EditMessageData.empty api.read_edit "edit message failed" resp) s v
        (λ d. apply_edit-IsValid api i content d s v)
  step-IsValid (notifies event) s fits v = notification-IsValid event s fits v
  step-IsValid (listens present) s fits v = v

  -- Over any run of replies and notifications every bucket of the message cache stays sorted,
  -- within its size, free of duplicates and filed under its messages' conversation, if each recall
  -- or deletion that is notified names the conversation of the cached message with its id, or none.
  pub run-CacheIsValid :
      (es : List Event) (s : Manager) → AllFit es s → IsValid s.cache → IsValid (run es s).cache
  unfolding run
  run-CacheIsValid [] s fit v = v
  run-CacheIsValid (e ∷ es) s fit v =
      run-CacheIsValid es (step e s) fit.1 (step-IsValid e s fit.0 v)
