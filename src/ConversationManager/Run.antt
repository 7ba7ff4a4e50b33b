-- ===== src/ConversationManager/Run.antt =====
-- The replies and notifications that the conversation manager receives, and runs of them.
use anychat_sdk.Prelude.{
  ◌≤◌, String, Bool, true, false, ℤ, ◌≡◌, refl, inl, inr, arith, List, [], ◌∷◌, Option, none, All,
  count_if, Option-cases, Bool-cases, is_empty, same_text,
}
use anychat_sdk.Types.{NotificationEvent}
use anychat_sdk.Cache.ConversationCache
use anychat_sdk.Cache.ConversationCache.{has_id}
use anychat_sdk.Http.{with_reply_keeps, strict}
use anychat_sdk.Json.Envelope.{
  HttpResponse, ApiEnvelope, parsed, passes_iff, parse_api_envelope_response,
}
use anychat_sdk.ConversationManager.{Manager, Api, store, erase, set_listener}
use anychat_sdk.ConversationManager.Mirror.{
  IsMirrored, store-IsMirrored, erase-IsMirrored, edit-IsMirrored, advance_seq-IsMirrored,
  read_all-IsMirrored, tell-IsMirrored, list-IsMirrored,
}
use anychat_sdk.ConversationManager.Payloads.{
  value_or, NotificationConversationPayload, notification_conversation_id,
  is_conversation_notification, ConversationPayload,
}
use anychat_sdk.ConversationManager.Replies.{
  on_list_reply, on_get_reply, on_delete_reply, on_read_all_reply, on_marked_reply, on_pinned_reply,
  on_muted_reply, on_burn_reply, on_auto_delete_reply, on_total_reply, on_unread_reply,
  on_receipts_reply, on_sequence_reply, on_change_reply, listed,
}
use anychat_sdk.ConversationManager.Notifications.{
  on_notification, cached_or_new, patched, handle_conversation_notification, apply_payload,
}

-- A reply with what its closure holds, or a notification; a number is the clock's reading.
pub data Event : Type 0 where
  lists : ℤ → HttpResponse → Event
  gets : ℤ → String → HttpResponse → Event
  deletes : String → HttpResponse → Event
  reads_all : String → HttpResponse → Event
  marks : HttpResponse → Event
  pins : ℤ → String → Bool → HttpResponse → Event
  mutes : ℤ → String → Bool → HttpResponse → Event
  burns : ℤ → String → ℤ → HttpResponse → Event
  auto_deletes : ℤ → String → ℤ → HttpResponse → Event
  totals : HttpResponse → Event
  unreads : String → HttpResponse → Event
  receipts : HttpResponse → Event
  sequences : String → HttpResponse → Event
  notifies : ℤ → NotificationEvent → Event
  listens : Bool → Event

module _ (api : Api) where
  unfoldable pub step : Event → Manager → Manager
  step (lists now resp) s = (on_list_reply api now resp s).0
  step (gets now k resp) s = (on_get_reply api now k resp s).0
  step (deletes k resp) s = (on_delete_reply api k resp s).0
  step (reads_all k resp) s = (on_read_all_reply api k resp s).0
  step (marks resp) s = (on_marked_reply api resp s).0
  step (pins now k pinned resp) s = (on_pinned_reply api now k pinned resp s).0
  step (mutes now k muted resp) s = (on_muted_reply api now k muted resp s).0
  step (burns now k duration resp) s = (on_burn_reply api now k duration resp s).0
  step (auto_deletes now k duration resp) s = (on_auto_delete_reply api now k duration resp s).0
  step (totals resp) s = (on_total_reply api resp s).0
  step (unreads k resp) s = (on_unread_reply api k resp s).0
  step (receipts resp) s = (on_receipts_reply api resp s).0
  step (sequences k resp) s = (on_sequence_reply api k resp s).0
  step (notifies now event) s = on_notification api now event s
  step (listens present) s = set_listener present s

  unfoldable pub run : List Event → Manager → Manager
  run [] s = s
  run (e ∷ es) s = run es (step e s)

  -- A list reply that is accepted brings each conversation once.
  abbrev pub Admissible : Event → Type 0
  Admissible (lists now resp) =
      (root : ApiEnvelope (Option (List ConversationPayload))) (k : String)
      → api.read_list resp.body ≡ parsed root
      → count_if (has_id k) (listed api now (value_or root.payload [])) ≤ 1
  Admissible _ = Unit

  list-accepted :
      (now : ℤ) (resp : HttpResponse) (k : String)
      → Admissible (lists now resp)
      → (r : Bool × ApiEnvelope (Option (List ConversationPayload)))
      → (parse_api_envelope_response none api.read_list api.http_message strict
          "get conversations failed" resp)
        ≡ r
      → r.0 ≡ true
      → count_if (has_id k) (listed api now (value_or r.1.payload [])) ≤ 1
  list-accepted now resp k distinct (true, root) e h = distinct root k (
      ground (
        arith,
        e,
        passes_iff none api.read_list api.http_message strict "get conversations failed" resp,
      ))
  list-accepted now resp k distinct (false, root) e h = cc

  apply_payload-IsMirrored :
      (now : ℤ) (type : String) (p : NotificationConversationPayload) (s : Manager)
      → IsMirrored s
      → IsMirrored (apply_payload api now type p s)
  unfolding apply_payload
  apply_payload-IsMirrored now type p s m =
      let k = notification_conversation_id p in
      let existing = ConversationCache.get k s.cache in
      elim (Bool-cases (is_empty k)) [
        | inl e ↦ rw (e, apply_payload) m
        | inr e ↦ elim (Bool-cases (same_text type "conversation.deleted")) [
          | inl d ↦
              rw (e, apply_payload, d)
                (tell-IsMirrored (cached_or_new k existing) (erase k s) (erase-IsMirrored k s m))
          | inr d ↦
              rw (e, apply_payload, d)
                (let c = patched now type p k existing in
                  tell-IsMirrored c (store c s) (store-IsMirrored c s m))
        ]
      ]

  notification-IsMirrored :
      (now : ℤ) (event : NotificationEvent) (s : Manager)
      → IsMirrored s
      → IsMirrored (on_notification api now event s)
  unfolding on_notification handle_conversation_notification
  notification-IsMirrored now event s m =
      elim (Bool-cases (is_conversation_notification event.notification_type)) [
        | inr e ↦ rw (e, on_notification) m
        | inl e ↦ elim (Bool-cases (is_empty event.payload)) [
          | inl d ↦ rw (e, on_notification, d) m
          | inr d ↦ elim (Option-cases (api.read_notification event.payload)) [
            | inl r ↦ rw (e, on_notification, d, r) m
            | inr (p, r) ↦
                rw (e, on_notification, d, r)
                  (apply_payload-IsMirrored now event.notification_type p s m)
          ]
        ]
      ]

  step-IsMirrored : (e : Event) (s : Manager) → Admissible e → IsMirrored s → IsMirrored (step e s)
  unfolding step on_list_reply on_get_reply on_delete_reply on_read_all_reply on_marked_reply
      on_pinned_reply on_muted_reply on_burn_reply on_auto_delete_reply on_change_reply
      on_total_reply on_unread_reply on_receipts_reply on_sequence_reply set_listener
  step-IsMirrored (lists now resp) s a m =
      with_reply_keeps IsMirrored _ s _ m
        (λ h. list-IsMirrored _ s (λ k. list-accepted now resp k a _ refl h))
  step-IsMirrored (gets now k resp) s a m =
      with_reply_keeps IsMirrored _ s _ m (λ h. store-IsMirrored _ s m)
  step-IsMirrored (deletes k resp) s a m =
      with_reply_keeps IsMirrored _ s _ m (λ h. erase-IsMirrored k s m)
  step-IsMirrored (reads_all k resp) s a m =
      with_reply_keeps IsMirrored _ s _ m (λ h. read_all-IsMirrored k s m)
  step-IsMirrored (marks resp) s a m = with_reply_keeps IsMirrored _ s _ m (λ h. m)
  step-IsMirrored (pins now k pinned resp) s a m =
      with_reply_keeps IsMirrored _ s _ m (λ h. edit-IsMirrored k _ s m)
  step-IsMirrored (mutes now k muted resp) s a m =
      with_reply_keeps IsMirrored _ s _ m (λ h. edit-IsMirrored k _ s m)
  step-IsMirrored (burns now k duration resp) s a m =
      with_reply_keeps IsMirrored _ s _ m (λ h. edit-IsMirrored k _ s m)
  step-IsMirrored (auto_deletes now k duration resp) s a m =
      with_reply_keeps IsMirrored _ s _ m (λ h. edit-IsMirrored k _ s m)
  step-IsMirrored (totals resp) s a m = with_reply_keeps IsMirrored _ s _ m (λ h. m)
  step-IsMirrored (unreads k resp) s a m =
      with_reply_keeps IsMirrored _ s _ m (λ h. edit-IsMirrored k _ s m)
  step-IsMirrored (receipts resp) s a m = with_reply_keeps IsMirrored _ s _ m (λ h. m)
  step-IsMirrored (sequences k resp) s a m =
      with_reply_keeps IsMirrored _ s _ m (λ h. advance_seq-IsMirrored k _ s m)
  step-IsMirrored (notifies now event) s a m = notification-IsMirrored now event s m
  step-IsMirrored (listens present) s a m = record { valid = m.valid; mirrored = m.mirrored }

  -- Whatever replies and notifications arrive in whatever order, if no accepted list reply brings a
  -- conversation twice, a manager whose cached conversations are column by column the rows of the
  -- table, and whose cache is valid, stays so.
  pub run-IsMirrored :
      (es : List Event) (s : Manager) → All Admissible es → IsMirrored s → IsMirrored (run es s)
  unfolding run
  run-IsMirrored [] s a m = m
  run-IsMirrored (e ∷ es) s a m = run-IsMirrored es (step e s) a.1 (step-IsMirrored e s a.0 m)
