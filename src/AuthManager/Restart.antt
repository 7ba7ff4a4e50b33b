-- ===== src/AuthManager/Restart.antt =====
-- The token over runs and over a restart.
use anychat_sdk.Prelude.{
  String, Bool, true, false, not, ◌&&◌, ℤ, ◌+ℤ◌, ltb_ℤ, ◌≡◌, refl, inl, inr, arith, List, [], ◌∷◌,
  Option, some, if◌then◌else◌, Bool-cases, All, is_empty, same_text,
}
use anychat_sdk.Types.{NotificationEvent}
use anychat_sdk.Http.{Next, with_reply_keeps, succeeded, failed, answers, asks}
use anychat_sdk.Json.Envelope.{HttpResponse}
use anychat_sdk.Json.RoundTrip.{IsInt64, to_int64_of_IsInt64}
use anychat_sdk.Sync.Tables.{Tables}
use anychat_sdk.AuthManager.{
  Manager, Api, no_text, create, read_stored_token, store_token, set_auth_token, set_listener,
  token_refresh_leeway_ms,
}
use anychat_sdk.AuthManager.Notifications.{on_notification, target_of}
use anychat_sdk.AuthManager.Payloads.{AuthToken}
use anychat_sdk.AuthManager.Replies.{
  check, no_payload, expiry_of, token_of, accept_token, handle_auth_response,
  handle_result_response, on_code_reply, on_logout_reply, parse_devices, tries_again,
  on_devices_reply, on_logout_device_reply, pass_refresh, on_ensured_reply,
}
use anychat_sdk.AuthManager.Requests.{ensure_valid_token, refresh_token, told_if_refused}
use anychat_sdk.AuthManager.Storage.{
  IsKept, create-IsKept, tell_expired-IsKept, saved-IsStored, clear-IsKept,
}

-- A reply, with the clock's reading where it is read, a notification, or a call that is not a
-- request alone.
pub data Event : Type 0 where
  authenticates ensures : ℤ → HttpResponse → Event
  results : String → HttpResponse → Event
  codes_sent logs_out lists_devices lists_again : HttpResponse → Event
  logs_out_device : String → HttpResponse → Event
  notifies : NotificationEvent → Event
  checks : ℤ → Event
  listens : Bool → Event

module _ (api : Api) where
  unfoldable pub step : Event → Manager → Manager
  step (authenticates now resp) s = (handle_auth_response api now resp s).0
  step (ensures now resp) s = (on_ensured_reply api now resp s).0
  step (results fallback resp) s = (handle_result_response api fallback resp s).0
  step (codes_sent resp) s = (on_code_reply api resp s).0
  step (logs_out resp) s = (on_logout_reply api resp s).0
  step (lists_devices resp) s = (on_devices_reply api resp s).0
  step (lists_again resp) s = (parse_devices api resp s).0
  step (logs_out_device body resp) s = (on_logout_device_reply api body resp s).0
  step (notifies event) s = on_notification api event s
  step (checks now) s = (ensure_valid_token api now s).0
  step (listens present) s = set_listener present s

  unfoldable pub run : List Event → Manager → Manager
  run [] s = s
  run (e ∷ es) s = run es (step e s)

  -- The expiry that is made of a reply is in the range of `int64_t`.
  abbrev pub InRange : ℤ → HttpResponse → Type 0
  InRange now resp =
      IsInt64
        (expiry_of now (check api (no_payload api) api.read_token "auth failed" resp).1.payload)

  abbrev pub Fits : Event → Type 0
  Fits (authenticates now resp) = InRange now resp
  Fits (ensures now resp) = InRange now resp
  Fits _ = Unit {0}

  auth-IsKept :
      (now : ℤ) (resp : HttpResponse) (s : Manager)
      → InRange now resp
      → IsKept s
      → IsKept (handle_auth_response api now resp s).0
  unfolding handle_auth_response accept_token store_token set_auth_token
  auth-IsKept now resp s h k =
      let r = check api (no_payload api) api.read_token "auth failed" resp in
      with_reply_keeps IsKept r s _ k (λ _. elim (Bool-cases (no_text r.1.payload.access_token)) [
        | inl e ↦ rw (e, accept_token) k
        | inr e ↦
            rw (e, accept_token)
              (
                refl,
                saved-IsStored (token_of now r.1.payload) s.db e
                    (rw (to_int64_of_IsInt64 (expiry_of now r.1.payload) h) h),
              )
      ])

  pass-IsKept : (r : Manager × Next AuthToken) → IsKept r.0 → IsKept (pass_refresh r).0
  unfolding pass_refresh
  pass-IsKept (s, answers (succeeded token)) k = k
  pass-IsKept (s, answers (failed code message)) k = tell_expired-IsKept s k
  pass-IsKept (s, asks r) k = k

  told-IsKept : (n : Next (Unit {0})) (s : Manager) → IsKept s → IsKept (told_if_refused api n s)
  told-IsKept (answers a) s k = tell_expired-IsKept s k
  told-IsKept (asks r) s k = k

  result-IsKept :
      (fallback : String) (resp : HttpResponse) (s : Manager)
      → IsKept s
      → IsKept (handle_result_response api fallback resp s).0
  unfolding handle_result_response
  result-IsKept fallback resp s k = with_reply_keeps IsKept _ s _ k (λ _. k)

  devices-IsKept :
      (resp : HttpResponse) (s : Manager) → IsKept s → IsKept (parse_devices api resp s).0
  unfolding parse_devices
  devices-IsKept resp s k = with_reply_keeps IsKept _ s _ k (λ _. k)

  notification-IsKept :
      (event : NotificationEvent) (s : Manager) → IsKept s → IsKept (on_notification api event s)
  unfolding on_notification
  notification-IsKept event s k =
      elim (Bool-cases (same_text event.notification_type "auth.force_logout")) [
        | inr e ↦ rw (e, on_notification) k
        | inl e ↦
            let target = target_of api event in
            elim (Bool-cases (not (is_empty target) && not (same_text target s.device_id))) [
              | inl o ↦ rw (e, on_notification, o) k
              | inr o ↦ rw (e, on_notification, o) (tell_expired-IsKept _ (clear-IsKept s))
            ]
      ]

  ensure-IsKept : (now : ℤ) (s : Manager) → IsKept s → IsKept (ensure_valid_token api now s).0
  unfolding ensure_valid_token
  ensure-IsKept now s k =
      let fresh =
        not (no_text s.token.access_token)
        && ltb_ℤ (now +ℤ token_refresh_leeway_ms) s.token.expires_at_ms in
      elim (Bool-cases fresh) [
        | inl e ↦ rw (e, ensure_valid_token) k
        | inr e ↦ elim (Bool-cases (no_text s.token.refresh_token)) [
          | inl o ↦ rw (e, ensure_valid_token, o) (tell_expired-IsKept s k)
          | inr o ↦
              rw (e, ensure_valid_token, o)
                (told-IsKept (refresh_token api s.token.refresh_token) s k)
        ]
      ]

  again-IsKept :
      {A : Type 0} (b : Bool) (n : Next A) (r : Manager × Next A) (s : Manager)
      → IsKept s
      → IsKept r.0
      → IsKept (if b then (s, n) else r).0
  again-IsKept true n r s k l = k
  again-IsKept false n r s k l = l

  step-IsKept : (e : Event) (s : Manager) → Fits e → IsKept s → IsKept (step e s)
  unfolding step on_ensured_reply on_code_reply on_logout_reply on_devices_reply
      on_logout_device_reply set_listener
  step-IsKept (authenticates now resp) s h k = auth-IsKept now resp s h k
  step-IsKept (ensures now resp) s h k = pass-IsKept _ (auth-IsKept now resp s h k)
  step-IsKept (results fallback resp) s h k = result-IsKept fallback resp s k
  step-IsKept (codes_sent resp) s h k = with_reply_keeps IsKept _ s _ k (λ _. k)
  step-IsKept (logs_out resp) s h k = with_reply_keeps IsKept _ s _ k (λ _. clear-IsKept s)
  step-IsKept (lists_devices resp) s h k =
      again-IsKept (tries_again api resp) _ _ s k (devices-IsKept resp s k)
  step-IsKept (lists_again resp) s h k = devices-IsKept resp s k
  step-IsKept (logs_out_device body resp) s h k =
      again-IsKept (tries_again api resp) _ _ s k (result-IsKept "logout device failed" resp s k)
  step-IsKept (notifies event) s h k = notification-IsKept event s k
  step-IsKept (checks now) s h k = ensure-IsKept now s k
  step-IsKept (listens present) s h k = k

  run-IsKept : (es : List Event) (s : Manager) → All Fits es → IsKept s → IsKept (run es s)
  unfolding run
  run-IsKept [] s h k = k
  run-IsKept (e ∷ es) s h k = run-IsKept es (step e s) h.1 (step-IsKept e s h.0 k)

  -- After any run from a start, with or without a database, the HTTP client sends the access token
  -- that the manager has, and a start over the database as the run leaves it has the same token in
  -- both places, if every expiry that a reply brings is an `int64_t`.
  pub restart_keeps_token :
      (es : List Event) (db : Option Tables) (id : String) (t : Tables)
      → All Fits es
      → let s = run es (create db id) in
        s.db ≡ some t
        → let s' = create (some t) id in
          (s.http_token ≡ s.token.access_token)
          × (s'.token ≡ s.token)
          × (s'.http_token ≡ s.http_token)
  unfolding create
  restart_keeps_token es db id t h e =
      let (sent, kept) = run-IsKept es (create db id) h (create-IsKept db id) in
      let same : read_stored_token t ≡ (run es (create db id)).token = rw e at kept in
      (sent, same, ground (arith, sent, same))
