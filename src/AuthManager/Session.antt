-- ===== src/AuthManager/Session.antt =====
-- How a session starts, is renewed and ends.
use anychat_sdk.Prelude.{
  ℕ, zero, suc, ◌+◌, ◌*◌, String, Bool, true, false, not, ◌&&◌, ◌||◌, ℤ, pos, negsuc, ◌+ℤ◌, ltb_ℤ,
  to_int64, ◌≡◌, refl, inl, inr, arith, [], if◌then◌else◌, Bool-cases, is_empty, same_text,
}
use anychat_sdk.Types.{NotificationEvent}
use anychat_sdk.Http.{Next, with_reply, succeeded, failed, answers, asks, refuse}
use anychat_sdk.Json.Envelope.{HttpResponse, ApiEnvelope}
use anychat_sdk.Json.RoundTrip.{IsInt64, to_int64_of_IsInt64}
use anychat_sdk.AuthManager.{
  Manager, Api, no_text, store_token, clear_token, set_auth_token, clear_auth_token, tell_expired,
  is_logged_in,
}
use anychat_sdk.AuthManager.Notifications.{on_notification, target_of}
use anychat_sdk.AuthManager.Payloads.{AuthToken, no_token, AuthTokenPayload}
use anychat_sdk.AuthManager.Replies.{
  check, no_payload, expiry_of, token_of, accept_token, handle_auth_response,
}
use anychat_sdk.AuthManager.Requests.{ensure_valid_token, refresh_token, told_if_refused}

-- When a token that came at `now` and is valid for so many seconds expires.
abbrev pub valid_until : ℕ → ℤ → ℤ
valid_until now (pos zero) = pos 0
valid_until now (pos (suc n)) = pos (now + 1000 * suc n)
valid_until now (negsuc n) = pos 0

expiry_of_lem :
    (now : ℕ) (p : AuthTokenPayload) (z : ℤ)
    → p.expires_in ≡ z
    → expiry_of (pos now) p ≡ valid_until now z
expiry_of_lem now p (pos zero) e = ground (arith, e)
expiry_of_lem now p (pos (suc n)) e = ground (arith, e)
expiry_of_lem now p (negsuc n) e = ground (arith, e)

until_positive : (now : ℕ) (z : ℤ) → ltb_ℤ (pos now) (valid_until now z) ≡ ltb_ℤ (pos 0) z
until_positive now (pos zero) = ground arith
until_positive now (pos (suc n)) = ground arith
until_positive now (negsuc n) = ground arith

wrapped_expiry :
    (now : ℕ) (p : AuthTokenPayload)
    → IsInt64 (valid_until now p.expires_in)
    → to_int64 (expiry_of (pos now) p) ≡ valid_until now p.expires_in
wrapped_expiry now p i =
    rw (expiry_of_lem now p p.expires_in refl)
      (to_int64_of_IsInt64 (valid_until now p.expires_in) i)

token_of_lem :
    (now : ℕ) (p : AuthTokenPayload)
    → IsInt64 (valid_until now p.expires_in)
    → token_of (pos now) p ≡ record {
      access_token = p.access_token;
      refresh_token = p.refresh_token;
      expires_at_ms = valid_until now p.expires_in;
    }
token_of_lem now p i = rw (wrapped_expiry now p i) refl

module _ (api : Api) where
  -- A forced logout that names this device or none ends the session: there is no token in memory or
  -- in the HTTP client, nobody is logged in at any time, and the listener is told once. One that
  -- names another device, and any other notification, changes nothing.
  pub force_logout_outcome :
      (event : NotificationEvent) (s : Manager) (now : ℤ)
      → let t = on_notification api event s in
        let target = target_of api event in
        if same_text event.notification_type "auth.force_logout"
          && (is_empty target || same_text target s.device_id)
        then (t.token ≡ no_token)
          × (t.http_token ≡ [])
          × (is_logged_in now t ≡ false)
          × (t.expired ≡ (if s.has_listener then suc s.expired else s.expired))
        else t ≡ s
  unfolding on_notification clear_token clear_auth_token tell_expired is_logged_in
  force_logout_outcome event s now = ground arith

  told_if_refused-token :
      (n : Next (Unit {0})) (s : Manager) → (told_if_refused api n s).token ≡ s.token
  unfolding tell_expired
  told_if_refused-token (answers a) s = ground arith
  told_if_refused-token (asks r) s = refl

  -- `ensureValidToken` succeeds at once exactly if there is an access token that lasts for more than
  -- five minutes; else it fails and tells the listener if there is no refresh token, and otherwise
  -- asks for a new token, and only a request that cannot be written fails and tells the listener.
  ensure_outcome :
      (now : ℤ) (s : Manager)
      → let (t, next) = ensure_valid_token api now s in
        let fresh =
          not (no_text s.token.access_token) && ltb_ℤ (now +ℤ pos 300000) s.token.expires_at_ms in
        if fresh
        then (t ≡ s) × (next ≡ answers (succeeded tt)) × (is_logged_in now t ≡ true)
        else if no_text s.token.refresh_token
        then (t ≡ tell_expired s) × (next ≡ refuse "no refresh token")
        else (next ≡ refresh_token api s.token.refresh_token) × (t.token ≡ s.token)
  unfolding ensure_valid_token is_logged_in tell_expired
  ensure_outcome now s =
      let fresh =
        not (no_text s.token.access_token) && ltb_ℤ (now +ℤ pos 300000) s.token.expires_at_ms in
      elim (Bool-cases fresh) [
        | inl e ↦ rw (e, ensure_valid_token) (refl, refl, ground (arith, e))
        | inr e ↦ elim (Bool-cases (no_text s.token.refresh_token)) [
          | inl o ↦ rw (e, ensure_valid_token, o) (refl, refl)
          | inr o ↦
              rw (e, ensure_valid_token, o)
                (refl, told_if_refused-token (refresh_token api s.token.refresh_token) s)
        ]
      ]

  -- What a reply that passed, or one that did not, ends with.
  abbrev pub Authenticated :
      ℕ → Bool × ApiEnvelope AuthTokenPayload → Manager → Manager → Next AuthToken → Type 0
  Authenticated now r s t next =
      if r.0 && not (no_text r.1.payload.access_token)
      then (next ≡ answers (succeeded t.token))
        × (t.token ≡ record {
          access_token = r.1.payload.access_token;
          refresh_token = r.1.payload.refresh_token;
          expires_at_ms = valid_until now r.1.payload.expires_in;
        })
        × (t.http_token ≡ r.1.payload.access_token)
        × (is_logged_in (pos now) t ≡ ltb_ℤ (pos 0) r.1.payload.expires_in)
      else (t ≡ s) × ((code : ℤ) × (message : String) × (next ≡ answers (failed code message)))

  accept_token_lem :
      (now : ℕ) (r : Bool × ApiEnvelope AuthTokenPayload) (s : Manager)
      → IsInt64 (valid_until now r.1.payload.expires_in)
      → let (t, next) = with_reply r s (accept_token (pos now) s) in Authenticated now r s t next
  unfolding with_reply accept_token store_token set_auth_token is_logged_in
  accept_token_lem now (true, root) s i = elim (Bool-cases (no_text root.payload.access_token)) [
    | inl e ↦ rw (e, accept_token) (refl, (_, _, refl))
    | inr e ↦
        rw (e, accept_token, token_of_lem now root.payload i)
          (
            refl,
            refl,
            refl,
            ground (
              arith,
              e,
              wrapped_expiry now root.payload i,
              until_positive now root.payload.expires_in,
            ),
          )
  ]
  accept_token_lem now (false, root) s i = (refl, (_, _, refl))

  -- A reply to a login, a registration or a refresh that passes the tests and has an access token
  -- is answered with the token that the manager and the HTTP client then have: its texts, and the
  -- time of the reply plus 1000 times `expires_in`, or 0 where that is not positive. The user is
  -- logged in at that moment exactly if `expires_in` is positive. Any other reply is answered with
  -- an error and changes nothing. It holds where that time is in the range of `int64_t`.
  pub auth_reply_outcome :
      (now : ℕ) (resp : HttpResponse) (s : Manager)
      → IsInt64 (
          valid_until now
            (check api (no_payload api) api.read_token "auth failed" resp).1.payload.expires_in)
      → let (t, next) = handle_auth_response api (pos now) resp s in
        Authenticated now (check api (no_payload api) api.read_token "auth failed" resp) s t next
  unfolding handle_auth_response
  auth_reply_outcome now resp s i =
      accept_token_lem now (check api (no_payload api) api.read_token "auth failed" resp) s i
