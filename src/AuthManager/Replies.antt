-- ===== src/AuthManager/Replies.antt =====
-- The replies to the requests of `AuthManagerImpl`.
use anychat_sdk.Prelude.{
  String, Bool, ◌&&◌, ℤ, pos, ◌+ℤ◌, ltb_ℤ, to_int64, List, [], none, is_empty, if◌then◌else◌,
}
use anychat_sdk.Http.{
  get, post, succeeded, failed, Next, answers, asks, refuse, with_reply, lenient, lacks_route,
}
use anychat_sdk.ConversationManager.Payloads.{value_or}
use anychat_sdk.Json.Digits.{codes}
use anychat_sdk.Json.Envelope.{HttpResponse, ApiEnvelope, Read, parse_api_envelope_response}
use anychat_sdk.Json.Timestamps.{scale}
use anychat_sdk.AuthManager.{
  Manager, Api, no_text, store_token, clear_token, set_auth_token, clear_auth_token, tell_expired,
}
use anychat_sdk.AuthManager.Payloads.{
  AuthToken, AuthTokenPayload, VerificationCodeResult, AuthDevice, devices_of,
}

-- When the token of a reply that came at `now` expires, before the sum is an `int64_t`.
abbrev pub expiry_of : ℤ → AuthTokenPayload → ℤ
expiry_of now p = if ltb_ℤ (pos 0) p.expires_in then now +ℤ scale 1000 p.expires_in else pos 0

-- The token of a reply that came at `now`. A sum that is too large is undefined in C++; here it
-- wraps around.
abbrev pub token_of : ℤ → AuthTokenPayload → AuthToken
token_of now p = record {
  access_token = p.access_token;
  refresh_token = p.refresh_token;
  expires_at_ms = to_int64 (expiry_of now p);
}

-- What `ensureValidToken` makes of the end of its refresh.
unfoldable pub pass_refresh : Manager × Next AuthToken → Manager × Next (Unit {0})
pass_refresh (s, answers (succeeded token)) = (s, answers (succeeded tt))
pass_refresh (s, answers (failed code message)) = (tell_expired s, answers (failed code message))
pass_refresh (s, asks r) = (s, asks r)

-- What `handleAuthResponse` does with a token that it has read.
unfoldable pub accept_token : ℤ → Manager → AuthTokenPayload → Manager × Next AuthToken
unfolding store_token set_auth_token
accept_token now s p =
    let token = token_of now p in
    if no_text token.access_token
    then (s, refuse "auth failed: access_token is empty")
    else (set_auth_token token.access_token (store_token token s), answers (succeeded token))

module _ (api : Api) where
  open api use {read_none, read_token, read_code, read_devices, calendar_ms, http_message}

  abbrev pub check :
      {A : Type 0} → A → (String → Read A) → String → HttpResponse → Bool × ApiEnvelope A
  check no_data read fallback resp =
      parse_api_envelope_response no_data read http_message lenient fallback resp

  abbrev pub no_payload : AuthTokenPayload
  no_payload = record { access_token = []; refresh_token = []; expires_in = pos 0 }

  unfoldable pub handle_auth_response : ℤ → HttpResponse → Manager → Manager × Next AuthToken
  unfolding accept_token
  handle_auth_response now resp s =
      with_reply (check no_payload read_token "auth failed" resp) s (accept_token now s)

  unfoldable pub handle_result_response :
      String → HttpResponse → Manager → Manager × Next (Unit {0})
  handle_result_response fallback resp s =
      with_reply (check tt read_none fallback resp) s (λ _. (s, answers (succeeded tt)))

  unfoldable pub on_code_reply : HttpResponse → Manager → Manager × Next VerificationCodeResult
  on_code_reply resp s =
      with_reply
        (check (record { code_id = ""; expires_in = pos 0 }) read_code "send code failed" resp) s
        (λ r. (s, answers (succeeded r)))

  unfoldable pub on_logout_reply : HttpResponse → Manager → Manager × Next (Unit {0})
  unfolding clear_token clear_auth_token
  on_logout_reply resp s =
      with_reply (check tt read_none "logout failed" resp) s
        (λ _. (clear_auth_token (clear_token s), answers (succeeded tt)))

  unfoldable pub parse_devices : HttpResponse → Manager → Manager × Next (List AuthDevice)
  unfolding devices_of
  parse_devices resp s =
      with_reply (check none read_devices "get device list failed" resp) s
        (λ l. (s, answers (succeeded (devices_of calendar_ms (value_or l [])))))

  -- The server lacks the route, and there was no transport error.
  abbrev pub tries_again : HttpResponse → Bool
  tries_again resp = is_empty resp.error && lacks_route resp.status_code

  unfoldable pub on_devices_reply : HttpResponse → Manager → Manager × Next (List AuthDevice)
  unfolding parse_devices
  on_devices_reply resp s =
      if tries_again resp
      then (s, asks (record { method = get; path = codes "/auth/devices"; body = "" }))
      else parse_devices resp s

  -- `body` is the text of the request that the reply is to.
  unfoldable pub on_logout_device_reply :
      String → HttpResponse → Manager → Manager × Next (Unit {0})
  unfolding handle_result_response
  on_logout_device_reply body resp s =
      if tries_again resp
      then (s, asks (record { method = post; path = codes "/auth/devices/logout"; body = body }))
      else handle_result_response "logout device failed" resp s

  unfoldable pub on_ensured_reply : ℤ → HttpResponse → Manager → Manager × Next (Unit {0})
  unfolding handle_auth_response pass_refresh
  on_ensured_reply now resp s = pass_refresh (handle_auth_response now resp s)
