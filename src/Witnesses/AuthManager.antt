-- ===== src/Witnesses/AuthManager.antt =====
-- The theorems on core/src/auth_manager.cpp at concrete inputs.
use anychat_sdk.Prelude.{true, false, ◌≡◌, refl, arith, pos, [], ◌∷◌, none, some, text_ne}
use anychat_sdk.Prelude.Text.{text_dec}
use anychat_sdk.Types.{NotificationEvent}
use anychat_sdk.Http.{text, with_reply}
use anychat_sdk.Json.Digits.{to_string}
use anychat_sdk.Json.Envelope.{
  HttpResponse, parsed, parse_api_envelope_response, check_code, check_status, read_body,
}
use anychat_sdk.Sync.Tables.{Tables}
use anychat_sdk.AuthManager.{
  Manager, Api, create, set_listener, write_stored_token, is_logged_in, store_token, set_auth_token,
}
use anychat_sdk.Prelude.Int.{to_int64}
use anychat_sdk.Json.Digits.{digits_onto}
use anychat_sdk.Json.RoundTrip.{IsInt64}
use anychat_sdk.AuthManager.Notifications.{on_notification}
use anychat_sdk.AuthManager.Payloads.{AuthToken, AuthTokenPayload, no_token}
use anychat_sdk.AuthManager.Replies.{check, no_payload, handle_auth_response, accept_token}
use anychat_sdk.AuthManager.Restart.{
  run, step, authenticates, listens, InRange, restart_keeps_token,
}
use anychat_sdk.AuthManager.Session.{
  force_logout_outcome, auth_reply_outcome, Authenticated, valid_until,
}

abbrev granted : AuthTokenPayload
granted = record { access_token = b'a' ∷ []; refresh_token = b'r' ∷ []; expires_in = pos 3600 }

-- Any body is read as an envelope with code 0.
abbrev api : Api
api = record {
  read_none = λ s. parsed (record { code = pos 0; message = ""; payload = tt });
  read_token = λ s. parsed (record { code = pos 0; message = ""; payload = granted });
  read_code = λ s. parsed (record {
    code = pos 0;
    message = "";
    payload = record { code_id = "c"; expires_in = pos 60 };
  });
  read_devices = λ s. parsed (record { code = pos 0; message = ""; payload = none });
  read_force_logout = λ s. some s;
  write = λ b. text "{}";
  calendar_ms = λ s. pos 0;
  http_message = λ z. "HTTP error";
}

abbrev reply : HttpResponse
reply = record { status_code = pos 200; body = "{}"; error = "" }

abbrev tables : Tables
tables = record { friends = []; groups = []; conversations = []; messages = []; metadata = [] }

abbrev token : AuthToken
token = record { access_token = b'a' ∷ []; refresh_token = b'r' ∷ []; expires_at_ms = pos 3601000 }

abbrev written : Tables
written = write_stored_token token (to_string (pos 3601000)) tables

-- The reply passes.
passed :
    check api (no_payload api) api.read_token "auth failed" reply
    ≡ (true, record { code = pos 0; message = ""; payload = granted })
unfolding parse_api_envelope_response check_code check_status read_body
passed = ground (arith, text_ne "{}" "" refl)

reply-InRange : InRange api (pos 1000) reply
reply-InRange = rw passed (omega arith, omega arith)

reply_stored :
    (run api (listens true ∷ authenticates (pos 1000) reply ∷ []) (create (some tables) "phone")).db
    ≡ some written
unfolding run step handle_auth_response with_reply accept_token store_token set_auth_token
    set_listener create digits_onto to_int64
reply_stored = rw (passed, run, step, handle_auth_response) refl

restart_keeps_token_example :
    let s =
      run api (listens true ∷ authenticates (pos 1000) reply ∷ []) (create (some tables) "phone") in
    let s' = create (some written) "phone" in
    (s.http_token ≡ s.token.access_token) × (s'.token ≡ s.token) × (s'.http_token ≡ s.http_token)
restart_keeps_token_example =
    restart_keeps_token api (listens true ∷ authenticates (pos 1000) reply ∷ []) (some tables)
      "phone" written (tt, (reply-InRange, tt)) reply_stored

abbrev logged_in : Manager
logged_in = record {
  token = token;
  http_token = b'a' ∷ [];
  db = some written;
  device_id = "phone";
  has_listener = true;
  expired = 0;
}

abbrev forced : NotificationEvent
forced = record { notification_type = "auth.force_logout"; timestamp = pos 0; payload = "phone" }

force_logout_outcome_example :
    let t = on_notification api forced logged_in in
    (t.token ≡ no_token) × (t.http_token ≡ []) × (is_logged_in (pos 5) t ≡ false) × (t.expired ≡ 1)
unfolding text_dec
force_logout_outcome_example = force_logout_outcome api forced logged_in (pos 5)

reply_in_range : IsInt64 (
    valid_until 1000
      (check api (no_payload api) api.read_token "auth failed" reply).1.payload.expires_in)
reply_in_range = rw passed (omega arith, omega arith)

auth_reply_outcome_example :
    let (t, next) = handle_auth_response api (pos 1000) reply logged_in in
    Authenticated api 1000
      (check api (no_payload api) api.read_token "auth failed" reply)
      logged_in
      t
      next
auth_reply_outcome_example = auth_reply_outcome api 1000 reply logged_in reply_in_range
