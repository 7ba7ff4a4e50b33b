-- ===== src/AuthManager.antt =====
-- core/src/auth_manager.cpp: the token, which the HTTP client sends along and the table `metadata`
-- keeps for the next start. The JSON readers and writers are parameters.
pub mod Payloads
pub mod Requests
pub mod Replies
pub mod Notifications
pub mod Storage
pub mod Restart
pub mod Session
use anychat_sdk.Prelude.{
  ℕ, suc, String, Bool, true, false, ◌&&◌, ℤ, pos, ◌+ℤ◌, ltb_ℤ, List, [], ◌∷◌, Option, none, some,
  if◌then◌else◌, not,
}
use anychat_sdk.Http.{Written}
use anychat_sdk.Json.Digits.{codes, strtoll, to_string}
use anychat_sdk.Json.Envelope.{Read}
use anychat_sdk.Sync.Tables.{Tables, get_meta, set_meta}
use anychat_sdk.AuthManager.Payloads.{
  AuthToken, no_token, AuthTokenPayload, VerificationCodeResult, AuthDevicePayload, Body,
}

-- `kTokenRefreshLeewayMs`
abbrev pub token_refresh_leeway_ms : ℤ
token_refresh_leeway_ms = pos 300000

-- `http_token` is the token of the HTTP client, which sends an Authorization header unless it is
-- empty; `db` is none for a null pointer; `expired` counts the calls of `onAuthExpired`.
pub record Manager : Type 0 where
  pub token : AuthToken
  pub http_token : List ℕ
  pub db : Option Tables
  pub device_id : String
  pub has_listener : Bool
  pub expired : ℕ

-- glaze, and what else the manager calls and does not implement.
pub record Api : Type 0 where
  pub read_none : String → Read (Unit {0})
  pub read_token : String → Read AuthTokenPayload
  pub read_code : String → Read VerificationCodeResult
  pub read_devices : String → Read (Option (List AuthDevicePayload))
  pub read_force_logout : String → Option String
  pub write : Body → Written
  pub calendar_ms : String → ℤ
  pub http_message : ℤ → String

abbrev pub no_text : List ℕ → Bool
no_text [] = true
no_text (c ∷ s) = false

abbrev pub access_key : String
access_key = "auth.access_token"

abbrev pub refresh_key : String
refresh_key = "auth.refresh_token"

abbrev pub expires_key : String
expires_key = "auth.expires_at_ms"

-- The token that the constructor finds in the table, if the access token is not empty.
unfoldable pub read_stored_token : Tables → AuthToken
unfolding strtoll
read_stored_token t =
    let at = get_meta access_key [] t in
    if no_text at then no_token else record {
      access_token = at;
      refresh_token = get_meta refresh_key [] t;
      expires_at_ms = (strtoll (get_meta expires_key (codes "0") t)).0;
    }

-- The constructor, with an HTTP client that has no token yet.
unfoldable pub create : Option Tables → String → Manager
unfolding read_stored_token
create db device_id =
    let token : AuthToken = elim db [ none ↦ no_token | some t ↦ read_stored_token t ] in
    record {
      token = token;
      http_token = token.access_token;
      db = db;
      device_id = device_id;
      has_listener = false;
      expired = 0;
    }

unfoldable pub write_stored_token : AuthToken → List ℕ → Tables → Tables
unfolding set_meta
write_stored_token token expires t =
    set_meta expires_key expires
      (set_meta refresh_key token.refresh_token (set_meta access_key token.access_token t))

abbrev pub on_db : (Tables → Tables) → Option Tables → Option Tables
on_db f none = none
on_db f (some t) = some (f t)

unfoldable pub store_token : AuthToken → Manager → Manager
unfolding write_stored_token to_string
store_token token s = record s {
  token = token;
  db = on_db (write_stored_token token (to_string token.expires_at_ms)) s.db;
}

unfoldable pub clear_token : Manager → Manager
unfolding write_stored_token
clear_token s = record s {
  token = no_token;
  db = on_db (write_stored_token no_token (codes "0")) s.db;
}

-- `http_->setAuthToken`
unfoldable pub set_auth_token : List ℕ → Manager → Manager
set_auth_token token s = record s { http_token = token }

-- `http_->clearAuthToken`
unfoldable pub clear_auth_token : Manager → Manager
clear_auth_token s = record s { http_token = [] }

unfoldable pub set_listener : Bool → Manager → Manager
set_listener present s = record s { has_listener = present }

-- `listener->onAuthExpired()`, if there is a listener.
unfoldable pub tell_expired : Manager → Manager
tell_expired s = if s.has_listener then record s { expired = suc s.expired } else s

-- `now` is what `nowMs` returns.
unfoldable pub is_logged_in : ℤ → Manager → Bool
is_logged_in now s = not (no_text s.token.access_token) && ltb_ℤ now s.token.expires_at_ms
