-- ===== src/AuthManager/Payloads.antt =====
-- The structs of core/src/auth_manager.cpp. A token is the codes of its characters.
use anychat_sdk.Prelude.{ℕ, String, Bool, false, ℤ, pos, List, [], ◌∷◌, Option}
use anychat_sdk.Json.Timestamps.{TimestampValue, parse_timestamp_ms}
use anychat_sdk.Json.Values.{IntegerValue, BooleanValue, parse_int32_value, parse_bool_value}

pub record AuthToken : Type 0 where
  pub access_token : List ℕ
  pub refresh_token : List ℕ
  pub expires_at_ms : ℤ

-- A token that was not written to.
abbrev pub no_token : AuthToken
no_token = record { access_token = []; refresh_token = []; expires_at_ms = pos 0 }

pub record VerificationCodeResult : Type 0 where
  pub code_id : String
  pub expires_in : ℤ

pub record AuthDevice : Type 0 where
  pub device_id : String
  pub device_type : ℤ
  pub client_version : String
  pub last_login_ip : String
  pub last_login_at_ms : ℤ
  pub is_current : Bool

pub record RegisterUserRequest : Type 0 where
  pub password : String
  pub verify_code : String
  pub device_id : String
  pub device_type : ℤ
  pub client_version : String
  pub email : Option String
  pub phone_number : Option String
  pub nickname : Option String

pub record SendVerificationCodeRequest : Type 0 where
  pub target : String
  pub target_type : ℤ
  pub purpose : ℤ
  pub device_id : String

pub record LoginRequest : Type 0 where
  pub account : String
  pub password : String
  pub device_id : String
  pub device_type : ℤ
  pub client_version : String

pub record ChangePasswordRequest : Type 0 where
  pub device_id : String
  pub old_password : String
  pub new_password : String

pub record ResetPasswordRequest : Type 0 where
  pub account : String
  pub verify_code : String
  pub new_password : String

-- The structs that the manager writes. The last two have one field, `device_id` or
-- `refresh_token`.
pub data Body : Type 0 where
  registers : RegisterUserRequest → Body
  sends_code : SendVerificationCodeRequest → Body
  logs_in : LoginRequest → Body
  changes_password : ChangePasswordRequest → Body
  resets_password : ResetPasswordRequest → Body
  logs_out : String → Body
  refreshes : List ℕ → Body

pub record AuthTokenPayload : Type 0 where
  pub access_token : List ℕ
  pub refresh_token : List ℕ
  pub expires_in : ℤ

pub record AuthDevicePayload : Type 0 where
  pub device_id : String
  pub device_type : Option IntegerValue
  pub client_version : String
  pub last_login_ip : String
  pub last_login_at : Option TimestampValue
  pub is_current : Option BooleanValue

-- The devices that the callback is given; the list may be absent.
module _ (calendar_ms : String → ℤ) where
  unfoldable pub device_of : AuthDevicePayload → AuthDevice
  device_of p = record {
    device_id = p.device_id;
    device_type = parse_int32_value p.device_type (pos 0);
    client_version = p.client_version;
    last_login_ip = p.last_login_ip;
    last_login_at_ms = parse_timestamp_ms calendar_ms p.last_login_at;
    is_current = parse_bool_value p.is_current false;
  }

  unfoldable pub devices_of : List AuthDevicePayload → List AuthDevice
  unfolding device_of
  devices_of [] = []
  devices_of (p ∷ ps) = device_of p ∷ devices_of ps
