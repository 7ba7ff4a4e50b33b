-- ===== src/AuthManager/Requests.antt =====
-- The methods of `AuthManagerImpl`, up to the answer or the request that each ends with.
use anychat_sdk.Prelude.{
  ℕ, String, Bool, true, false, ◌&&◌, not, ℤ, ◌+ℤ◌, ltb_ℤ, List, [], ◌∷◌, Option, none, some,
  is_empty, ◌==◌, if◌then◌else◌,
}
use anychat_sdk.Http.{post, succeeded, Next, answers, asks, refuse, with_body}
use anychat_sdk.Json.Digits.{codes}
use anychat_sdk.AuthManager.{Manager, Api, no_text, tell_expired, token_refresh_leeway_ms}
use anychat_sdk.AuthManager.Payloads.{
  AuthToken, VerificationCodeResult, AuthDevice, registers, sends_code, logs_in, changes_password,
  resets_password, logs_out, refreshes, Body,
}

-- `phone_or_email.find('@') != npos`
abbrev pub has_at : List ℕ → Bool
has_at [] = false
has_at (c ∷ s) = if c == b'@' then true else has_at s

abbrev pub unless_empty : String → Option String
unless_empty s = if is_empty s then none else some s

-- Behind the list of devices there is no body to write.
unfoldable pub get_device_list : Next (List AuthDevice)
get_device_list = asks (record { method = post; path = codes "/auth/device/list"; body = "{}" })

module _ (api : Api) where
  -- `writeJson` and `http_->post`.
  unfoldable pub post_body : {A : Type 0} → String → Body → Next A
  post_body path body =
      with_body (api.write body)
        (λ json. asks (record { method = post; path = codes path; body = json }))

  unfoldable pub register_user :
      String → String → String → ℤ → String → String → Manager → Next AuthToken
  register_user phone_or_email password verify_code device_type nickname client_version s =
      let is_email = has_at (codes phone_or_email) in
      post_body "/auth/register" (
        registers (record {
          password = password;
          verify_code = verify_code;
          device_id = s.device_id;
          device_type = device_type;
          client_version = client_version;
          email = (if is_email then some phone_or_email else none);
          phone_number = (if is_email then none else some phone_or_email);
          nickname = unless_empty nickname;
        }))

  unfoldable pub send_verification_code : String → ℤ → ℤ → Manager → Next VerificationCodeResult
  send_verification_code target target_type purpose s = post_body "/auth/send-code" (
      sends_code (record {
        target = target;
        target_type = target_type;
        purpose = purpose;
        device_id = s.device_id;
      }))

  unfoldable pub login : String → String → ℤ → String → Manager → Next AuthToken
  login account password device_type client_version s = post_body "/auth/login" (
      logs_in (record {
        account = account;
        password = password;
        device_id = s.device_id;
        device_type = device_type;
        client_version = client_version;
      }))

  unfoldable pub logout : Manager → Next (Unit {0})
  logout s = post_body "/auth/logout" (logs_out s.device_id)

  unfoldable pub logout_device : String → Next (Unit {0})
  logout_device device_id = post_body "/auth/device/logout" (logs_out device_id)

  unfoldable pub refresh_token : {A : Type 0} → List ℕ → Next A
  unfolding post_body
  refresh_token token = post_body "/auth/refresh" (refreshes token)

  unfoldable pub change_password : String → String → Manager → Next (Unit {0})
  change_password old_password new_password s = post_body "/auth/password/change" (
      changes_password (record {
        device_id = s.device_id;
        old_password = old_password;
        new_password = new_password;
      }))

  unfoldable pub reset_password : String → String → String → Next (Unit {0})
  reset_password account verify_code new_password = post_body "/auth/password/reset" (
      resets_password
        (record { account = account; verify_code = verify_code; new_password = new_password }))

  -- Where the body of the refresh cannot be written, `refreshToken` calls the `on_error` that
  -- `ensureValidToken` gives it, which tells the listener.
  abbrev pub told_if_refused : Next (Unit {0}) → Manager → Manager
  told_if_refused (answers a) s = tell_expired s
  told_if_refused (asks r) s = s

  unfoldable pub ensure_valid_token : ℤ → Manager → Manager × Next (Unit {0})
  unfolding refresh_token
  ensure_valid_token now s =
      if not (no_text s.token.access_token)
        && ltb_ℤ (now +ℤ token_refresh_leeway_ms) s.token.expires_at_ms
      then (s, answers (succeeded tt))
      else if no_text s.token.refresh_token
      then (tell_expired s, refuse "no refresh token")
      else (
        told_if_refused (refresh_token s.token.refresh_token) s,
        refresh_token s.token.refresh_token,
      )
