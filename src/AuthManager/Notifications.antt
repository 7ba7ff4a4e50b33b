-- ===== src/AuthManager/Notifications.antt =====
-- `handleAuthNotification`.
use anychat_sdk.Prelude.{String, not, ◌&&◌, Option, none, some, is_empty, same_text, if◌then◌else◌}
use anychat_sdk.Types.{NotificationEvent}
use anychat_sdk.AuthManager.{Manager, Api, clear_token, clear_auth_token, tell_expired}

-- The device that the payload names; an empty text where the payload cannot be read.
abbrev pub target_device : Option String → String
target_device none = ""
target_device (some id) = id

module _ (api : Api) where
  -- `parseJsonObject` of an empty text fails.
  abbrev pub target_of : NotificationEvent → String
  target_of event =
      if is_empty event.payload then "" else target_device (api.read_force_logout event.payload)

  unfoldable pub on_notification : NotificationEvent → Manager → Manager
  unfolding clear_token clear_auth_token tell_expired
  on_notification event s =
      if not (same_text event.notification_type "auth.force_logout")
      then s
      else (let target = target_of event in
          if not (is_empty target) && not (same_text target s.device_id)
          then s
          else tell_expired (clear_auth_token (clear_token s)))
