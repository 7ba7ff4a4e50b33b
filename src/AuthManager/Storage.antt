-- ===== src/AuthManager/Storage.antt =====
-- The token in memory, in the HTTP client and in the table.
use anychat_sdk.Prelude.{
  ℕ, String, false, ◌≡◌, refl, inl, inr, arith, List, [], Option, none, some, text_dec,
  if◌then◌else◌, Bool-cases, same_text, text_ne,
}
use anychat_sdk.Prelude.Dict.{lookup-assign}
use anychat_sdk.Json.Digits.{codes, to_string, strtoll}
use anychat_sdk.Json.RoundTrip.{IsInt64, strtoll-to_string}
use anychat_sdk.Sync.Tables.{Tables, get_meta, set_meta}
use anychat_sdk.AuthManager.{
  Manager, no_text, create, read_stored_token, write_stored_token, clear_token, on_db,
  clear_auth_token, tell_expired, access_key, refresh_key, expires_key,
}
use anychat_sdk.AuthManager.Payloads.{AuthToken, no_token}

get_meta-set_meta :
    (k j : String) (value d : List ℕ) (t : Tables)
    → get_meta j d (set_meta k value t) ≡ (if same_text k j then value else get_meta j d t)
unfolding get_meta set_meta
get_meta-set_meta k j value d t = ground (arith, lookup-assign text_dec k j value t.metadata)

-- What the statements of `storeToken` and `clearToken` leave for the constructor to read.
read_stored-write_stored :
    (token : AuthToken) (expires : List ℕ) (t : Tables)
    → read_stored_token (write_stored_token token expires t) ≡ (
        if no_text token.access_token
        then no_token
        else record token { expires_at_ms = (strtoll expires).0 })
unfolding read_stored_token write_stored_token
read_stored-write_stored token expires t =
    let t1 = set_meta access_key token.access_token t in
    let t2 = set_meta refresh_key token.refresh_token t1 in
    ground (
      arith,
      text_ne expires_key access_key refl,
      text_ne refresh_key access_key refl,
      text_ne expires_key refresh_key refl,
      get_meta-set_meta expires_key access_key expires [] t2,
      get_meta-set_meta refresh_key access_key token.refresh_token [] t1,
      get_meta-set_meta access_key access_key token.access_token [] t,
      get_meta-set_meta expires_key refresh_key expires [] t2,
      get_meta-set_meta refresh_key refresh_key token.refresh_token [] t1,
      get_meta-set_meta expires_key expires_key expires (codes "0") t2,
    )

-- The constructor would find the token in the table.
abbrev pub IsStored : Option Tables → AuthToken → Type 0
IsStored none token = Unit {0}
IsStored (some t) token = read_stored_token t ≡ token

-- The HTTP client sends the access token, and the table holds the token.
abbrev pub IsKept : Manager → Type 0
IsKept s = (s.http_token ≡ s.token.access_token) × IsStored s.db s.token

pub create-IsKept : (db : Option Tables) (id : String) → IsKept (create db id)
unfolding create
create-IsKept none id = (refl, tt)
create-IsKept (some t) id = (refl, refl)

pub tell_expired-IsKept : (s : Manager) → IsKept s → IsKept (tell_expired s)
unfolding tell_expired
tell_expired-IsKept s k = elim (Bool-cases s.has_listener) [
  | inl e ↦ rw (e, tell_expired) k
  | inr e ↦ rw (e, tell_expired) k
]

pub saved-IsStored :
    (token : AuthToken) (db : Option Tables)
    → no_text token.access_token ≡ false
    → IsInt64 token.expires_at_ms
    → IsStored (on_db (write_stored_token token (to_string token.expires_at_ms)) db) token
saved-IsStored token none n h = tt
saved-IsStored token (some t) n h = ground (
  arith,
  n,
  read_stored-write_stored token (to_string token.expires_at_ms) t,
  strtoll-to_string token.expires_at_ms h,
)

cleared-IsStored :
    (db : Option Tables) → IsStored (on_db (write_stored_token no_token (codes "0")) db) no_token
cleared-IsStored none = tt
cleared-IsStored (some t) = read_stored-write_stored no_token (codes "0") t

pub clear-IsKept : (s : Manager) → IsKept (clear_auth_token (clear_token s))
unfolding clear_token clear_auth_token
clear-IsKept s = (refl, cleared-IsStored s.db)
