-- ===== src/Http.antt =====
-- What the managers hand to core/src/network/http_client.h and to their callers: requests, answers
-- and the early returns that every operation shares. A path is the codes of its characters.
use anychat_sdk.Prelude.{ℕ, String, Bool, true, false, ℤ, pos, negsuc, List, ◌||◌, ◌≡◌, refl}
use anychat_sdk.Json.Envelope.{ApiEnvelope, Requires, same_int}

-- `get`, `post`, `put`, `patch` and `del` of `HttpClient`.
pub data Method : Type 0 where
  get post put patch del : Method

pub record Request : Type 0 where
  pub method : Method
  pub path : List ℕ
  pub body : String

-- Which function of an `AnyChatValueCallback` or an `AnyChatCallback` is called.
pub data Answer {ℓ} (A : Type ℓ) : Type ℓ where
  succeeded : A → Answer A
  failed : ℤ → String → Answer A

-- What a method or a reply ends with: a call of the callback, or a request whose reply comes later.
pub data Next {ℓ} (A : Type ℓ) : Type ℓ where
  answers : Answer A → Next A
  asks : Request → Next A

-- `on_error(-1, message)`
abbrev pub refuse {ℓ} : {A : Type ℓ} → String → Next A
refuse message = answers (failed (negsuc 0) message)

-- `writeJson`, whose writer is a parameter: the text, or the error.
pub data Written : Type 0 where
  text : String → Written
  unwritable : String → Written

abbrev pub with_body {ℓ} : {A : Type ℓ} → Written → (String → Next A) → Next A
with_body (text json) send = send json
with_body (unwritable err) send = refuse err

-- `if (!parseApiEnvelopeResponse(...)) { on_error(root.code, root.message); return; }`
unfoldable pub with_reply {ℓ} :
    {S : Type 0} {A : Type 0} {B : Type ℓ}
    → Bool × ApiEnvelope A
    → S
    → (A → S × Next B)
    → S × Next B
with_reply (true, root) s accept = accept root.payload
with_reply (false, root) s accept = (s, answers (failed root.code root.message))

-- Refused or accepted, a reply keeps what its acceptance keeps.
pub with_reply_keeps {ℓ} :
    {S A : Type 0} {B : Type ℓ} (P : S → Type 0) (r : Bool × ApiEnvelope A) (s : S)
    (accept : A → S × Next B)
    → P s
    → (r.0 ≡ true → P (accept r.1.payload).0)
    → P (with_reply r s accept).0
unfolding with_reply
with_reply_keeps P (true, root) s accept h k = k refl
with_reply_keeps P (false, root) s accept h k = h

-- `parseApiEnvelopeResponse` is called with `require_http_200` by most managers.
abbrev pub strict : Requires
strict = record { http_200 = true; http_2xx = false }

abbrev pub lenient : Requires
lenient = record { http_200 = false; http_2xx = false }

-- `status_code == 404 || status_code == 405`: the server lacks the route.
abbrev pub lacks_route : ℤ → Bool
lacks_route status = same_int status (pos 404) || same_int status (pos 405)
