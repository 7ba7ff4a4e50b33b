-- ===== src/Json/Envelope.antt =====
-- `parseApiEnvelopeResponse` of core/src/json_common.h: the test that every HTTP reply goes
-- through. The reader of the body is a parameter, as is the text "HTTP n".
use anychat_sdk.Prelude.{
  String, Bool, true, false, not, ◌&&◌, ◌||◌, ℤ, pos, negsuc, ℤ-discrete, ltb_ℤ, ◌≡◌, ◌≢◌, ◌⊎◌,
  arith, Option, none, some, is_empty, if◌then◌else◌,
}

-- `network::HttpResponse`
pub record HttpResponse : Type 0 where
  pub status_code : ℤ
  pub body : String
  pub error : String

pub record ApiEnvelope (A : Type 0) : Type 0 where
  pub code : ℤ
  pub message : String
  pub payload : A  -- `data`

-- What `readJsonRelaxed` makes of a body.
pub data Read (A : Type 0) : Type 0 where
  parsed : ApiEnvelope A → Read A
  failed : String → Read A

abbrev pub same_int : ℤ → ℤ → Bool
same_int a b = elim (ℤ-discrete a b) [ yes _ ↦ true | no _ ↦ false ]

-- The two flags of the caller.
pub record Requires : Type 0 where
  pub http_200 : Bool
  pub http_2xx : Bool

abbrev pub status_refused : Requires → ℤ → Bool
status_refused r status =
    (r.http_200 && not (same_int status (pos 200)))
    || (r.http_2xx && (ltb_ℤ status (pos 200) || not (ltb_ℤ status (pos 300))))

-- The status is one that the caller allows.
abbrev pub Allowed : Requires → ℤ → Type 0
Allowed r status =
    (if r.http_200 then status ≡ pos 200 else Unit)
    × (if r.http_2xx
        then (ltb_ℤ (pos 199) status ≡ true) × (ltb_ℤ status (pos 300) ≡ true)
        else Unit)

-- No envelope was read, or one whose code is not 0.
abbrev pub IsBad : {A : Type 0} → Read A → Type 0
IsBad (parsed envelope) = envelope.code ≢ pos 0
IsBad (failed err) = Unit

module _ {A : Type 0} (no_data : A) (read : String → Read A) (http_message : ℤ → String) where
  abbrev failure : ℤ → String → ApiEnvelope A
  failure code message = record { code = code; message = message; payload = no_data }

  abbrev payload_of : Option (Read A) → A
  payload_of (some (parsed root)) = root.payload
  payload_of _ = no_data

  -- The body is read only if there is one.
  unfoldable pub read_body : String → Option (Read A)
  read_body body = if is_empty body then none else some (read body)

  -- The tests behind the one on the envelope's code.
  unfoldable pub check_status :
      Requires → String → HttpResponse → Option (Read A) → Bool × ApiEnvelope A
  check_status requires fallback_error resp body =
      if status_refused requires resp.status_code
      then (
        false,
        record {
          code = (if same_int resp.status_code (pos 0) then negsuc 0 else resp.status_code);
          message = http_message resp.status_code;
          payload = payload_of body;
        },
      )
      else elim body [
        | none ↦ (false, failure (negsuc 0) fallback_error)
        | some r ↦ elim r [
          | failed err ↦ (false, failure (negsuc 0) (if is_empty err then fallback_error else err))
          | parsed root ↦ (true, root)
        ]
      ]

  unfoldable pub check_code :
      Requires → String → HttpResponse → Option (Read A) → Bool × ApiEnvelope A
  unfolding check_status
  check_code requires fallback_error resp none = check_status requires fallback_error resp none
  check_code requires fallback_error resp (some (failed err)) =
      check_status requires fallback_error resp (some (failed err))
  check_code requires fallback_error resp (some (parsed root)) =
      if same_int root.code (pos 0)
      then check_status requires fallback_error resp (some (parsed root))
      else (
        false,
        record root { message = (if is_empty root.message then fallback_error else root.message) },
      )

  unfoldable pub parse_api_envelope_response :
      Requires → String → HttpResponse → Bool × ApiEnvelope A
  unfolding read_body check_code
  parse_api_envelope_response requires fallback_error resp =
      if is_empty resp.error
      then check_code requires fallback_error resp (read_body resp.body)
      else (false, failure (negsuc 0) resp.error)

  -- A reply passes exactly when there was no transport error, there is a body that was read as an
  -- envelope whose code is 0, and the status is one that the caller allows: 200 where the caller
  -- requires that, from 200 to 299 where it requires that, and any otherwise. The caller then has
  -- that envelope, and on a reply that does not pass one whose code is not 0.
  pub passes_iff :
      (requires : Requires) (fallback : String) (resp : HttpResponse)
      → let (ok, root) = parse_api_envelope_response requires fallback resp in
        ((ok ≡ true)
          × (resp.error ≡ "")
          × (resp.body ≢ "")
          × (read resp.body ≡ parsed root)
          × (root.code ≡ pos 0)
          × Allowed requires resp.status_code)
        ⊎ ((ok ≡ false)
            × (root.code ≢ pos 0)
            × ((resp.error ≢ "")
                ⊎ ((resp.body ≡ "")
                    ⊎ (IsBad (read resp.body) ⊎ (¬ Allowed requires resp.status_code)))))
  unfolding parse_api_envelope_response
  passes_iff requires fallback resp = ground arith
