-- ===== src/Witnesses/Json.antt =====
-- The theorems on core/src/json_common.h at concrete inputs.
use anychat_sdk.Prelude.{String, true, false, pos, ◌≡◌, ◌≢◌, ◌⊎◌, arith, some}
use anychat_sdk.Json.Digits.{to_string, stoll}
use anychat_sdk.Json.RoundTrip.{stoll-to_string}
use anychat_sdk.Json.Envelope.{
  HttpResponse, Read, parsed, Requires, Allowed, IsBad, parse_api_envelope_response, passes_iff,
}

stoll-to_string_example : stoll (to_string (pos 1700000000)) ≡ some (pos 1700000000)
stoll-to_string_example = stoll-to_string 1700000000 (omega arith)

abbrev reply : HttpResponse
reply = record { status_code = pos 200; body = "7"; error = "" }

-- The body is the text of the envelope's data.
abbrev read : String → Read String
read body = parsed (record { code = pos 0; message = ""; payload = body })

abbrev strict : Requires
strict = record { http_200 = true; http_2xx = true }

passes_iff_example :
    let (ok, root) = parse_api_envelope_response "" read (λ z. "HTTP") strict "failed" reply in
    ((ok ≡ true)
      × (reply.error ≡ "")
      × (reply.body ≢ "")
      × (read reply.body ≡ parsed root)
      × (root.code ≡ pos 0)
      × Allowed strict reply.status_code)
    ⊎ ((ok ≡ false)
        × (root.code ≢ pos 0)
        × ((reply.error ≢ "")
            ⊎ ((reply.body ≡ "")
                ⊎ (IsBad (read reply.body) ⊎ (¬ Allowed strict reply.status_code)))))
passes_iff_example = passes_iff "" read (λ z. "HTTP") strict "failed" reply
