-- ===== src/MessageManager/Recall.antt =====
-- What a reply to a recall, a deletion or an edit leaves behind.
use anychat_sdk.Prelude.{
  ℕ, String, Bool, true, false, ℤ, pos, negsuc, ◌∷◌, Option, ◌≡◌, ◌≢◌, ◌⊎◌, refl, inl, inr, arith,
  none, some, same_text, if◌then◌else◌, Bool-cases,
}
use anychat_sdk.Http.{
  succeeded, failed, answers, Next, strict, lacks_route, Written, unwritable, text,
}
use anychat_sdk.Json.Envelope.{HttpResponse, ApiEnvelope, parse_api_envelope_response}
use anychat_sdk.MessageManager.{
  Manager, Api, Frame, recall_frame, update_cached, update_db, find_message, send_frame,
}
use anychat_sdk.MessageManager.Lookup.{mapped, find_message-update, find_row-update_message_db}
use anychat_sdk.MessageManager.Payloads.{EditMessageData, empty}
use anychat_sdk.MessageManager.Replies.{
  on_recall_reply, on_edit_reply, set_status, change_replied, with_status, apply_edit, take_edit,
  edited_by, payload_in,
}
use anychat_sdk.Outbound.{sent}
use anychat_sdk.MessageManager.Rows.{Row, find_row}
use anychat_sdk.MessageManager.Rows as Rows

module _ (api : Api) where
  send_frame-keeps :
      (frame : Frame) (s : Manager)
      → let t = (send_frame api frame s).0 in (t.cache ≡ s.cache) × (t.rows ≡ s.rows)
  unfolding send_frame
  send_frame-keeps frame s = ground arith

  set_status-cached :
      (i : String) (status : ℤ) (s : Manager)
      → find_message i (set_status i status s).cache.buckets
        ≡ mapped (with_status status) (find_message i s.cache.buckets)
  unfolding set_status update_db update_cached
  set_status-cached i status s = find_message-update i (with_status status) (λ m. refl) s.cache

  set_status-rows :
      (i j : String) (status : ℤ) (s : Manager)
      → i ≢ ""
      → find_row j (set_status i status s).rows ≡ (
          if same_text i j
          then mapped (Rows.with_status status none) (find_row j s.rows)
          else find_row j s.rows)
  unfolding set_status update_db update_cached
  set_status-rows i j status s n = find_row-update_message_db i j status none s.rows n

  -- What becomes of a frame, from its text and the send function of the queue.
  abbrev pub Transmitted : Written → Option ℕ → Manager → Manager → Next (Unit {0}) → Type 0
  Transmitted (unwritable err) f s t next = (t ≡ s) × (next ≡ answers (failed (negsuc 0) err))
  Transmitted (text json) none s t next =
      (t ≡ s) × (next ≡ answers (failed (negsuc 0) "websocket not connected"))
  Transmitted (text json) (some f) s t next =
      (t ≡ record s { outbound = record (s.outbound) { log = sent f json ∷ s.outbound.log } })
      × (next ≡ answers (succeeded tt))

  send_frame_lem :
      (frame : Frame) (w : Written) (f : Option ℕ) (s : Manager)
      → api.write_frame frame ≡ w
      → s.outbound.send_fn ≡ f
      → let (t, next) = send_frame api frame s in Transmitted w f s t next
  unfolding send_frame
  send_frame_lem frame (unwritable err) f s w o = rw (w, send_frame) (refl, refl)
  send_frame_lem frame (text json) none s w o = ground (arith, w, o)
  send_frame_lem frame (text json) (some f) s w o = ground (arith, w, o)

  -- What a refused change ends with.
  abbrev pub Refused : Frame → HttpResponse → Manager → Manager → Next (Unit {0}) → Type 0
  Refused frame resp s t next =
      (t.cache ≡ s.cache)
      × (t.rows ≡ s.rows)
      × (if lacks_route resp.status_code
          then Transmitted (api.write_frame frame) s.outbound.send_fn s t next
          else (code : ℤ) × (message : String) × (code ≢ pos 0)
            × (t ≡ s)
            × (next ≡ answers (failed code message)))

  -- What an accepted change of the status ends with.
  abbrev pub Accepted : String → ℤ → Manager → Manager → Next (Unit {0}) → Type 0
  Accepted i status s t next =
      (next ≡ answers (succeeded tt))
      × (find_message i t.cache.buckets
          ≡ mapped (with_status status) (find_message i s.cache.buckets))
      × ((j : String)
          → find_row j t.rows ≡ (
              if same_text i j
              then mapped (Rows.with_status status none) (find_row j s.rows)
              else find_row j s.rows))

  change_replied_lem :
      {A : Type 0} (frame : Frame) (resp : HttpResponse) (accept : A → Manager → Manager)
      (root : ApiEnvelope A) (s : Manager)
      → let (t, next) = change_replied api frame resp accept (false, root) s in
        Refused frame resp s t next
  unfolding change_replied
  change_replied_lem frame resp accept root s = elim (Bool-cases (lacks_route resp.status_code)) [
    | inl e ↦
        rw (e, change_replied)
          (let (c, r) = send_frame-keeps frame s in (c, r, send_frame_lem frame _ _ s refl refl))
    | inr e ↦ rw (e, change_replied) (refl, refl, (_, _, ground arith, refl, refl))
  ]

  status_outcome :
      (frame : Frame) (i : String) (status : ℤ) (resp : HttpResponse) (s : Manager)
      → i ≢ ""
      → (r : Bool × ApiEnvelope (Unit {0}))
      → let (t, next) = change_replied api frame resp (λ _. set_status i status) r s in
        ((r.0 ≡ true) × Accepted i status s t next) ⊎ ((r.0 ≡ false) × Refused frame resp s t next)
  unfolding change_replied
  status_outcome frame i status resp s n (true, root) =
      inl (refl, (refl, set_status-cached i status s, λ j. set_status-rows i j status s n))
  status_outcome frame i status resp s n (false, root) =
      inr (refl, change_replied_lem frame resp (λ _. set_status i status) root s)

  -- A recall that the server accepts puts status 1 into the cached message and into its row, and
  -- into no other row; one that it refuses changes neither the cache nor the table. If the server
  -- lacks the route, the text of the recall's frame is given once to the send function instead and
  -- the recall succeeds, or nothing is sent and it fails with code -1, if there is no send function
  -- or no text; and otherwise it fails with a code other than 0 and nothing is sent.
  pub recall_outcome :
      (i : String) (resp : HttpResponse) (s : Manager)
      → i ≢ ""
      → let (t, next) = on_recall_reply api i resp s in
        let ok =
          (parse_api_envelope_response tt api.read_none api.http_message strict
            "recall message failed" resp).0 in
        ((ok ≡ true) × Accepted i (pos 1) s t next)
        ⊎ ((ok ≡ false) × Refused (recall_frame i) resp s t next)
  unfolding on_recall_reply
  recall_outcome i resp s n = status_outcome (recall_frame i) i (pos 1) resp s n _

  -- The reply to an edit, where it is accepted and brings no message: the content is that of the
  -- call in the cache and in the row, and the cached message keeps its status, while the row's
  -- status becomes 0 whatever it was.
  pub edit_status_differs :
      (i content : String) (resp : HttpResponse) (s : Manager) (root : ApiEnvelope EditMessageData)
      → i ≢ ""
      → parse_api_envelope_response empty api.read_edit api.http_message strict
          "edit message failed" resp
        ≡ (true, root)
      → payload_in root.payload ≡ none
      → let t = (on_edit_reply api i content resp s).0 in
        (find_message i t.cache.buckets
          ≡ mapped (λ m. record m { content = content }) (find_message i s.cache.buckets))
        × (find_row i t.rows
            ≡ mapped (λ r. record r { status = pos 0; content = content }) (find_row i s.rows))
  unfolding on_edit_reply change_replied apply_edit update_cached update_db edited_by
  edit_status_differs i content resp s root n e d =
      let edited = edited_by api i content none in
      ground (
        arith,
        e,
        d,
        find_message-update i (take_edit edited) (λ m. refl) s.cache,
        find_row-update_message_db i i (pos 0) (some content) s.rows n,
      )
