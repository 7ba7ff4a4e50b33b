-- ===== src/MessageManager/Requests.antt =====
-- The methods of `MessageManagerImpl`, up to the answer or the request that each ends with.
use anychat_sdk.Prelude.{
  ℕ, suc, String, Bool, ◌||◌, ℤ, pos, ltb_ℤ, List, [], ◌∷◌, ◌++◌, none, some, is_empty,
  if◌then◌else◌,
}
use anychat_sdk.Types.{Message}
use anychat_sdk.Cache.MessageCache
use anychat_sdk.Http.{
  get, post, patch, del, Request, succeeded, Next, answers, asks, refuse, with_body,
}
use anychat_sdk.Json.Digits.{codes, to_string}
use anychat_sdk.Json.Envelope.{same_int}
use anychat_sdk.Outbound.{Callback, enqueue}
use anychat_sdk.MessageManager.{Manager, Api, typing_frame, send_frame}
use anychat_sdk.MessageManager.LocalIds.{local_id}
use anychat_sdk.MessageManager.Payloads.{GroupMessageReadState}
use anychat_sdk.MessageManager.UrlEncode.{url_encode}

abbrev pub parameter : String → List ℕ → List ℕ
parameter name value = codes name ++ value

abbrev pub if_positive : ℤ → List ℕ → List ℕ
if_positive z s = if ltb_ℤ (pos 0) z then s else []

unfoldable pub history_path : String → ℤ → ℤ → List ℕ
unfolding url_encode to_string
history_path conv_id before limit =
    parameter "/messages/history?conversation_id=" (url_encode (codes conv_id))
    ++ (parameter "&limit=" (to_string limit)
        ++ (if_positive before (
              parameter "&before=" (to_string before) ++ parameter "&start_seq=" (to_string before))
            ++ codes "&direction=backward"))

-- The route of older servers.
unfoldable pub history_fallback_path : String → ℤ → ℤ → List ℕ
unfolding to_string
history_fallback_path conv_id before limit =
    parameter "/conversations/" (codes conv_id)
    ++ (parameter "/messages?limit=" (to_string limit)
        ++ if_positive before (parameter "&before=" (to_string before)))

unfoldable pub get_history : String → ℤ → ℤ → Manager → Manager × Next (List Message)
unfolding history_path
get_history conv_id before limit s =
    let request : Next (List Message) =
      asks (record { method = get; path = history_path conv_id before limit; body = "" }) in
    if same_int before (pos 0)
    then elim (MessageCache.get s.cache conv_id) [
      | m ∷ ms ↦ (s, answers (succeeded (m ∷ ms)))
      | [] ↦ (s, request)
    ]
    else (s, request)

unfoldable pub get_offline_messages : ℤ → ℤ → Request
unfolding to_string
get_offline_messages last_seq limit = record {
  method = get;
  path =
      parameter "/messages/offline?last_seq=" (to_string last_seq)
      ++ parameter "&limit=" (to_string limit);
  body = "";
}

unfoldable pub get_group_message_read_state : String → String → Next GroupMessageReadState
get_group_message_read_state group_id message_id =
    if is_empty group_id || is_empty message_id
    then refuse "group_id and message_id must not be empty"
    else asks (record {
      method = get;
      path =
          parameter "/groups/" (codes group_id)
          ++ (parameter "/messages/" (codes message_id) ++ codes "/reads");
      body = "";
    })

unfoldable pub search_path : String → String → ℤ → ℤ → ℤ → List ℕ
unfolding url_encode to_string
search_path keyword conversation_id content_type limit offset =
    parameter "/messages/search?keyword=" (url_encode (codes keyword))
    ++ ((if is_empty conversation_id
          then []
          else parameter "&conversation_id=" (url_encode (codes conversation_id)))
        ++ ((if same_int content_type (pos 0)
              then []
              else parameter "&content_type=" (to_string content_type))
            ++ (if_positive limit (parameter "&limit=" (to_string limit))
                ++ if_positive offset (parameter "&offset=" (to_string offset)))))

unfoldable pub search_messages : {A : Type 0} → String → String → ℤ → ℤ → ℤ → Next A
unfolding search_path
search_messages keyword conversation_id content_type limit offset =
    if is_empty keyword
    then refuse "keyword must not be empty"
    else if ltb_ℤ content_type (pos 0) || ltb_ℤ (pos 7) content_type
    then refuse "content_type must be in [1,7]"
    else asks (record {
      method = get;
      path = search_path keyword conversation_id content_type limit offset;
      body = "";
    })

module _ (api : Api) where
  open api use {write_ack, write_recall, write_edit, codec}

  -- `now` is the clock reading of `enqueue`, in seconds.
  unfoldable pub send_text_message : ℤ → String → String → Callback → Manager → Manager
  unfolding local_id enqueue
  send_text_message now conv_id content callback s = record s {
    counter = suc s.counter;
    outbound =
        enqueue codec now conv_id "private" (pos 1) content (local_id s.counter) callback
          s.outbound;
  }

  unfoldable pub ack_messages : String → List String → Next (Unit {0})
  ack_messages conv_id message_ids =
      if is_empty conv_id
      then refuse "conv_id must not be empty"
      else with_body (write_ack conv_id message_ids)
          (λ json. asks (record { method = post; path = codes "/messages/ack"; body = json }))

  unfoldable pub mark_as_read : String → String → Next (Unit {0})
  unfolding ack_messages
  mark_as_read conv_id message_id =
      ack_messages conv_id (if is_empty message_id then [] else message_id ∷ [])

  unfoldable pub recall_message : String → Next (Unit {0})
  recall_message message_id =
      if is_empty message_id
      then refuse "message_id must not be empty"
      else with_body (write_recall message_id)
          (λ json. asks (record { method = post; path = codes "/messages/recall"; body = json }))

  unfoldable pub delete_message : String → Next (Unit {0})
  delete_message message_id =
      if is_empty message_id
      then refuse "message_id must not be empty"
      else asks
          (record { method = del; path = parameter "/messages/" (codes message_id); body = "" })

  unfoldable pub edit_message : String → String → Next (Unit {0})
  edit_message message_id content =
      if is_empty message_id
      then refuse "message_id must not be empty"
      else with_body (write_edit content) (λ json.
        asks (record {
          method = patch;
          path = parameter "/messages/" (codes message_id);
          body = json;
        }))

  unfoldable pub send_typing : String → Bool → ℤ → Manager → Manager × Next (Unit {0})
  unfolding send_frame
  send_typing conversation_id typing ttl_seconds s =
      if is_empty conversation_id
      then (s, refuse "conversation_id must not be empty")
      else send_frame api
          (typing_frame conversation_id typing
            (if ltb_ℤ (pos 0) ttl_seconds then some ttl_seconds else none))
          s
