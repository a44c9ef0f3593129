-- ===== src/Dispatch/Calls.antt =====
-- A call reaches the handler that is registered for its type, and no other.
use datom.Common.{String, str_eq, false, ◌≡◌, refl, ap, ◌∙◌, Option, some, List, [], ◌∷◌, All}
use datom.Exec.{Exec, returned, ◌>>=◌}
use datom.Config.{find}
use datom.Config.Service.Dataspheres.{find-put, find-put-other}
use datom.Buffers.{
  KvBuffer, Codec, empty_kvb, get_prop, set_type, get_type, set_as_binary_payload,
  get_from_binary_payload,
}
use datom.Dispatch.{
  KvbMessageHandler, ServiceApiHandler, register_kvb_message_handler, handler_for,
  future_handle_kvb_message, lift, kvb_handler, send_kvb_message,
}

module _ (App : Type 0) where
  -- Registrations after one another.
  abbrev pub register_all :
      List (String × KvbMessageHandler App) → ServiceApiHandler App → ServiceApiHandler App
  register_all [] h = h
  register_all ((type, handler) ∷ rest) h =
      register_all rest (register_kvb_message_handler App type handler h)

  find-register_all :
      (type : String) (o : Option (KvbMessageHandler App))
      (others : List (String × KvbMessageHandler App)) (h : ServiceApiHandler App)
      → All (λ entry. str_eq entry.0 type ≡ false) others
      → find str_eq type h.kvb_message_handlers ≡ o
      → find str_eq type (register_all others h).kvb_message_handlers ≡ o
  unfolding register_kvb_message_handler
  find-register_all type o [] h d e = e
  find-register_all type o ((k, handler) ∷ rest) h (differ, d) e =
      find-register_all type o rest (register_kvb_message_handler App k handler h) d
        (find-put-other type k handler h.kvb_message_handlers differ ∙ e)

  -- The reply that Thrift brings back is the handler's.
  abbrev pub Delivers : (Exec App KvBuffer → Exec App KvBuffer) → Type 0
  Delivers rpc =
      (call : Exec App KvBuffer) (s : App) (reply : KvBuffer)
      → (call s).0 ≡ returned reply
      → rpc call s ≡ call s

  module _ {Req Resp : Type 0} (req_codec : Codec Req) (resp_codec : Codec Resp)
      (rpc : Exec App KvBuffer → Exec App KvBuffer) where
    abbrev request : Req → KvBuffer
    request req = set_as_binary_payload req_codec req (set_type req_codec.type_str empty_kvb)

    abbrev reply_of : Resp → KvBuffer
    reply_of resp = set_type resp_codec.type_str (set_as_binary_payload resp_codec resp empty_kvb)

    kvb_handler-request :
        (handler : Req → Option String → Exec App Resp) (req : Req) (resp : Resp) (s t : App)
        → req_codec.deserialize (req_codec.serialize req) ≡ some req
        → handler req (some (req_codec.serialize req)) s ≡ (returned resp, t)
        → kvb_handler App req_codec resp_codec handler (request req) s
          ≡ (returned (reply_of resp), t)
    unfolding kvb_handler get_from_binary_payload set_type
    kvb_handler-request handler req resp s t q h = rw (q, h) refl

    -- The handler that was registered for a type runs on a message of that type.
    handle-registered :
        (handler : KvbMessageHandler App) (req : Req) (base : ServiceApiHandler App)
        (others : List (String × KvbMessageHandler App))
        → All (λ entry. str_eq entry.0 req_codec.type_str ≡ false) others
        → future_handle_kvb_message App
            (register_all others (register_kvb_message_handler App req_codec.type_str handler base))
            (request req)
          ≡ handler (request req)
    unfolding future_handle_kvb_message get_type set_type get_prop register_kvb_message_handler
    handle-registered handler req base others o =
        ap (λ found. handler_for App found (request req))
          (find-register_all req_codec.type_str (some handler) others
            (register_kvb_message_handler App req_codec.type_str handler base) o
            (find-put req_codec.type_str handler base.kvb_message_handlers))

    replied :
        (resp : Resp) (call : Exec App KvBuffer) (s t : App)
        → Delivers rpc
        → resp_codec.deserialize (resp_codec.serialize resp) ≡ some resp
        → call s ≡ (returned (reply_of resp), t)
        → (rpc call >>= (λ kvb. lift App (get_from_binary_payload resp_codec kvb))) s
          ≡ (returned resp, t)
    unfolding get_from_binary_payload set_type
    replied resp call s t d p e = rw (d call s (reply_of resp) (ap (λ r. r.0) e), e, p) refl

    -- If the handler of the request's type was registered by KVBHandler, whatever was registered
    -- before and for other types after it, there is a connection, Thrift delivers the reply, and the
    -- serializers read what they wrote, then a request whose handler returns a response gives the
    -- caller that response, and leaves the service as the handler left it.
    pub call_roundtrip :
        (handler : Req → Option String → Exec App Resp) (req : Req) (resp : Resp)
        (base : ServiceApiHandler App) (others : List (String × KvbMessageHandler App)) (s t : App)
        → Delivers rpc
        → req_codec.deserialize (req_codec.serialize req) ≡ some req
        → resp_codec.deserialize (resp_codec.serialize resp) ≡ some resp
        → All (λ entry. str_eq entry.0 req_codec.type_str ≡ false) others
        → handler req (some (req_codec.serialize req)) s ≡ (returned resp, t)
        → let service = register_all others (
            register_kvb_message_handler App req_codec.type_str
              (kvb_handler App req_codec resp_codec handler)
              base) in
          send_kvb_message App req_codec resp_codec
            (returned tt)
            (λ kvb. rpc (future_handle_kvb_message App service kvb))
            req
            s
          ≡ (returned resp, t)
    unfolding send_kvb_message
    call_roundtrip handler req resp base others s t d q p o h =
        let handle = kvb_handler App req_codec resp_codec handler in
        let service =
          register_all others (register_kvb_message_handler App req_codec.type_str handle base) in
        replied resp (future_handle_kvb_message App service (request req)) s t d p (
          ap (λ call. call s) (handle-registered handle req base others o)
          ∙ kvb_handler-request handler req resp s t q h)
