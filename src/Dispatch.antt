-- ===== src/Dispatch.antt =====
-- Messages between services: ServiceApiHandler of src/infra/Service.cpp and
-- src/infra/MessageUtils.tcc. `App` is what the handlers of a service act on. The future of a handler
-- is its outcome. Thrift carries a call to the other service: it is a parameter.
pub mod Calls
use datom.Common.{String, str_eq, Option, none, some, List, [], ◌∷◌}
use datom.Status.{other}
use datom.Exec.{Exec, Outcome, returned, thrown, aborted, throw_exception, pure, ◌>>=◌}
use datom.Config.{put, find}
use datom.Buffers.{
  KvBuffer, Codec, empty_kvb, set_type, get_type, set_as_binary_payload, get_from_binary_payload,
}

module _ (App : Type 0) where
  abbrev pub KvbMessageHandler : Type 0
  KvbMessageHandler = KvBuffer → Exec App KvBuffer

  pub record ServiceApiHandler : Type 0 where
    pub kvb_message_handlers : List (String × KvbMessageHandler)

  unfoldable pub register_kvb_message_handler :
      String → KvbMessageHandler → ServiceApiHandler → ServiceApiHandler
  register_kvb_message_handler type handler h = record {
    kvb_message_handlers = put str_eq type handler h.kvb_message_handlers;
  }

  abbrev pub handler_for : Option KvbMessageHandler → KvBuffer → Exec App KvBuffer
  handler_for none message = throw_exception other
  handler_for (some handler) message = handler message

  abbrev pub dispatch : ServiceApiHandler → Outcome String → KvBuffer → Exec App KvBuffer
  dispatch h (returned type) message = handler_for (find str_eq type h.kvb_message_handlers) message
  dispatch h (thrown e) message = throw_exception e
  dispatch h aborted message = λ s. (aborted, s)

  unfoldable pub future_handle_kvb_message : ServiceApiHandler → KvBuffer → Exec App KvBuffer
  future_handle_kvb_message h message = dispatch h (get_type message) message

  -- The value of an expression that reads no state.
  abbrev pub lift : {A : Type 0} → Outcome A → Exec App A
  lift r s = (r, s)

  module _ {Req Resp : Type 0} (req_codec : Codec Req) (resp_codec : Codec Resp) where
    -- KVBHandler: the handler is given the request and, in threadLocalBuffer, the raw payload.
    unfoldable pub kvb_handler : (Req → Option String → Exec App Resp) → KvbMessageHandler
    kvb_handler handler kvb = do
      req ← lift (get_from_binary_payload req_codec kvb)
      resp ← handler req kvb.payload
      pure (set_type resp_codec.type_str (set_as_binary_payload resp_codec resp empty_kvb))

    -- sendKVBMessage with a response. `connection` is what getAsyncClient answers, `client` is the
    -- call future_handleKVBMessage of the other service.
    unfoldable pub send_kvb_message :
        Outcome (Unit {0}) → (KvBuffer → Exec App KvBuffer) → Req → Exec App Resp
    send_kvb_message connection client req = lift connection >>= (λ _.
        client (set_as_binary_payload req_codec req (set_type req_codec.type_str empty_kvb))
        >>= (λ kvb. lift (get_from_binary_payload resp_codec kvb)))

  module _ {Req : Type 0} (req_codec : Codec Req) where
    -- KVBOnewayHandler
    unfoldable pub kvb_oneway_handler : (Req → Exec App (Unit {0})) → KvbMessageHandler
    kvb_oneway_handler handler kvb = do
      req ← lift (get_from_binary_payload req_codec kvb)
      _ ← handler req
      pure (set_type "Unit" empty_kvb)

    -- sendKVBMessage without a response
    unfoldable pub send_oneway :
        Outcome (Unit {0}) → (KvBuffer → Exec App KvBuffer) → Req → Exec App (Unit {0})
    send_oneway connection client req = lift connection >>= (λ _.
        client (set_as_binary_payload req_codec req (set_type req_codec.type_str empty_kvb))
        >>= (λ kvb. pure tt))
