-- ===== src/Examples/Services.antt =====
-- The theorems on messages, on the start of a service and on the Kafka client at concrete values.
use datom.Common.{ℕ, pos, ◌+◌, String, true, false, ◌≡◌, refl, Option, some, List, [], ◌∷◌, ◌||◌}
use datom.Status.{subscribe_failed, invalid}
use datom.Exec.{Outcome, returned}
use datom.Config.Service.{TreePath, ConfigService, add_data_sphere}
use datom.Config.Service.Stored.{zoo_coordination, add_data_sphere-stored, new_datasphere}
use datom.ZooKafka.Ancestors.{elem}
use datom.Kafka.{
  Broker, KafkaClient, MsgReceivedCb, Event, subscribes, publishes, run, subscribe_to_topic,
  consume_message, no_error,
}
use datom.Kafka.Subscriptions.{first_subscription_wins}
use datom.Dispatch.{
  KvbMessageHandler, register_kvb_message_handler, future_handle_kvb_message, kvb_handler,
  kvb_oneway_handler, send_kvb_message,
}
use datom.Dispatch.Calls.{register_all, call_roundtrip}
use datom.BaseService.{CoordinationClient, Formats, Service, init}
use datom.BaseService.Client.{ZooKafkaClient, zoo_kafka_client}
use datom.BaseService.Announcing.{traced, Announces, init-Announces}
use datom.Examples.{service}
use datom.Examples.Clients.{digits, bytes, nodes, node_store}

-- A broker that refuses subscriptions; its topics are their names.
abbrev refusing : Broker
refusing = record {
  Queue = List String;
  Topic = String;
  Partition = ℕ;
  create_topic = λ topic q. (some topic, q);
  produce = λ topic message q. (true, message ∷ q);
  subscribe = λ topics q. (false, q);
  assign = λ partitions q. q;
  unassign = λ q. q;
}

-- Callbacks that count and that reset a counter.
abbrev counting : MsgReceivedCb refusing ℕ
counting offset payload n = (returned tt, n + 1)

abbrev resetting : MsgReceivedCb refusing ℕ
resetting offset payload n = (returned tt, 0)

abbrev new_client : KafkaClient refusing ℕ
new_client = record { subscription_cbs = []; publish_topics = []; queue = []; app = 4 }

abbrev two_events : List (Event refusing ℕ)
two_events = subscribes "services" resetting ∷ publishes "services" "x" ∷ []

abbrev later : KafkaClient refusing ℕ
later = run refusing ℕ two_events (subscribe_to_topic refusing ℕ "services" counting new_client).1

first_subscription_wins_example :
    ((subscribe_to_topic refusing ℕ "services" counting new_client).0 ≡ subscribe_failed)
    × (subscribe_to_topic refusing ℕ "services" resetting later ≡ (invalid, later))
    × (consume_message refusing ℕ
          (record { err = no_error; topic_name = "services"; offset = pos 0; payload = "x" })
          later
        ≡ (returned tt, record later { app = later.app + 1 }))
first_subscription_wins_example =
    first_subscription_wins refusing ℕ "services" counting resetting two_events (pos 0) "x"
      new_client refl

-- A service that answers a request with the request, and counts.
abbrev echo : String → Option String → ℕ → Outcome String × ℕ
echo req buffer n = (returned req, n + 1)

abbrev oneway : List (String × KvbMessageHandler ℕ)
oneway = ("Other", kvb_oneway_handler ℕ bytes (λ req n. (returned tt, n))) ∷ []

call_roundtrip_example :
    send_kvb_message ℕ bytes bytes
      (returned tt)
      (λ kvb.
        future_handle_kvb_message ℕ
          (register_all ℕ oneway (
            register_kvb_message_handler ℕ "string"
              (kvb_handler ℕ bytes bytes echo)
              (record { kvb_message_handlers = [] })))
          kvb)
      "hello"
      4
    ≡ (returned "hello", 5)
call_roundtrip_example =
    call_roundtrip ℕ bytes bytes (λ call. call) echo "hello" "hello"
      (record { kvb_message_handlers = [] }) oneway 4 5 (λ call s reply e. refl) refl refl
      (refl, tt) refl

abbrev formats : Formats
formats = record {
  numerals = digits;
  info_json = λ info. info.id;
  kvb_json = λ kvb. "kvb";
  service_root_path = λ datasphere id. "/dataspheres/d/services/1";
  resources_topic = λ type. "pbsphere.volumes";
}

abbrev quiet : MsgReceivedCb refusing ℕ
quiet offset payload n = (returned tt, n)

abbrev client : CoordinationClient
client = zoo_kafka_client nodes refusing ℕ digits (returned tt) quiet

abbrev connected : ZooKafkaClient nodes refusing ℕ
connected = record { tree = []; kafka = some new_client }

abbrev starting_service : Service formats (traced client)
starting_service = record {
  service_info = service "1" "a";
  service_entry_key = "";
  coordinated = true;
  datom_configured = false;
  world = (connected, []);
}

init-Announces_example :
    Announces formats client starting_service "/dataspheres/d/services/1"
      (init formats (traced client) starting_service)
init-Announces_example = init-Announces formats client starting_service connected refl refl

abbrev render : TreePath → String
render path = "/dataspheres/d"

abbrev no_payload : TreePath → String
no_payload path = ""

abbrev config : ConfigService (zoo_coordination nodes render no_payload)
config = record { tree = "/dataspheres" ∷ []; datasphere_table = [] }

add_data_sphere-stored_example :
    let after =
      add_data_sphere (zoo_coordination nodes render no_payload) (record { id = "d" }) config in
    (after.0 ≡ returned tt)
    × (after.1.datasphere_table
        ≡ ("d", new_datasphere nodes render no_payload node_store (record { id = "d" })) ∷ [])
    × ((q : String)
        → elem q after.1.tree
          ≡ elem q ("/dataspheres" ∷ "/dataspheres/d" ∷ []) || elem q ("/dataspheres" ∷ []))
add_data_sphere-stored_example =
    add_data_sphere-stored nodes render no_payload node_store (record { id = "d" }) "dataspheres"
      ("d" ∷ []) config refl (refl, (refl, tt))
