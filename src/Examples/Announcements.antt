-- ===== src/Examples/Announcements.antt =====
-- The theorem on the connection cache behind the Kafka client at a concrete state.
use datom.Common.{
  true, pos, String, str_eq, if◌then◌else◌, ◌≡◌, refl, Option, none, some, List, [], ◌∷◌,
}
use datom.Exec.{returned}
use datom.Buffers.{set_version}
use datom.BaseService.{Formats, topic_services}
use datom.Kafka.{Broker}
use datom.Connections.Topic.{Json, on_services_message}
use datom.Connections.Directory.{Arrival, announced, fetched, arrive_all, directory}
use datom.Connections.Arrivals.{Client, take_in_all, directory_followed}
use datom.Examples.{service}
use datom.Examples.Clients.{digits}

-- A broker that takes everything.
abbrev broker : Broker
broker = record {
  Queue = Unit {0};
  Topic = Unit {0};
  Partition = Unit {0};
  create_topic = λ topic q. (some tt, q);
  produce = λ topic message q. (true, q);
  subscribe = λ topics q. (true, q);
  assign = λ partitions q. q;
  unassign = λ q. q;
}

abbrev text_of : Option String → String
text_of none = ""
text_of (some text) = text

-- Services are told apart by their addresses: service 1 is at "b".
abbrev pub formats : Formats
formats = record {
  numerals = digits;
  info_json = λ info. info.ip;
  kvb_json = λ kvb. text_of kvb.payload;
  service_root_path = λ datasphere id. id;
  resources_topic = λ type. type;
}

abbrev json : Json
json = record {
  kvb_of = λ text. some (record { props = ("version", "4") ∷ []; payload = some text });
  info_of = λ text. some (if str_eq text "b" then service "1" text else service "2" text);
}

abbrev subscribed : Client formats json broker
subscribed = record {
  subscription_cbs = (topic_services, on_services_message digits json) ∷ [];
  publish_topics = [];
  queue = tt;
  app = record { connections = []; next_serial = 0; closed = [] };
}

-- Service 2 is fetched and moves; service 1 was not fetched.
abbrev arrivals : List Arrival
arrivals =
    fetched (service "2" "a") 4
    ∷ announced (pos 0) (service "1" "b") 4
    ∷ announced (pos 1) (service "2" "c") 4
    ∷ []

directory_followed_example :
    ((take_in_all formats json broker arrivals subscribed).0 ≡ returned tt)
    × ((take_in_all formats json broker arrivals subscribed).1.subscription_cbs
        ≡ (topic_services, on_services_message digits json) ∷ [])
    × ((id : String)
        → directory (take_in_all formats json broker arrivals subscribed).1.app id
          ≡ arrive_all arrivals (λ k. none) id)
unfolding set_version
directory_followed_example =
    directory_followed formats json broker arrivals subscribed refl (λ id. tt)
      ((refl, refl), ((refl, (refl, refl)), ((refl, (refl, refl)), tt)))
