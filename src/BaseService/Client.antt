-- ===== src/BaseService/Client.antt =====
-- src/infra/ZooKafkaClient.cpp as the coordination client of a service: ZooKeeper's part and Kafka's.
use datom.Common.{ℤ, eqb_ℤ, eqb_ℤ_iff, String, true, false, ◌≡◌, refl, Option, none, some}
use datom.Status.{Status, invalid_key, of_status}
use datom.Exec.{Exec, Outcome, returned, thrown, aborted}
use datom.Buffers.{Numerals}
use datom.ZooKafka.{ZooKeeper, Reply, create, get, set, complete, to_status_exception}
use datom.Kafka.{Broker, MsgReceivedCb, KafkaClient, publish_message, subscribe_to_topic}
use datom.BaseService.{
  CoordinationClient, Formats, Service, init, init_coordination_client,
  ensure_datasphere_membership,
}

module _ (zoo : ZooKeeper) (broker : Broker) (App : Type 0) where
  -- `kafka` is null if the client was made without a consumer group.
  pub record ZooKafkaClient : Type 0 where
    pub tree : zoo.Tree
    pub kafka : Option (KafkaClient broker App)

  abbrev pub on_tree : {A : Type 0} → Exec zoo.Tree A → Exec ZooKafkaClient A
  on_tree call s = let (r, t) = call s.tree in (r, record s { tree = t })

  -- kafkaClient_ is followed without a test.
  abbrev pub on_kafka :
      (KafkaClient broker App → Status × KafkaClient broker App)
      → Option (KafkaClient broker App)
      → Exec ZooKafkaClient Status
  on_kafka call none s = (aborted, s)
  on_kafka call (some kafka) s =
      let (status, k) = call kafka in (returned status, record s { kafka = some k })

  -- `connected` is how init ends (the module ZooKafka.Connect), `cb` is the callback of the
  -- connection cache.
  abbrev pub zoo_kafka_client :
      Numerals → Outcome (Unit {0}) → MsgReceivedCb broker App → CoordinationClient
  zoo_kafka_client numerals connected cb = record {
    World = ZooKafkaClient;
    init = λ s. (connected, s);
    get = λ key. on_tree (get zoo numerals key);
    create = λ key value. on_tree (create zoo key value);
    set = λ key value version. on_tree (set zoo key value version);
    publish_message =
        λ topic message s. on_kafka (publish_message broker App topic message) s.kafka s;
    subscribe_to_topic = λ topic s. on_kafka (subscribe_to_topic broker App topic cb) s.kafka s;
  }

  -- A service whose entry ZooKeeper does not have (ZNONODE) fails to start with
  -- STATUS_INVALID_KEY: it leaves the tree as the read left it, and subscribes to and publishes
  -- nothing.
  pub unknown_service_refused :
      (formats : Formats) (numerals : Numerals) (cb : MsgReceivedCb broker App)
      (s : Service formats (zoo_kafka_client numerals (returned tt) cb))
      (reply : Reply (ℤ × String)) (t : zoo.Tree)
      → s.coordinated ≡ true
      → zoo.zoo_awget
          (formats.service_root_path s.service_info.data_sphere_id s.service_info.id)
          s.world.tree
        ≡ (reply, t)
      → reply.sent ≡ zoo.codes.zok
      → reply.rc ≡ zoo.codes.znonode
      → eqb_ℤ zoo.codes.znonode zoo.codes.zok ≡ false
      → let after = init formats (zoo_kafka_client numerals (returned tt) cb) s in
        (after.0
          ≡ thrown
              (of_status (record { status = invalid_key; original_status = zoo.codes.znonode })))
        × (after.1.world ≡ record s.world { tree = t })
  unfolding init init_coordination_client ensure_datasphere_membership get complete
      to_status_exception
  unknown_service_refused formats numerals cb s reply t c answer sent rc distinct =
      let ok = (eqb_ℤ_iff zoo.codes.zok zoo.codes.zok).1 refl in
      let same = (eqb_ℤ_iff zoo.codes.znonode zoo.codes.znonode).1 refl in
      (
        rw (c, answer, sent, rc, ok, distinct, same) refl,
        rw (c, answer, sent, rc, ok, distinct) refl,
      )
