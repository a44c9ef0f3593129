-- ===== src/Kafka.antt =====
-- src/infra/KafkaClient.cpp. librdkafka is third-party code: what it answers is a parameter. The
-- two locks make publishMessage and subscribeToTopic one step each; the consumer thread reads the
-- callbacks without the lock, and consuming a message is one step here too. `App` is what the
-- callbacks of the subscribers act on.
pub mod Lifetime
pub mod Subscriptions
use datom.Common.{
  ℤ, String, str_eq, Bool, true, false, if◌then◌else◌, Option, none, some, List, [], ◌∷◌, map,
}
use datom.Status.{Status, status_ok, publish_failed, subscribe_failed, invalid}
use datom.Exec.{Exec, Outcome, returned, thrown, aborted, pure}
use datom.Config.{put, find}

-- message->err() and the values that consumeMessage_ tells apart.
pub data MessageErr : Type 0 where
  timed_out no_error partition_eof unknown_topic unknown_partition other_error : MessageErr

pub record Message : Type 0 where
  pub err : MessageErr
  pub topic_name : String
  pub offset : ℤ
  pub payload : String

-- The producer and the consumer of librdkafka. A test is false on an error, and a topic that could
-- not be created is `none`.
pub record Broker : Type 1 where
  pub Queue : Type 0
  pub Topic : Type 0
  pub Partition : Type 0
  pub create_topic : String → Queue → Option Topic × Queue
  pub produce : Topic → String → Queue → Bool × Queue
  pub subscribe : List String → Queue → Bool × Queue
  pub assign : List Partition → Queue → Queue
  pub unassign : Queue → Queue

abbrev pub keys_of : {K V : Type 0} → List (K × V) → List K
keys_of [] = []
keys_of ((k, v) ∷ rest) = k ∷ keys_of rest

module _ (broker : Broker) (App : Type 0) where
  abbrev pub MsgReceivedCb : Type 0
  MsgReceivedCb = ℤ → String → Exec App (Unit {0})

  pub record KafkaClient : Type 0 where
    pub subscription_cbs : List (String × MsgReceivedCb)
    pub publish_topics : List (String × broker.Topic)
    pub queue : broker.Queue
    pub app : App

  abbrev pub Call : Type 0
  Call = KafkaClient → Status × KafkaClient

  -- An empty message only creates the topic.
  abbrev pub produce_to : broker.Topic → String → Call
  produce_to t message s =
      let (ok, q) = broker.produce t message s.queue in
      if str_eq message ""
      then (status_ok, s)
      else (if ok then status_ok else publish_failed, record s { queue = q })

  abbrev pub produce_new : String → String → Option broker.Topic → Call
  produce_new topic message none s = (publish_failed, s)
  produce_new topic message (some t) s =
      produce_to t message (record s { publish_topics = put str_eq topic t s.publish_topics })

  abbrev pub publish_found : Option broker.Topic → String → String → Call
  publish_found none topic message s =
      let (t, q) = broker.create_topic topic s.queue in
      produce_new topic message t (record s { queue = q })
  publish_found (some t) topic message s = produce_to t message s

  unfoldable pub publish_message : String → String → Call
  publish_message topic message s =
      publish_found (find str_eq topic s.publish_topics) topic message s

  -- The new callback is stored before the consumer is asked for the topics of all callbacks.
  abbrev pub subscribe_new : String → MsgReceivedCb → Call
  subscribe_new topic cb s =
      let cbs = put str_eq topic cb s.subscription_cbs in
      let (ok, q) = broker.subscribe (keys_of cbs) s.queue in
      (if ok then status_ok else subscribe_failed, record s { subscription_cbs = cbs; queue = q })

  abbrev pub subscribe_found : Option MsgReceivedCb → String → MsgReceivedCb → Call
  subscribe_found none topic cb s = subscribe_new topic cb s
  subscribe_found (some old) topic cb s = (invalid, s)

  unfoldable pub subscribe_to_topic : String → MsgReceivedCb → Call
  subscribe_to_topic topic cb s = subscribe_found (find str_eq topic s.subscription_cbs) topic cb s

  abbrev pub received : Option MsgReceivedCb → Message → Exec KafkaClient (Unit {0})
  received none message s = (returned tt, s)
  received (some cb) message s =
      let (r, app) = cb message.offset message.payload s.app in (r, record s { app = app })

  -- Every case but ERR_NO_ERROR at most logs the message.
  abbrev pub handled : MessageErr → Message → Exec KafkaClient (Unit {0})
  handled no_error message s =
      received (find str_eq message.topic_name s.subscription_cbs) message s
  handled timed_out message s = (returned tt, s)
  handled partition_eof message s = (returned tt, s)
  handled unknown_topic message s = (returned tt, s)
  handled unknown_partition message s = (returned tt, s)
  handled other_error message s = (returned tt, s)

  unfoldable pub consume_message : Message → Exec KafkaClient (Unit {0})
  consume_message message s = handled message.err message s

  -- `assigning` is whether the error code is ERR__ASSIGN_PARTITIONS.
  unfoldable pub rebalance_callback : Bool → List broker.Partition → KafkaClient → KafkaClient
  rebalance_callback assigning partitions s =
      if assigning
      then record s { queue = broker.assign partitions s.queue }
      else record s { queue = broker.unassign s.queue }

  -- What reaches the client, on any thread.
  pub data Event : Type 0 where
    publishes : String → String → Event
    subscribes : String → MsgReceivedCb → Event
    consumes : Message → Event
    rebalances : Bool → List broker.Partition → Event

  unfoldable pub step : Event → KafkaClient → KafkaClient
  unfolding publish_message subscribe_to_topic consume_message rebalance_callback
  step (publishes topic message) s = (publish_message topic message s).1
  step (subscribes topic cb) s = (subscribe_to_topic topic cb s).1
  step (consumes message) s = (consume_message message s).1
  step (rebalances assigning partitions) s = rebalance_callback assigning partitions s

  unfoldable pub run : List Event → KafkaClient → KafkaClient
  unfolding step
  run [] s = s
  run (e ∷ es) s = run es (step e s)
