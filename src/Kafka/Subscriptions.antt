-- ===== src/Kafka/Subscriptions.antt =====
-- The callback that a topic has is the first one that was subscribed.
use datom.Common.{
  ℤ, String, str_eq, true, false, if◌then◌else◌, Bool-cases, Option-cases, ◌≡◌, refl, sym, ◌∙◌, ap,
  inl, inr, Option, none, some, List, [], ◌∷◌, eq_iff,
}
use datom.Status.{status_ok, subscribe_failed, invalid}
use datom.Config.{put, find}
use datom.Config.Service.Dataspheres.{find-put, find-put-other}
use datom.Kafka.{
  MessageErr, timed_out, no_error, partition_eof, unknown_topic, unknown_partition, other_error,
  Message, Broker, MsgReceivedCb, KafkaClient, publish_message, produce_to, produce_new,
  publish_found, subscribe_to_topic, received, consume_message, handled, keys_of,
  rebalance_callback, Event, publishes, subscribes, consumes, rebalances, step, run,
}

clash : {V : Type 0} {v : V} → none ≡ some v → ⊥
clash e = cc

module _ (broker : Broker) (App : Type 0) where
  abbrev callback : String → KafkaClient broker App → Option (MsgReceivedCb broker App)
  callback topic s = find str_eq topic s.subscription_cbs

  find-put-kept :
      {V : Type 0} (k j : String) (v w : V) (t : List (String × V))
      → find str_eq k t ≡ some v
      → find str_eq j t ≡ none
      → find str_eq k (put str_eq j w t) ≡ some v
  find-put-kept k j v w t e n = elim (Bool-cases (str_eq j k)) [
    | inl same ↦ absurd (clash (sym n ∙ (ap (λ x. find str_eq x t) ((eq_iff j k).0 same) ∙ e)))
    | inr differ ↦ find-put-other k j w t differ ∙ e
  ]

  produce-keeps :
      (topic message : String) (t : broker.Topic) (s : KafkaClient broker App)
      → callback topic (produce_to broker App t message s).1 ≡ callback topic s
  produce-keeps topic message t s = elim (Bool-cases (str_eq message "")) [
    | inl e ↦ rw e refl
    | inr e ↦ rw e refl
  ]

  new-keeps :
      (topic t message : String) (o : Option broker.Topic) (s : KafkaClient broker App)
      → callback topic (produce_new broker App t message o s).1 ≡ callback topic s
  new-keeps topic t message none s = refl
  new-keeps topic t message (some made) s =
      produce-keeps topic message made
        (record s { publish_topics = put str_eq t made s.publish_topics })

  found-keeps :
      (topic t message : String) (o : Option broker.Topic) (s : KafkaClient broker App)
      → callback topic (publish_found broker App o t message s).1 ≡ callback topic s
  found-keeps topic t message none s =
      let made = broker.create_topic t s.queue in
      new-keeps topic t message made.0 (record s { queue = made.1 })
  found-keeps topic t message (some made) s = produce-keeps topic message made s

  publish-keeps :
      (topic t message : String) (s : KafkaClient broker App)
      → callback topic (publish_message broker App t message s).1 ≡ callback topic s
  unfolding publish_message
  publish-keeps topic t message s = found-keeps topic t message (find str_eq t s.publish_topics) s

  subscribe-keeps :
      (topic t : String) (cb new : MsgReceivedCb broker App) (s : KafkaClient broker App)
      → callback topic s ≡ some cb
      → callback topic (subscribe_to_topic broker App t new s).1 ≡ some cb
  unfolding subscribe_to_topic
  subscribe-keeps topic t cb new s e = elim (Option-cases (callback t s)) [
    | inl n ↦ rw n (find-put-kept topic t cb new s.subscription_cbs e n)
    | inr (old, f) ↦ rw f e
  ]

  received-keeps :
      (topic : String) (o : Option (MsgReceivedCb broker App)) (message : Message)
      (s : KafkaClient broker App)
      → callback topic (received broker App o message s).1 ≡ callback topic s
  received-keeps topic none message s = refl
  received-keeps topic (some cb) message s = refl

  handled-keeps :
      (topic : String) (err : MessageErr) (message : Message) (s : KafkaClient broker App)
      → callback topic (handled broker App err message s).1 ≡ callback topic s
  handled-keeps topic no_error message s =
      received-keeps topic (find str_eq message.topic_name s.subscription_cbs) message s
  handled-keeps topic timed_out message s = refl
  handled-keeps topic partition_eof message s = refl
  handled-keeps topic unknown_topic message s = refl
  handled-keeps topic unknown_partition message s = refl
  handled-keeps topic other_error message s = refl

  consume-keeps :
      (topic : String) (message : Message) (s : KafkaClient broker App)
      → callback topic (consume_message broker App message s).1 ≡ callback topic s
  unfolding consume_message
  consume-keeps topic message s = handled-keeps topic message.err message s

  step-keeps :
      (topic : String) (cb : MsgReceivedCb broker App) (e : Event broker App)
      (s : KafkaClient broker App)
      → callback topic s ≡ some cb
      → callback topic (step broker App e s) ≡ some cb
  unfolding step rebalance_callback
  step-keeps topic cb (publishes t message) s h = publish-keeps topic t message s ∙ h
  step-keeps topic cb (subscribes t new) s h = subscribe-keeps topic t cb new s h
  step-keeps topic cb (consumes message) s h = consume-keeps topic message s ∙ h
  step-keeps topic cb (rebalances true partitions) s h = h
  step-keeps topic cb (rebalances false partitions) s h = h

  run-keeps :
      (topic : String) (cb : MsgReceivedCb broker App) (es : List (Event broker App))
      (s : KafkaClient broker App)
      → callback topic s ≡ some cb
      → callback topic (run broker App es s) ≡ some cb
  unfolding run
  run-keeps topic cb [] s h = h
  run-keeps topic cb (e ∷ es) s h =
      run-keeps topic cb es (step broker App e s) (step-keeps topic cb e s h)

  subscribed-callback :
      (topic : String) (cb : MsgReceivedCb broker App) (s : KafkaClient broker App)
      → callback topic s ≡ none
      → callback topic (subscribe_to_topic broker App topic cb s).1 ≡ some cb
  unfolding subscribe_to_topic
  subscribed-callback topic cb s n = rw n (find-put topic cb s.subscription_cbs)

  -- A topic that has no callback and is subscribed, whether the broker accepts that
  -- (STATUS_OK) or not (STATUS_SUBSCRIBE_FAILED), keeps the callback of this call through every
  -- later publish, subscribe, consumed message and rebalance: another subscribe to the topic
  -- returns STATUS_INVALID and changes nothing, and a message that is consumed from the topic goes
  -- to that callback, whose outcome is the outcome of the step.
  pub first_subscription_wins :
      (topic : String) (cb new : MsgReceivedCb broker App) (es : List (Event broker App))
      (offset : ℤ) (payload : String) (s : KafkaClient broker App)
      → find str_eq topic s.subscription_cbs ≡ none
      → let topics = put str_eq topic cb s.subscription_cbs in
        let subscribed = subscribe_to_topic broker App topic cb s in
        let after = run broker App es subscribed.1 in
        let called = cb offset payload after.app in
        (subscribed.0
          ≡ (if (broker.subscribe (keys_of topics) s.queue).0 then status_ok else subscribe_failed))
        × (subscribe_to_topic broker App topic new after ≡ (invalid, after))
        × (consume_message broker App
              (record { err = no_error; topic_name = topic; offset = offset; payload = payload })
              after
            ≡ (called.0, record after { app = called.1 }))
  unfolding subscribe_to_topic consume_message
  first_subscription_wins topic cb new es offset payload s n =
      let kept =
        run-keeps topic cb es (subscribe_to_topic broker App topic cb s).1
          (subscribed-callback topic cb s n) in
      (rw n refl, rw kept refl, rw kept refl)
