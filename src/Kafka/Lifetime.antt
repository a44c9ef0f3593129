-- ===== src/Kafka/Lifetime.antt =====
-- KafkaClient::init and the destructor of src/infra/KafkaClient.cpp: what the client owns, and the
-- order in which it is given back. What librdkafka answers to the set-up is a parameter.
use datom.Common.{Bool, true, false, ◌≡◌, List, [], ◌∷◌, ◌++◌}
use mathlib.Core.List.{append_assoc}
use datom.Status.{other}
use datom.Exec.{Exec, pure, modify, check, throw_exception, ◌>>◌}

-- The pointers that are not null. `has_topics` is whether a topic handle of the producer lies in
-- publishTopics_.
pub record Handles : Type 0 where
  pub event_cb : Bool
  pub rebalance_cb : Bool
  pub producer : Bool
  pub consumer : Bool
  pub consume_thread : Bool
  pub has_topics : Bool

abbrev pub new_client : Handles
new_client = record {
  event_cb = false;
  rebalance_cb = false;
  producer = false;
  consumer = false;
  consume_thread = false;
  has_topics = false;
}

-- Whether the producer and the consumer could be made, and the two settings that are checked.
pub record Setup : Type 0 where
  pub producer_made : Bool
  pub group_id_set : Bool
  pub rebalance_cb_set : Bool
  pub consumer_made : Bool

abbrev pub Act : Type 0
Act = Exec Handles (Unit {0})

-- `if (!pointer) throw std::runtime_error`
abbrev pub throw_unless : Bool → Act
throw_unless true = pure tt
throw_unless false = throw_exception other

unfoldable pub init : Setup → Act
init setup = do
  modify (λ s. record s { event_cb = true })
  modify (λ s. record s { producer = setup.producer_made })
  throw_unless setup.producer_made
  check setup.group_id_set
  modify (λ s. record s { rebalance_cb = true })
  check setup.rebalance_cb_set
  modify (λ s. record s { consumer = setup.consumer_made })
  throw_unless setup.consumer_made
  modify (λ s. record s { consume_thread = true })

pub data Release : Type 0 where
  abort_flag_set : Release
  thread_joined : Release
  producer_deleted : Release
  consumer_closed : Release
  consumer_deleted : Release
  event_cb_deleted : Release
  rebalance_cb_deleted : Release
  waited_for_destroyed : Release
  topics_deleted : Release

abbrev pub only_if : Bool → List Release → List Release
only_if true rs = rs
only_if false rs = []

-- The body of the destructor, and then the members, publishTopics_ among them.
unfoldable pub destroy : Handles → List Release
destroy s =
    (abort_flag_set ∷ [])
    ++ only_if s.consume_thread (thread_joined ∷ [])
    ++ only_if s.producer (producer_deleted ∷ [])
    ++ only_if s.consumer (consumer_closed ∷ consumer_deleted ∷ [])
    ++ only_if s.event_cb (event_cb_deleted ∷ [])
    ++ only_if s.rebalance_cb (rebalance_cb_deleted ∷ [])
    ++ (waited_for_destroyed ∷ [])
    ++ only_if s.has_topics (topics_deleted ∷ [])

-- A client with a producer and a topic gives the topic back after the producer.
topics_outlive_producer :
    (s : Handles)
    → s.producer ≡ true
    → s.has_topics ≡ true
    → (before : List Release) × (between : List Release) × (destroy s
        ≡ before ++ producer_deleted ∷ between ++ topics_deleted ∷ [])
unfolding destroy
topics_outlive_producer s p t = (
  abort_flag_set ∷ only_if s.consume_thread (thread_joined ∷ []),
  only_if s.consumer (consumer_closed ∷ consumer_deleted ∷ [])
      ++ only_if s.event_cb (event_cb_deleted ∷ [])
      ++ only_if s.rebalance_cb (rebalance_cb_deleted ∷ [])
      ++ waited_for_destroyed ∷ [],
  rw (p, t) (simp (append_assoc)),
)
