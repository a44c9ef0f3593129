-- ===== src/ZooKafka/Connect.antt =====
-- init and blockUntilConnectedOrTimedOut_ of src/infra/ZooKafkaClient.cpp. The answers of the
-- n-th zoo_state call on a handle, and what the k-th zookeeper_init returns, are parameters. The
-- loops run on fuel, where `none` is a loop that is still running.
pub mod Waiting
use datom.Common.{
  ℕ, ℤ, pos, zero, suc, eqb_ℤ, ltb, ◌+◌, Bool, true, false, ◌||◌, if◌then◌else◌, Option, none, some,
}
use datom.Status.{of_status}
use datom.Exec.{Outcome, returned, thrown, aborted}
use datom.ZooKafka.{ZkCodes, to_status_exception}

-- The answers of zoo_state, by the number of the call.
abbrev pub Session : Type 0
Session = ℕ → ℤ

module _ (codes : ZkCodes) where
  abbrev pub is_connected : ℤ → Bool
  is_connected state = eqb_ℤ state codes.zoo_connected_state

  abbrev pub is_settled : ℤ → Bool
  is_settled state = is_connected state || eqb_ℤ state (pos 0)

  -- The loop: the seconds that have passed and the number of zoo_state calls before it; the same
  -- two after it.
  unfoldable pub wait : ℕ → Session → ℕ → ℕ → ℕ → Option (ℕ × ℕ)
  wait zero states seconds elapsed n = none
  wait (suc fuel) states seconds elapsed n =
      let rest = wait fuel states seconds (elapsed + 2) (suc n) in
      if is_settled (states n) || ltb seconds elapsed then some (elapsed, suc n) else rest

  -- The test after the loop reads the state once more.
  abbrev pub tested : Session → Option (ℕ × ℕ) → Option (Outcome (Unit {0}))
  tested states none = none
  tested states (some (elapsed, n)) = some (
      if is_connected (states n)
      then returned tt
      else thrown (of_status (to_status_exception codes codes.zinvalidstate)))

  unfoldable pub block_until_connected_or_timed_out : ℕ → Session → ℕ → Option (Outcome (Unit {0}))
  block_until_connected_or_timed_out fuel states seconds =
      tested states (wait fuel states seconds 0 0)

  -- One round of the loop of init: a handle that is null ends the process (LOG(FATAL)), a wait that
  -- ends decides whether another round follows, which `again` stands for.
  abbrev pub attempt :
      Option (Outcome (Unit {0}))
      → ℕ
      → Option (Outcome (Unit {0}) × ℕ)
      → Option (Outcome (Unit {0}) × ℕ)
  attempt none k again = none
  attempt (some (returned a)) k again = some (returned tt, k)
  attempt (some (thrown e)) k again = again
  attempt (some aborted) k again = some (aborted, k)

  -- Four rounds of the wait are enough for five seconds (the module Waiting).
  abbrev pub round :
      Option Session → ℕ → Option (Outcome (Unit {0}) × ℕ) → Option (Outcome (Unit {0}) × ℕ)
  round none k again = some (aborted, k)
  round (some states) k again = attempt (block_until_connected_or_timed_out 4 states 5) k again

  -- The loop of init from the k-th zookeeper_init: how it ends, and at which handle.
  unfoldable pub connect : ℕ → (ℕ → Option Session) → ℕ → Option (Outcome (Unit {0}) × ℕ)
  unfolding block_until_connected_or_timed_out
  connect zero handles k = none
  connect (suc fuel) handles k =
      let again = connect fuel handles (suc k) in round (handles k) k again

  -- kafkaClient_->init(), where there is a Kafka client.
  abbrev pub then_kafka :
      Option (Outcome (Unit {0}))
      → Option (Outcome (Unit {0}) × ℕ)
      → Option (Outcome (Unit {0}) × ℕ)
  then_kafka (some r) (some (returned a, k)) = some (r, k)
  then_kafka _ loop = loop

  unfoldable pub init :
      ℕ → (ℕ → Option Session) → Option (Outcome (Unit {0})) → Option (Outcome (Unit {0}) × ℕ)
  unfolding connect
  init fuel handles kafka = then_kafka kafka (connect fuel handles 0)
