-- ===== src/Connections/Topic.antt =====
-- The buffers behind the updates of src/infra/ConnectionCache.cpp: what updateConnection_ reads from
-- a KVBuffer, the subscriber that `init` registers on the topic of services, and the continuation of
-- a fetch. Thrift's JSON is a parameter.
use datom.Common.{ℤ, String, Bool, true, false, Option, none, some}
use datom.Exec.{Exec, Outcome, returned, aborted, pure, ◌>>=◌}
use datom.Config.{ServiceInfo}
use datom.Buffers.{KvBuffer, Numerals, get_version, or_throw}
use datom.Connections.{Channel, ConnectionCache, update_connection}

-- JSONSerializer::deserialize, where `none` is its exception.
pub record Json : Type 0 where
  pub kvb_of : String → Option KvBuffer
  pub info_of : String → Option ServiceInfo

module _ (numerals : Numerals) (json : Json) where
  -- kvb.get_payload().get(), which is followed without a test
  abbrev pub payload_info : Option String → Outcome ServiceInfo
  payload_info none = aborted
  payload_info (some text) = or_throw (json.info_of text)

  abbrev pub read : {A : Type 0} → Outcome A → Exec ConnectionCache A
  read r s = (r, s)

  -- updateConnection_
  unfoldable pub update_from : KvBuffer → Bool → Exec ConnectionCache (Option Channel)
  update_from kvb create_if_missing = do
    info ← read (payload_info kvb.payload)
    version ← read (get_version numerals kvb)
    λ s.
        let (channel, t) = update_connection version info create_if_missing s in
        (returned channel, t)

  -- The callback of `init`; the sequence number is not read.
  unfoldable pub on_services_message : ℤ → String → Exec ConnectionCache (Unit {0})
  unfolding update_from
  on_services_message sequence_no payload = do
    kvb ← read (or_throw (json.kvb_of payload))
    channel ← update_from kvb false
    pure tt

  -- What getHeaderClientChannel does with the entry that the coordination service answered.
  unfoldable pub on_fetched : KvBuffer → Exec ConnectionCache (Option Channel)
  unfolding update_from
  on_fetched kvb = update_from kvb true
