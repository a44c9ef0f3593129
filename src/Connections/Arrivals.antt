-- ===== src/Connections/Arrivals.antt =====
-- What reaches the connection cache of a service through the Kafka client (src/infra/KafkaClient.cpp)
-- and through its own fetches: announcements as publishServiceInfomation_ of src/infra/Service.cpp
-- publishes them, and entries as ZooKafkaClient::get makes them.
use datom.Common.{
  ℕ, ℤ, pos, Bool, String, str_eq, eq_iff, true, false, if◌then◌else◌, ◌≡◌, refl, ap, ◌∙◌, Option,
  some, List, [], ◌∷◌, All,
}
use datom.Exec.{Exec, Outcome, returned, thrown, aborted, ◌>>◌, pure}
use datom.Config.{ServiceInfo, find}
use datom.Buffers.{KvBuffer, empty_kvb, set_version, get_version, get_prop}
use datom.BaseService.{Formats, announcement, topic_services}
use datom.Kafka.{Broker, KafkaClient, Message, no_error, consume_message}
use datom.Connections.{Channel, ConnectionCache, update_connection}
use datom.Connections.Topic.{Json, update_from, on_services_message, on_fetched}
use datom.Connections.Directory.{
  Arrival, announced, fetched, arrive, arrive_all, directory, moved, AllFirst, Address,
  announced-Moves, fetched-Moves,
}

module _ (formats : Formats) (json : Json) (broker : Broker) where
  abbrev pub Client : Type 0
  Client = KafkaClient broker ConnectionCache

  -- The buffer that holds the information of a service with its version.
  abbrev pub entry_of : ServiceInfo → ℕ → KvBuffer
  entry_of info version = record {
    props = (set_version formats.numerals (pos version) empty_kvb).props;
    payload = some (formats.info_json info);
  }

  abbrev message_of : ℤ → ServiceInfo → ℕ → Message
  message_of n info version = record {
    err = no_error;
    topic_name = topic_services;
    offset = n;
    payload = announcement formats info (pos version);
  }

  abbrev unit_of : Outcome (Option Channel) → Outcome (Unit {0})
  unit_of (returned c) = returned tt
  unit_of (thrown e) = thrown e
  unit_of aborted = aborted

  unfoldable pub take_in : Arrival → Exec Client (Unit {0})
  take_in (announced n info version) s =
      consume_message broker ConnectionCache (message_of n info version) s
  take_in (fetched info version) s =
      let (r, app) = on_fetched formats.numerals json (entry_of info version) s.app in
      (unit_of r, record s { app = app })

  unfoldable pub take_in_all : List Arrival → Exec Client (Unit {0})
  take_in_all [] = pure tt
  take_in_all (e ∷ es) = take_in e >> take_in_all es

  -- folly::to and the JSON serializer read what they wrote.
  abbrev EntryIsRead : ServiceInfo → ℕ → Type 0
  EntryIsRead info version =
      (json.info_of (formats.info_json info) ≡ some info)
      × (formats.numerals.read (formats.numerals.show (pos version)) ≡ some (pos version))

  abbrev pub IsRead : Arrival → Type 0
  IsRead (announced n info version) =
      (json.kvb_of (announcement formats info (pos version)) ≡ some (entry_of info version))
      × EntryIsRead info version
  IsRead (fetched info version) = EntryIsRead info version

  abbrev IsSubscribed : Client → Type 0
  IsSubscribed s =
      find str_eq topic_services s.subscription_cbs
      ≡ some (on_services_message formats.numerals json)

  update_from_entry :
      (info : ServiceInfo) (version : ℕ) (create : Bool) (s : ConnectionCache)
      → EntryIsRead info version
      → update_from formats.numerals json (entry_of info version) create s ≡ (
        returned (update_connection (pos version) info create s).0,
        (update_connection (pos version) info create s).1,
      )
  unfolding update_from get_version get_prop set_version
  update_from_entry info version create s (i, v) = rw (i, v) refl

  -- The cache after an arrival.
  abbrev updated : Arrival → ConnectionCache → ConnectionCache
  updated (announced n info version) s = (update_connection (pos version) info false s).1
  updated (fetched info version) s = (update_connection (pos version) info true s).1

  take_in_lem :
      (e : Arrival) (s : Client)
      → IsRead e
      → IsSubscribed s
      → take_in e s ≡ (returned tt, record s { app = updated e s.app })
  unfolding take_in consume_message on_services_message on_fetched
  take_in_lem (announced n info version) s (k, r) c =
      rw (c, k, update_from_entry info version false s.app r) refl
  take_in_lem (fetched info version) s r c = rw (update_from_entry info version true s.app r) refl

  at_own :
      (info : ServiceInfo) (id : String) (s : ConnectionCache) (b : Bool)
      → str_eq info.id id ≡ b
      → (if b then moved info (directory s info.id) else directory s id)
        ≡ (if b then moved info (directory s id) else directory s id)
  at_own info id s true e = ap (λ i. moved info (directory s i)) ((eq_iff info.id id).0 e)
  at_own info id s false e = refl

  updated-arrive :
      (e : Arrival) (s : ConnectionCache)
      → AllFirst s
      → AllFirst (updated e s)
        × ((id : String) → directory (updated e s) id ≡ arrive e (directory s) id)
  updated-arrive (announced n info version) s a =
      let (first, moves) = announced-Moves info version s a in
      (first, λ id. moves id ∙ at_own info id s (str_eq info.id id) refl)
  updated-arrive (fetched info version) s a = fetched-Moves info version s a

  arrive_cong :
      (e : Arrival) (d d' : String → Option (Option Address)) (id : String)
      → ((k : String) → d k ≡ d' k)
      → arrive e d id ≡ arrive e d' id
  arrive_cong (announced n info version) d d' id h = rw (h id) refl
  arrive_cong (fetched info version) d d' id h = rw (h id) refl

  arrive_all_cong :
      (es : List Arrival) (d d' : String → Option (Option Address)) (id : String)
      → ((k : String) → d k ≡ d' k)
      → arrive_all es d id ≡ arrive_all es d' id
  arrive_all_cong [] d d' id h = h id
  arrive_all_cong (e ∷ es) d d' id h =
      arrive_all_cong es (arrive e d) (arrive e d') id (λ k. arrive_cong e d d' k h)

  -- Whatever announcements of services reach a client that is subscribed to their topic, and whatever
  -- entries it fetches, in any order and with any versions from 0 on, if their texts are read as they
  -- were written and all items have their first version at the start: no callback fails, the
  -- subscriptions stay, and the cache is the directory that the arrivals make, whatever their
  -- versions: an announcement moves a service that is listed and is ignored for one that is not, a
  -- fetch lists a service or moves it, and every other service stays as it was.
  pub directory_followed :
      (es : List Arrival) (s : Client)
      → find str_eq topic_services s.subscription_cbs
        ≡ some (on_services_message formats.numerals json)
      → AllFirst s.app
      → All IsRead es
      → ((take_in_all es s).0 ≡ returned tt)
        × ((take_in_all es s).1.subscription_cbs ≡ s.subscription_cbs)
        × ((id : String)
            → directory (take_in_all es s).1.app id ≡ arrive_all es (directory s.app) id)
  unfolding take_in_all
  directory_followed [] s c a r = (refl, refl, λ id. refl)
  directory_followed (e ∷ es) s c a (r, rs) =
      let t : Client = record s { app = updated e s.app } in
      let (first, moves) = updated-arrive e s.app a in
      let (done, same, rest) = directory_followed es t c first rs in
      rw (take_in_lem e s r c) (
        done,
        same,
        λ id.
            rest id
            ∙ arrive_all_cong es (directory (updated e s.app)) (arrive e (directory s.app)) id
                moves,
      )
