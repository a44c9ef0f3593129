-- ===== src/BaseService.antt =====
-- The interface of src/infra/CoordinationClient.h, the start of a service (src/infra/Service.cpp) and
-- of the configuration service (src/configservice/ConfigService.cpp). Thrift's JSON and the paths
-- that folly::sformat makes are parameters.
pub mod Client
pub mod Announcing
pub mod Lifecycle
use datom.Common.{ℤ, negsuc, String, Bool, true, false, if◌then◌else◌, none, some}
use datom.Status.{Status, is_invalid_key, Exception, of_status, of_message, other}
use datom.Exec.{
  Exec, Outcome, returned, thrown, aborted, pure, throw_exception, modify, ◌>>=◌, ◌>>◌,
}
use datom.Config.{ServiceInfo}
use datom.Buffers.{KvBuffer, Numerals, empty_kvb, set_version}

-- The calls that services make; a future is its outcome.
pub record CoordinationClient : Type 1 where
  pub World : Type 0
  pub init : Exec World (Unit {0})
  pub get : String → Exec World KvBuffer
  pub create : String → String → Exec World String
  pub set : String → String → ℤ → Exec World ℤ
  pub publish_message : String → String → Exec World Status
  -- the callback is the caller's
  pub subscribe_to_topic : String → Exec World Status

pub record Formats : Type 0 where
  pub numerals : Numerals
  pub info_json : ServiceInfo → String
  pub kvb_json : KvBuffer → String
  -- SERVICE_ROOT_PATH_FORMAT
  pub service_root_path : String → String → String
  -- TOPIC_PB_SPHERE_RESOURCES
  pub resources_topic : String → String

abbrev pub topic_services : String
topic_services = "services"

abbrev pub pb_volumes_type : String
pb_volumes_type = "volumes"

abbrev pub configservice_root : String
configservice_root = "/configservice"

module _ (formats : Formats) where
  -- The KVBuffer that is published for a version of the service's information.
  abbrev pub announcement : ServiceInfo → ℤ → String
  announcement info version = formats.kvb_json (
      set_version formats.numerals version
        (record empty_kvb { payload = some (formats.info_json info) }))

module _ (formats : Formats) (client : CoordinationClient) where
  -- Whether the service was given a coordination client.
  pub record Service : Type 0 where
    pub service_info : ServiceInfo
    pub service_entry_key : String
    pub coordinated : Bool
    pub datom_configured : Bool
    pub world : client.World

  abbrev pub Act : Type 0 → Type 0
  Act A = Exec Service A

  -- A call of the client.
  abbrev pub on_client : {A : Type 0} → (Service → Exec client.World A) → Act A
  on_client call s = let (r, w) = call s s.world in (r, record s { world = w })

  unfoldable pub init_coordination_client : Act (Unit {0})
  init_coordination_client = on_client (λ s. client.init)

  -- The exception is thrown again, whatever it is.
  unfoldable pub ensure_datasphere_membership : Act (Unit {0})
  ensure_datasphere_membership = on_client (λ s. client.get s.service_entry_key) >>= (λ _. pure tt)

  -- ConnectionCache::init; the answer is not looked at.
  unfoldable pub connection_cache_init : Act (Unit {0})
  connection_cache_init =
      on_client (λ s. client.subscribe_to_topic topic_services) >>= (λ _. pure tt)

  unfoldable pub publish_service_information : Act (Unit {0})
  publish_service_information =
      on_client (λ s. client.set s.service_entry_key (formats.info_json s.service_info) (negsuc 0))
      >>= (λ version.
          on_client (λ s.
            client.publish_message topic_services (announcement formats s.service_info version))
          >>= (λ _. pure tt))

  abbrev pub when : Bool → Act (Unit {0}) → Act (Unit {0})
  when true act = act
  when false act = pure tt

  unfoldable pub init : Act (Unit {0})
  unfolding init_coordination_client ensure_datasphere_membership connection_cache_init
      publish_service_information
  init s =
      (modify (λ s. record s {
        service_entry_key =
            formats.service_root_path s.service_info.data_sphere_id s.service_info.id;
      })
          >> when s.coordinated
              (init_coordination_client >> ensure_datasphere_membership >> connection_cache_init)
          >> when s.coordinated publish_service_information)
        s

  -- What ConfigService::init does with the answer to its get.
  abbrev pub configured : Outcome KvBuffer → Act (Unit {0})
  configured (returned a) =
      modify (λ s. record s { datom_configured = true }) >> publish_service_information
  configured (thrown (of_status e)) =
      if is_invalid_key e.status
      then modify (λ s. record s { datom_configured = false })
      else throw_exception (of_status e)
  configured (thrown (of_message e text)) =
      if is_invalid_key e.status
      then modify (λ s. record s { datom_configured = false })
      else throw_exception (of_message e text)
  configured (thrown other) = throw_exception other
  configured aborted = λ s. (aborted, s)

  abbrev pub check_configured : Act (Unit {0})
  check_configured s =
      let (r, w) = client.get s.service_entry_key s.world in configured r (record s { world = w })

  unfoldable pub config_service_init : Act (Unit {0})
  unfolding init_coordination_client connection_cache_init publish_service_information
  config_service_init =
      modify (λ s. record s { service_entry_key = configservice_root })
      >> init_coordination_client
      >> connection_cache_init
      >> check_configured

  unfoldable pub create_publishable_topics : Act (Unit {0})
  create_publishable_topics = on_client (λ s. client.publish_message topic_services "") >>= (λ _.
      on_client (λ s. client.publish_message (formats.resources_topic pb_volumes_type) "")
      >>= (λ _. pure tt))

  -- The future of the create is dropped, and its exception with it.
  abbrev pub dropped : Outcome String → Act (Unit {0})
  dropped (returned a) = pure tt
  dropped (thrown e) = pure tt
  dropped aborted = λ s. (aborted, s)

  unfoldable pub create_datom : Act (Unit {0})
  unfolding create_publishable_topics publish_service_information
  create_datom s =
      let (r, w) = client.create s.service_entry_key "" s.world in
      (dropped r >> create_publishable_topics >> publish_service_information)
        (record s { world = w })
