-- ===== src/Volume/Server/Startup.antt =====
-- The start of a volume server: VolumeServer::init and the constructors of VolumeReplica
-- (src/volumeserver/VolumeServer.cpp), with VolumeMetaDb::init (src/volumeserver/VolumeMetaDb.cpp).
-- The code makes a replica as soon as its volume is pulled; here the table is pulled first, and then
-- the replicas are made, which differs only in what is left behind where one of them throws.
use datom.Common.{ℕ, ℤ, pos, String, Option, none, some, List, [], ◌∷◌}
use datom.Status.{resource_load_failed, status_exception, of_status}
use datom.Exec.{Exec, Outcome, returned, thrown, aborted, ◌>>◌}
use datom.Config.{VolumeInfo, RingInfo}
use datom.BaseService.{CoordinationClient, Formats, Service, init}
use datom.BaseService.Lifecycle.{Threads, init_io_threadpool}
use datom.Dispatch.{ServiceApiHandler}
use datom.Member.{PbMember}
use datom.Member.Loop.{new_member, init as member_init}
use datom.Resources.{ResourceMgr, ResourceReplica, Children, pull_resource_config_table}
use datom.Volume.{Rocks, VolumeReplica}
use datom.Volume.Server.{VolumeServer, Codecs, register_handlers}

-- What the constructors take from their surroundings: DB::Open at a path, where `none` is a status
-- that is not ok, the paths that folly::sformat makes for a volume's id, and the bytes that the
-- members which the constructor leaves alone have in memory.
pub record Host (rocks : Rocks) : Type 0 where
  pub open_db : String → Option rocks.Store
  pub db_path : ℕ → String
  pub group_key : ℕ → String
  pub old_version : ℤ
  pub old_op_id : ℤ

module _ (rocks : Rocks) (host : Host rocks) where
  -- VolumeMetaDb::init
  abbrev pub db_init : Option rocks.Store → Outcome rocks.Store
  db_init none = thrown (of_status (status_exception resource_load_failed))
  db_init (some store) = returned store

  abbrev pub with_db : Outcome PbMember → Outcome rocks.Store → Outcome (VolumeReplica rocks)
  with_db (returned m) (returned store) =
      returned (record { member = m; journal = record { entries = [] }; db = store })
  with_db (returned m) (thrown e) = thrown e
  with_db (returned m) aborted = aborted
  with_db (thrown e) db = thrown e
  with_db aborted db = aborted

  unfoldable pub new_replica : String → ResourceReplica → Outcome (VolumeReplica rocks)
  unfolding new_member
  new_replica my_id r =
      with_db
        (new_member (pos r.info.id) (host.group_key r.info.id) r.member_ids my_id r.quorum
          host.old_version host.old_op_id)
        (db_init (host.open_db (host.db_path r.info.id)))

  abbrev pub with_member :
      VolumeReplica rocks → Outcome (Unit {0}) × PbMember → Outcome (VolumeReplica rocks)
  with_member v (returned a, m) = returned (record v { member = m })
  with_member v (thrown e, m) = thrown e
  with_member v (aborted, m) = aborted

  -- resource->init()
  abbrev pub init_replica : Outcome (VolumeReplica rocks) → Outcome (VolumeReplica rocks)
  init_replica (returned v) = with_member v (member_init v.member)
  init_replica (thrown e) = thrown e
  init_replica aborted = aborted

  abbrev pub with_rest :
      ℤ
      → Outcome (VolumeReplica rocks)
      → Outcome (List (ℤ × VolumeReplica rocks))
      → Outcome (List (ℤ × VolumeReplica rocks))
  with_rest id (returned v) (returned vs) = returned ((id, v) ∷ vs)
  with_rest id (returned v) (thrown e) = thrown e
  with_rest id (returned v) aborted = aborted
  with_rest id (thrown e) rest = thrown e
  with_rest id aborted rest = aborted

  unfoldable pub make_replicas :
      String → List (ℕ × ResourceReplica) → Outcome (List (ℤ × VolumeReplica rocks))
  unfolding new_replica member_init
  make_replicas my_id [] = returned []
  make_replicas my_id ((id, r) ∷ rest) =
      with_rest (pos id) (init_replica (new_replica my_id r)) (make_replicas my_id rest)

  module _ (formats : Formats) (client : CoordinationClient) (codecs : Codecs) where
    -- `handlers` is none where the server has no ServiceApiHandler.
    pub record Starting : Type 0 where
      pub service : Service formats client
      pub threads : Threads
      pub manager : ResourceMgr
      pub server : VolumeServer rocks
      pub handlers : Option (ServiceApiHandler (VolumeServer rocks))

    abbrev pub Act : Type 0
    Act = Exec Starting (Unit {0})

    abbrev pub service_init : Act
    service_init s = let (r, t) = init formats client s.service in (r, record s { service = t })

    abbrev pub threads_init : Act
    threads_init s = let (r, t) = init_io_threadpool s.threads in (r, record s { threads = t })

    -- A new replica manager and its `init`; the answers to its reads are `rings` and `resources`.
    abbrev pub manager_init : Children (ℕ × RingInfo) → Children VolumeInfo → Act
    manager_init rings resources s =
        let (r, m) = pull_resource_config_table rings resources (record {
          service_id = s.service.service_info.id;
          ring_table = [];
          resource_table = [];
        }) in
        (r, record s { manager = m })

    abbrev pub with_replicas : Outcome (List (ℤ × VolumeReplica rocks)) → Act
    with_replicas (returned vs) s = (returned tt, record s { server = record { replicas = vs } })
    with_replicas (thrown e) s = (thrown e, s)
    with_replicas aborted s = (aborted, s)

    -- getHandler<ServiceApiHandler>() is followed without a test.
    abbrev pub register_on : Option (ServiceApiHandler (VolumeServer rocks)) → Act
    register_on none s = (aborted, s)
    register_on (some h) s =
        (returned tt, record s { handlers = some (register_handlers rocks codecs h) })

    unfoldable pub volume_server_init : Children (ℕ × RingInfo) → Children VolumeInfo → Act
    unfolding init_io_threadpool
    volume_server_init rings resources =
        service_init
        >> threads_init
        >> manager_init rings resources
        >> (λ s. with_replicas (make_replicas s.service.service_info.id s.manager.resource_table) s)
        >> (λ s. register_on s.handlers s)
