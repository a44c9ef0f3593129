-- ===== src/Config/Service.antt =====
-- DatasphereConfigMgr and ConfigService of src/configservice/ConfigService.cpp: the calls of the
-- Thrift interface. Each call waits for its creates (f.get()), so a call is one step here; calls
-- that overlap are the subject of the module Sphere.
pub mod Api
pub mod Dataspheres
pub mod Isolation
pub mod Stored
use datom.Common.{ℕ, String, str_eq, Bool, true, false, Option, none, some, List, [], ◌∷◌, ◌++◌}
use datom.Status.{
  Status, invalid_datasphere, StatusException, status_exception, of_status, other, Exception,
}
use datom.Exec.{
  Exec, Outcome, returned, thrown, aborted, pure, throw_exception, throw_status, ◌>>=◌, ◌>>◌,
}
use datom.Config.{
  ServiceInfo, ServiceType, volume_server, cli, test, VolumeInfo, RingInfo, DataSphereInfo, put,
  find, values_of,
}
use datom.Config.Sphere.{
  SphereMgr, new_sphere, add_service, ring_answered, add_resource, resource_answered, get_resources,
  get_rings,
}

-- The paths of src/idls/configtree.thrift, by their format and its arguments.
pub data TreePath : Type 0 where
  datasphere_root : String → TreePath
  service_root : String → String → TreePath
  ring_root : String → ℕ → TreePath
  resource_root : String → ℕ → TreePath

-- The coordination client: a create of a path answers no error, or the exception.
pub record Coordination : Type 1 where
  pub Tree : Type 0
  pub create_including_ancestors : TreePath → Tree → Option StatusException × Tree

abbrev pub status_of : Option StatusException → Option Status
status_of none = none
status_of (some e) = some e.status

pub record Datasphere : Type 0 where
  pub info : DataSphereInfo
  pub service_cache : List (String × ServiceInfo)
  pub volumes : SphereMgr

pub record ConfigService (client : Coordination) : Type 0 where
  pub tree : client.Tree
  pub datasphere_table : List (String × Datasphere)

module _ (client : Coordination) where
  abbrev pub Call : Type 0 → Type 0
  Call A = Exec (ConfigService client) A

  abbrev pub unless_error : Option StatusException → Call (Unit {0})
  unless_error none s = (returned tt, s)
  unless_error (some e) s = throw_exception (of_status e) s

  abbrev pub create : TreePath → Call (Unit {0})
  create path s =
      let answer = client.create_including_ancestors path s.tree in
      unless_error answer.0 (record s { tree = answer.1 })

  -- datasphereTable_[id] = datasphere
  abbrev pub store : String → Datasphere → ConfigService client → ConfigService client
  store id d s = record s { datasphere_table = put str_eq id d s.datasphere_table }

  abbrev pub with_volumes :
      String → Datasphere → SphereMgr → ConfigService client → ConfigService client
  with_volumes id d m = store id (record d { volumes = m })

  unfoldable pub add_data_sphere : DataSphereInfo → Call (Unit {0})
  add_data_sphere info = do
    create (datasphere_root info.id)
    λ s. (
      returned tt,
      store info.id (record { info = info; service_cache = []; volumes = new_sphere }) s,
    )

  abbrev pub found : Option Datasphere → Call Datasphere
  found none = throw_status invalid_datasphere
  found (some d) = pure d

  unfoldable pub get_datasphere_or_throw : String → Call Datasphere
  get_datasphere_or_throw id s = found (find str_eq id s.datasphere_table) s

  -- The create of the ring that a service filled up, and its answer.
  abbrev pub create_ring :
      List RingInfo
      → DataSphereInfo
      → SphereMgr
      → client.Tree
      → Outcome (Unit {0}) × SphereMgr × client.Tree
  create_ring [] info m tree = (returned tt, m, tree)
  create_ring (ring ∷ rest) info m tree =
      let (error, tree') = client.create_including_ancestors (ring_root info.id ring.id) tree in
      let (r, m') = ring_answered 0 (status_of error) m in (r, m', tree')

  -- Errors of the volume manager are logged, a failed assertion ends the process.
  abbrev pub logged : Outcome (Unit {0}) → Outcome (Unit {0})
  logged (returned a) = returned tt
  logged (thrown e) = returned tt
  logged aborted = aborted

  -- What follows the volume manager's addService: the create of the ring that is in flight, if any.
  abbrev pub after_add : Outcome (Unit {0}) → String → Datasphere → SphereMgr → Call (Unit {0})
  after_add (returned a) id d m s =
      let (q, m', tree) = create_ring m.rings_in_flight d.info m s.tree in
      (logged q, with_volumes id d m' (record s { tree = tree }))
  after_add (thrown e) id d m s = (returned tt, with_volumes id d m s)
  after_add aborted id d m s = (aborted, with_volumes id d m s)

  abbrev pub place_service : ServiceType → String → ServiceInfo → Datasphere → Call (Unit {0})
  place_service volume_server id info d s =
      let (r, m) = add_service info d.volumes in after_add r id d m s
  place_service cli id info d s = (returned tt, s)
  place_service test id info d s = (returned tt, s)

  abbrev pub cached : ServiceInfo → Datasphere → Datasphere
  cached info d = record d { service_cache = put str_eq info.id info d.service_cache }

  -- DatasphereConfigMgr::addService
  abbrev pub add_to_datasphere : ServiceInfo → Datasphere → Call (Unit {0})
  add_to_datasphere info d = do
    create (service_root info.data_sphere_id info.id)
    λ s.
        place_service info.type info.data_sphere_id info (cached info d)
          (store info.data_sphere_id (cached info d) s)

  unfoldable pub add_service_to : ServiceInfo → Call (Unit {0})
  unfolding get_datasphere_or_throw
  add_service_to info = do d ← get_datasphere_or_throw info.data_sphere_id; add_to_datasphere info d

  -- The create of the volume that was placed, and its answer.
  abbrev pub create_volume : List VolumeInfo → String → Datasphere → SphereMgr → Call VolumeInfo
  create_volume [] id d m s = (aborted, s)
  create_volume (v ∷ rest) id d m s =
      let (error, tree) = client.create_including_ancestors (resource_root d.info.id v.id) s.tree in
      let (r, m') = resource_answered 0 (status_of error) m in
      let t = with_volumes id d m' (record s { tree = tree }) in
      elim r [ returned a ↦ (returned v, t) | thrown e ↦ (thrown e, t) | aborted ↦ (aborted, t) ]

  -- DatasphereConfigMgr::addVolume
  abbrev pub volume_call : Outcome (Unit {0}) → String → Datasphere → SphereMgr → Call VolumeInfo
  volume_call (returned a) id d m s = create_volume m.resources_in_flight id d m s
  volume_call (thrown e) id d m s = throw_exception e s
  volume_call aborted id d m s = (aborted, s)

  unfoldable pub add_volume : VolumeInfo → Call VolumeInfo
  unfolding get_datasphere_or_throw
  add_volume info = do
    d ← get_datasphere_or_throw info.datasphere_id
    λ s. let (r, m) = add_resource info d.volumes in volume_call r info.datasphere_id d m s

  unfoldable pub list_services : String → Call (List ServiceInfo)
  unfolding get_datasphere_or_throw
  list_services id = do d ← get_datasphere_or_throw id; pure (values_of d.service_cache)

  unfoldable pub list_volumes : String → Call (List VolumeInfo)
  unfolding get_datasphere_or_throw get_resources
  list_volumes id = do d ← get_datasphere_or_throw id; λ s. ((get_resources d.volumes).0, s)

  unfoldable pub list_volume_rings : String → Call (List RingInfo)
  unfolding get_datasphere_or_throw get_rings
  list_volume_rings id = do d ← get_datasphere_or_throw id; λ s. ((get_rings d.volumes).0, s)

  -- serviceCache_.at(id)
  abbrev pub service_at : Option ServiceInfo → Call ServiceInfo
  service_at none = throw_exception other
  service_at (some info) = pure info

  unfoldable pub get_service_info : String → String → Call ServiceInfo
  unfolding get_datasphere_or_throw
  get_service_info datasphere_id id = do
    d ← get_datasphere_or_throw datasphere_id
    service_at (find str_eq id d.service_cache)
