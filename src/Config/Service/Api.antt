-- ===== src/Config/Service/Api.antt =====
-- ConfigApiHandler of src/configservice/ConfigService.cpp: the calls of src/idls/configapi.thrift,
-- each passed on to the service. `serve` answers one call after another, as long as the process
-- lives.
use datom.Common.{String, List, [], ◌∷◌}
use datom.Exec.{Outcome, returned, thrown, aborted, pure, ◌>>=◌, ◌>>◌}
use datom.Config.{DataSphereInfo, ServiceInfo, VolumeInfo, RingInfo}
use datom.Config.Service.{
  Coordination, ConfigService, Call, add_data_sphere, add_service_to, add_volume, list_services,
  list_volumes, list_volume_rings,
}

pub data ConfigCall : Type 0 where
  add_datasphere_call : DataSphereInfo → ConfigCall
  add_service_call : ServiceInfo → ConfigCall
  add_volume_call : VolumeInfo → ConfigCall
  list_services_call : String → ConfigCall
  list_volumes_call : String → ConfigCall
  list_volume_rings_call : String → ConfigCall

pub data ConfigAnswer : Type 0 where
  done : ConfigAnswer
  services : List ServiceInfo → ConfigAnswer
  volumes : List VolumeInfo → ConfigAnswer
  rings : List RingInfo → ConfigAnswer

module _ (client : Coordination) where
  unfoldable pub handle : ConfigCall → Call client ConfigAnswer
  handle (add_datasphere_call info) = do add_data_sphere client info; pure done
  handle (add_service_call info) = do add_service_to client info; pure done
  handle (add_volume_call info) = do v ← add_volume client info; pure done
  handle (list_services_call id) = do v ← list_services client id; pure (services v)
  handle (list_volumes_call id) = do v ← list_volumes client id; pure (volumes v)
  handle (list_volume_rings_call id) = do v ← list_volume_rings client id; pure (rings v)

  abbrev Served : Type 0
  Served = List (Outcome ConfigAnswer) × ConfigService client

  abbrev pub and_then : Outcome ConfigAnswer → ConfigService client → Served → Served
  and_then (returned a) t rest = (returned a ∷ rest.0, rest.1)
  and_then (thrown e) t rest = (thrown e ∷ rest.0, rest.1)
  and_then aborted t rest = (aborted ∷ [], t)

  unfoldable pub serve : List ConfigCall → ConfigService client → Served
  serve [] s = ([], s)
  serve (c ∷ calls) s = let (r, t) = handle c s in let rest = serve calls t in and_then r t rest

-- The datasphere that a call is about.
abbrev pub datasphere_of : ConfigCall → String
datasphere_of (add_datasphere_call info) = info.id
datasphere_of (add_service_call info) = info.data_sphere_id
datasphere_of (add_volume_call info) = info.datasphere_id
datasphere_of (list_services_call id) = id
datasphere_of (list_volumes_call id) = id
datasphere_of (list_volume_rings_call id) = id
