-- ===== src/Examples/Configs.antt =====
-- The theorems on the configuration service and its rings at concrete states.
use datom.Common.{◌==◌, str_eq, ◌≡◌, refl, none, some, List, [], ◌∷◌, ◌++◌, arith}
use datom.Config.{VolumeInfo, find}
use datom.Config.Sphere.{
  SphereMgr, new_sphere, Event, service_added, resource_added, ring_created, resource_created, run,
  step, add_service, ring_answered, add_resource, resource_answered,
}
use datom.Config.Sphere.Names.{overlapping_adds}
use datom.Config.Service.{
  Coordination, ConfigService, Datasphere, list_services, list_volumes, list_volume_rings,
}
use datom.Config.Service.Api.{
  ConfigCall, add_service_call, add_volume_call, list_services_call, serve,
}
use datom.Config.Service.Isolation.{calls_isolated}
use datom.Resources.{ResourceMgr, children, pull_resource_config_table}
use datom.Resources.Ownership.{on_topic_updates, late_ring_ignored}
use datom.Resources.Holdings.{owned}
use datom.Resources.Placement.{new_manager, published_volumes_held}
use datom.Examples.{service, volume}

-- Three services make a ring, and a volume is placed on it.
abbrev four_events : List Event
four_events =
    service_added (service "1" "a")
    ∷ service_added (service "2" "b")
    ∷ service_added (service "3" "c")
    ∷ ring_created 0 none
    ∷ resource_added (volume "v")
    ∷ resource_created 0 none
    ∷ []

-- A sphere with one ring and no volume.
abbrev ringed : SphereMgr
ringed = record new_sphere {
  rings = (0, record { id = 0; member_ids = "1" ∷ "2" ∷ "3" ∷ [] }) ∷ [];
  next_add_ring_id = 1;
}

overlapping_adds_example :
    (x y : VolumeInfo) × (x.name ≡ "v")
    × (y.name ≡ "v")
    × ((run
          (resource_added (volume "v")
            ∷ resource_added (volume "v")
            ∷ resource_created 0 none
            ∷ resource_created 0 none
            ∷ [])
          ringed).1.resources
        ≡ [] ++ (0, x) ∷ (1, y) ∷ [])
overlapping_adds_example =
    overlapping_adds (volume "v") (volume "v") ringed refl (omega arith) refl refl tt

-- A coordination service that takes every create.
abbrev tree_client : Coordination
tree_client = record { Tree = Unit {0}; create_including_ancestors = λ path tree. (none, tree) }

abbrev empty_datasphere : Datasphere
empty_datasphere = record { info = record { id = "d" }; service_cache = []; volumes = new_sphere }

abbrev config : ConfigService tree_client
config = record { tree = tt; datasphere_table = ("d", empty_datasphere) ∷ [] }

abbrev empty_config : ConfigService tree_client
empty_config = record { tree = tt; datasphere_table = [] }

abbrev three_calls : List ConfigCall
three_calls =
    add_service_call (service "1" "a") ∷ list_services_call "d" ∷ add_volume_call (volume "v") ∷ []

abbrev two_dataspheres : ConfigService tree_client
two_dataspheres = record {
  tree = tt;
  datasphere_table = ("d", empty_datasphere) ∷ ("e", empty_datasphere) ∷ [];
}

calls_isolated_example :
    let t = (serve tree_client three_calls two_dataspheres).1 in
    (find str_eq "e" t.datasphere_table ≡ some empty_datasphere)
    × ((list_services tree_client "e" t).0 ≡ (list_services tree_client "e" two_dataspheres).0)
    × ((list_volumes tree_client "e" t).0 ≡ (list_volumes tree_client "e" two_dataspheres).0)
    × ((list_volume_rings tree_client "e" t).0
        ≡ (list_volume_rings tree_client "e" two_dataspheres).0)
calls_isolated_example =
    calls_isolated tree_client "e" three_calls two_dataspheres (refl, (refl, (refl, tt)))

abbrev manager : ResourceMgr
manager = record { service_id = "1"; ring_table = []; resource_table = [] }

published_volumes_held_example :
    let rings = (run four_events new_sphere).1.rings in
    find ◌==◌ 0
      (on_topic_updates
        (volume "v" ∷ [])
        (pull_resource_config_table
          (children rings)
          (children [])
          (new_manager "2")).1).resource_table
    ≡ owned "2" rings (volume "v" ∷ []) 0
unfolding run step add_service ring_answered add_resource resource_answered
published_volumes_held_example = published_volumes_held four_events "2" [] (volume "v" ∷ []) 0 refl

late_ring_ignored_example : (on_topic_updates (volume "v" ∷ []) manager).resource_table ≡ []
late_ring_ignored_example = late_ring_ignored 0 (volume "v" ∷ []) manager refl (refl, tt)
